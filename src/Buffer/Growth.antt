-- ===== src/Buffer/Growth.antt =====
-- How far the vector of a buffer grows: by no more than the bytes it takes in.
use mini_distributed_storage.Base.{
  ℕ, ◌+◌, ◌<◌, ◌≤◌, some, Bytes, length, length-drop, take, drop, leb, ◌%◌, ◌^◌, Bool-cases, inl,
  inr, arith, ◌≡◌,
}
use mini_distributed_storage.Base.Slices.{slice, write_at, length-write_at}
use mini_distributed_storage.Buffer
use mini_distributed_storage.Buffer.{Buffer, readable_bytes, writable_bytes}
use mini_distributed_storage.Buffer.Valid.{IsValid, max_len, length-resize}

length-make_space :
    (b : Buffer) (n : ℕ)
    → IsValid b
    → length b.buffer + n < max_len
    → length (Buffer.make_space b n).buffer ≤ length b.buffer + n
unfolding Buffer.make_space
length-make_space b n v h = ground (
  arith,
  v,
  length-resize b.buffer ((b.writer_index + n) % 2 ^ 64),
  length-write_at b.buffer 8 (slice b.reader_index (readable_bytes b) b.buffer),
)

length-ensure :
    (b : Buffer) (n : ℕ)
    → IsValid b
    → length b.buffer + n < max_len
    → length (Buffer.ensure_writable_bytes b n).buffer ≤ length b.buffer + n
unfolding Buffer.ensure_writable_bytes
length-ensure b n v h = ground (arith, length-make_space b n v h)

length-append_buffer :
    (b : Buffer) (bytes : Bytes)
    → IsValid b
    → length b.buffer + length bytes < max_len
    → length (Buffer.append b bytes).buffer ≤ length b.buffer + length bytes
unfolding Buffer.append
length-append_buffer b bytes v h =
    let c = Buffer.ensure_writable_bytes b (length bytes) in
    omega (arith, length-write_at c.buffer c.writer_index bytes, length-ensure b (length bytes) v h)

pub length-read_fd :
    (b : Buffer) (bytes : Bytes)
    → IsValid b
    → length b.buffer + length bytes < max_len
    → length (Buffer.read_fd b (some bytes)).buffer ≤ length b.buffer + length bytes
unfolding Buffer.read_fd
length-read_fd b bytes v h =
    let filled = write_at b.buffer b.writer_index (take (writable_bytes b) bytes) in
    let same = length-write_at b.buffer b.writer_index (take (writable_bytes b) bytes) in
    elim (Bool-cases (leb (length bytes) (writable_bytes b))) [
      | inl fits ↦ rw fits (omega (arith, same))
      | inr more ↦
          let full : Buffer = record b { buffer = filled; writer_index = length filled } in
          let rest = drop (writable_bytes b) bytes in
          let valid : IsValid full = record {
            past_front = omega (arith, same, v.past_front, v.inside);
            in_order = omega (arith, same, v.in_order, v.inside);
            inside = omega arith;
            small = omega (arith, same, v.small);
          } in
          rw more (
            omega (
              arith,
              same,
              length-drop (writable_bytes b) bytes,
              length-append_buffer full rest valid
                  (omega (arith, same, h, length-drop (writable_bytes b) bytes)),
            ))
    ]

-- Taking bytes off leaves the vector as it is.
pub length-retrieve : (b : Buffer) (n : ℕ) → length (Buffer.retrieve b n).buffer ≡ length b.buffer
unfolding Buffer.retrieve
length-retrieve b n = ground arith
