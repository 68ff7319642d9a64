-- ===== src/Buffer/Contents.antt =====
-- What each method of `Buffer` does to the readable bytes, on a valid buffer.
use mini_distributed_storage.Base.{
  ℕ, ◌+◌, ◌-◌, ◌≤◌, ◌<◌, ◌≡◌, refl, ap, some, [], ◌++◌, append_assoc, Bytes, length, take, drop,
  length-take, length-drop, take_all, take-append-drop, arith, Bool-cases, inl, inr, leb,
}
use mini_distributed_storage.Base.Slices.{
  write_at, length-write_at, slice, slice_add, slice-write_at_self, slice-write_at_before,
  slice-write_at_after, take-slice, drop-slice,
}
use mini_distributed_storage.Buffer.{
  Buffer, new, readable_bytes, writable_bytes, cheap_prepend, peek, retrieve, retrieve_all,
  read_as_string, read_as_block, ensure_writable_bytes, make_space, append, prepend, read_fd,
}
use mini_distributed_storage.Buffer.Valid.{
  IsValid, new-IsValid, max_len, contents, length-contents, ensure-HasRoom,
}

-- The buffer is valid and holds `xs`.
pub record Holds (b : Buffer) (xs : Bytes) : Type 0 where
  pub valid : IsValid b
  pub holds : contents b ≡ xs

-- The length that the code reads is the number of bytes held.
pub readable-length : {b : Buffer} {xs : Bytes} → Holds b xs → readable_bytes b ≡ length xs
readable-length h = omega (arith, length-contents h.valid, ap length h.holds)

slice-write_at_end :
    (xs : Bytes) (r m : ℕ) (ys : Bytes)
    → r + m + length ys ≤ length xs
    → slice r (m + length ys) (write_at xs (r + m) ys) ≡ slice r m xs ++ ys
slice-write_at_end xs r m ys h = rw (
  slice_add r m (length ys) (write_at xs (r + m) ys),
  slice-write_at_before xs r m (r + m) ys (omega arith),
  slice-write_at_self xs (r + m) ys h,
)

slice-write_at_front :
    (xs : Bytes) (r : ℕ) (ys : Bytes) (m : ℕ)
    → r + length ys ≤ length xs
    → slice r (length ys + m) (write_at xs r ys) ≡ ys ++ slice (r + length ys) m xs
slice-write_at_front xs r ys m h = rw (
  slice_add r (length ys) m (write_at xs r ys),
  slice-write_at_self xs r ys h,
  slice-write_at_after xs (r + length ys) m r ys (omega arith),
)

-- A copy behind the writer index, in a buffer that has room for it.
fill-Holds :
    (b : Buffer) (bytes : Bytes)
    → IsValid b
    → b.writer_index + length bytes ≤ length b.buffer
    → Holds
        (record b {
          buffer = write_at b.buffer b.writer_index bytes;
          writer_index = b.writer_index + length bytes;
        })
        (contents b ++ bytes)
fill-Holds b bytes v h = ground (
  arith,
  length-write_at b.buffer b.writer_index bytes,
  slice-write_at_end b.buffer b.reader_index (b.writer_index - b.reader_index) bytes,
)

-- On a valid buffer, and with fewer than 2^63 bytes up to the new writer index, `append` puts the
-- bytes behind those that the buffer holds, whether it copies into free space, moves the contents to
-- the front, or enlarges the vector; the buffer stays valid.
pub append-Holds :
    (b : Buffer) (bytes : Bytes)
    → IsValid b
    → b.writer_index + length bytes < max_len
    → Holds (append b bytes) (contents b ++ bytes)
unfolding append
append-Holds b bytes v h =
    let e = ensure-HasRoom b (length bytes) v h in
    ground (arith, fill-Holds (ensure_writable_bytes b (length bytes)) bytes e.valid e.room)

module _ {b : Buffer} {xs : Bytes} (h : Holds b xs) where
  -- A read of `n` readable bytes stays inside the vector and gives the first `n`.
  pub peek-take : (n : ℕ) → n ≤ length xs → peek b n ≡ some (take n xs)
  unfolding peek
  peek-take n k = ground (
    arith,
    h.valid,
    readable-length h,
    h.holds,
    take-slice b.buffer b.reader_index (readable_bytes b) n,
  )

  pub retrieve-Holds : (n : ℕ) → n ≤ length xs → Holds (retrieve b n) (drop n xs)
  unfolding retrieve
  retrieve-Holds n k = ground (
    arith,
    h.valid,
    readable-length h,
    h.holds,
    drop-slice b.buffer b.reader_index (readable_bytes b) n,
  )

  pub retrieve_all-Holds : Holds (retrieve_all b) []
  unfolding retrieve_all
  retrieve_all-Holds = ground (arith, h.valid)

  -- `readAsBlock` takes the first `n` bytes off.
  pub read_as_block_lem :
      (n : ℕ) → n ≤ length xs → read_as_block b n ≡ some (take n xs, retrieve b n)
  unfolding read_as_block retrieve
  read_as_block_lem n k = ground (arith, peek-take n k)

  -- `readAsString` takes all.
  pub read_as_string_lem : read_as_string b ≡ some (xs, retrieve_all b)
  unfolding read_as_string
  read_as_string_lem =
      ground (arith, readable-length h, peek-take (readable_bytes b), take_all (length xs) xs)

  -- `prepend` puts bytes in front of those that a valid buffer holds, if there is room for them
  -- below the reader index.
  pub prepend_lem :
      (ys : Bytes)
      → length ys ≤ b.reader_index
      → (c : Buffer) × (prepend b ys ≡ some c) × Holds c (ys ++ xs)
  unfolding prepend
  prepend_lem ys k = (
    record b {
      buffer = write_at b.buffer (b.reader_index - length ys) ys;
      reader_index = b.reader_index - length ys;
    },
    ground (arith, h.valid),
    ground (
      arith,
      h.valid,
      h.holds,
      length-write_at b.buffer (b.reader_index - length ys) ys,
      slice-write_at_front b.buffer (b.reader_index - length ys) ys (readable_bytes b),
    ),
  )

-- The second part of `readFd`: the vector is full, and the rest comes from `extrabuf`.
spill-Holds :
    (b : Buffer) (bytes : Bytes) (n : ℕ)
    → IsValid b
    → n ≡ length b.buffer - b.writer_index
    → n < length bytes
    → length b.buffer + length bytes < max_len
    → let filled = write_at b.buffer b.writer_index (take n bytes) in
      Holds
        (append (record b { buffer = filled; writer_index = length filled }) (drop n bytes))
        (contents b ++ bytes)
spill-Holds b bytes n v e more h =
    let filled = write_at b.buffer b.writer_index (take n bytes) in
    let full : b.writer_index + length (take n bytes) ≡ length filled =
      omega (arith, length-write_at b.buffer b.writer_index (take n bytes), length-take n bytes) in
    let f = fill-Holds b (take n bytes) v (omega (arith, length-take n bytes)) in
    let g = rw full at f in
    let k =
      append-Holds (record b { buffer = filled; writer_index = length filled }) (drop n bytes)
        g.valid
        (omega
          (arith, length-write_at b.buffer b.writer_index (take n bytes), length-drop n bytes)) in
    ground (
      arith,
      k,
      g.holds,
      append_assoc (contents b) (take n bytes) (drop n bytes),
      take-append-drop n bytes,
    )

-- On a valid buffer whose vector and the new bytes together have fewer than 2^63 bytes, `readFd`
-- appends what `readv` has delivered, first into the free space and then through `extrabuf`; the
-- buffer stays valid.
pub read_fd-Holds :
    (b : Buffer) (bytes : Bytes)
    → IsValid b
    → length b.buffer + length bytes < max_len
    → Holds (read_fd b (some bytes)) (contents b ++ bytes)
unfolding read_fd
read_fd-Holds b bytes v h = elim (Bool-cases (leb (length bytes) (writable_bytes b))) [
  | inl fits ↦
      rw (fits, read_fd) (ground (arith, take_all (writable_bytes b) bytes, fill-Holds b bytes v))
  | inr more ↦
      rw (more, read_fd) (spill-Holds b bytes (writable_bytes b) v (omega arith) (ground arith) h)
]

-- `append` moves the reader index to the front or leaves it.
pub reader-append :
    (b : Buffer) (bytes : Bytes)
    → b.reader_index ≡ cheap_prepend
    → (append b bytes).reader_index ≡ cheap_prepend
unfolding append ensure_writable_bytes make_space
reader-append b bytes h = ground arith

pub Holds-append :
    {b : Buffer} {xs : Bytes} (ys : Bytes)
    → Holds b xs
    → b.writer_index + length ys < max_len
    → Holds (append b ys) (xs ++ ys)
Holds-append {b} {xs} ys h k = let a = append-Holds b ys h.valid k in rw h.holds at a

pub new-Holds : Holds new []
new-Holds = record { valid = new-IsValid; holds = refl }
