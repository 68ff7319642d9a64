-- ===== src/Buffer/Valid.antt =====
-- The representation invariant of `Buffer`: the indices are in order and inside the vector, and no
-- `size_t` wraps.
use mini_distributed_storage.Base.{
  ℕ, zero, ◌+◌, ◌-◌, ◌^◌, ◌≤◌, ◌<◌, ◌≡◌, ◌++◌, Bytes, length, ◌∙◌, length-append, length-replicate,
  length-take, replicate, arith,
}
use mini_distributed_storage.Base.Slices.{
  write_at, length-write_at, slice, length-slice, slice-take, slice-append_left,
  slice-write_at_self,
}
use mini_distributed_storage.Buffer.{
  Buffer, new, readable_bytes, writable_bytes, cheap_prepend, resize, make_space,
  ensure_writable_bytes,
}

abbrev pub max_len : ℕ
max_len = 2 ^ 63

pub record IsValid (b : Buffer) : Type 0 where
  pub past_front : cheap_prepend ≤ b.writer_index
  pub in_order : b.reader_index ≤ b.writer_index
  pub inside : b.writer_index ≤ length b.buffer
  pub small : length b.buffer < max_len

pub new-IsValid : IsValid new
new-IsValid = omega arith

pub length-resize : (xs : Bytes) (n : ℕ) → length (resize xs n) ≡ n
length-resize xs n = omega (
  arith,
  length-take n (xs ++ replicate (n - length xs) 0),
  length-append xs (replicate (n - length xs) 0),
  length-replicate (n - length xs) zero,
)

-- The `size_t` differences are the true ones.
pub readable_lem : {b : Buffer} → IsValid b → readable_bytes b ≡ b.writer_index - b.reader_index
readable_lem v = omega arith

pub writable_lem : {b : Buffer} → IsValid b → writable_bytes b ≡ length b.buffer - b.writer_index
writable_lem v = omega arith

-- The readable bytes: what the buffer stands for.
abbrev pub contents : Buffer → Bytes
contents b = slice b.reader_index (readable_bytes b) b.buffer

pub length-contents : {b : Buffer} → IsValid b → length (contents b) ≡ readable_bytes b
length-contents {b} v = omega (arith, length-slice b.reader_index (readable_bytes b) b.buffer)

-- What `ensureWritableBytes` leaves: a valid buffer of the same contents, with room for `len`.
pub record HasRoom (b c : Buffer) (len : ℕ) : Type 0 where
  pub valid : IsValid c
  pub same : contents c ≡ contents b
  pub room : c.writer_index + len ≤ length c.buffer

slice-resize :
    (xs : Bytes) (i n m : ℕ)
    → i + n ≤ length xs
    → i + n ≤ m
    → slice i n (resize xs m) ≡ slice i n xs
slice-resize xs i n m h k =
    slice-take (xs ++ replicate (m - length xs) 0) i n m k
    ∙ slice-append_left xs i n (replicate (m - length xs) 0) h

resize-HasRoom :
    (b : Buffer) (len : ℕ)
    → IsValid b
    → length b.buffer < b.writer_index + len
    → b.writer_index + len < max_len
    → HasRoom b (record b { buffer = resize b.buffer (b.writer_index + len) }) len
resize-HasRoom b len v g h = ground (
  arith,
  length-resize b.buffer (b.writer_index + len),
  slice-resize b.buffer b.reader_index (readable_bytes b) (b.writer_index + len),
)

-- `makeSpace` when the move makes enough room.
module _ (b : Buffer) (len : ℕ) (v : IsValid b) where
  open b use {buffer, reader_index, writer_index}

  moved : Buffer
  moved = record {
    buffer = write_at buffer cheap_prepend (contents b);
    reader_index = cheap_prepend;
    writer_index = cheap_prepend + (writer_index - reader_index);
  }

  moved-HasRoom :
      len + cheap_prepend ≤ length buffer - writer_index + reader_index → HasRoom b moved len
  unfolding moved
  moved-HasRoom h = ground (
    arith,
    length-write_at buffer cheap_prepend (contents b),
    length-contents v,
    slice-write_at_self buffer cheap_prepend (contents b),
  )

pub ensure-HasRoom :
    (b : Buffer) (len : ℕ)
    → IsValid b
    → b.writer_index + len < max_len
    → HasRoom b (ensure_writable_bytes b len) len
unfolding ensure_writable_bytes make_space moved
ensure-HasRoom b len v h = ground (arith, resize-HasRoom b len v, moved-HasRoom b len v)
