-- ===== src/Client/Numbered.antt =====
-- The blocks that `initFile` makes: their ids, their sizes, and their digests in the message of
-- `sendFileBlockMD5info`.
use mini_distributed_storage.Base.{
  ℕ, zero, suc, ◌+◌, ◌-◌, ◌*◌, ◌/◌, ◌%◌, ◌^◌, ◌<◌, ◌≡◌, refl, ap, true, some, List, [], ◌∷◌, ◌++◌,
  Bytes, length, length-append, drop, take-append_self, drop-append_self, ltb, ◌==◌, if◌then◌else◌,
  arith, Bool-cases, inl, inr,
}
use mini_distributed_storage.Base.Slices.{slice, length-slice, drop_add}
use mini_distributed_storage.Md5.{Digest, get_string_md5, length-get_string_md5}
use mini_distributed_storage.FileValue.Blocks.{nth_md5}
use mini_distributed_storage.Client.{
  BlockFile, page_size, init_file, mapped, send_file_block_md5info,
}
use mini_distributed_storage.Client.Messages.{stream}

-- Blocks with the ids from `i` on, which are all there in the file.
unfoldable pub Numbered : Bytes → ℕ → List BlockFile → Type 0
Numbered content i [] = Unit {0}
Numbered content i (b ∷ bs) =
    (b.id ≡ i)
    × (length (mapped content b) ≡ b.block_size)
    × (36 + b.block_size < 2 ^ 31)
    × Numbered content (suc i) bs

size_here :
    (xs : Bytes) (i : ℕ)
    → i < length xs / page_size + 1
    → let size = if i == length xs / page_size + 1 - 1 then length xs % page_size else page_size in
      (length (slice (i * page_size) size xs) ≡ size) × (36 + size < 2 ^ 31)
size_here xs i h = elim (Bool-cases (i == length xs / page_size + 1 - 1)) [
  | inl last ↦
      let same : i ≡ length xs / page_size = ground (arith, last) in
      rw last
        (omega (arith, same, length-slice (i * page_size) (length xs % page_size) xs), omega arith)
  | inr inner ↦
      let below : i < length xs / page_size = ground (arith, inner, h) in
      rw inner (omega (arith, below, length-slice (i * page_size) page_size xs), omega arith)
]

pub init_file-Numbered :
    (xs : Bytes) (k i : ℕ)
    → i + k ≡ length xs / page_size + 1
    → length xs < 2 ^ 31
    → (bs : List BlockFile) × (init_file (length xs) (length xs / page_size + 1) k i ≡ some bs)
      × Numbered xs i bs
      × (length bs ≡ k)
unfolding init_file Numbered
init_file-Numbered xs zero i e h = ([], refl, tt, refl)
init_file-Numbered xs (suc k) i e h =
    let (bs, rest, numbered, count) = init_file-Numbered xs k (suc i) (omega arith) h in
    let fits : ltb (i * page_size) (2 ^ 31) ≡ true = ground arith in
    let size = if i == length xs / page_size + 1 - 1 then length xs % page_size else page_size in
    let here = size_here xs i (omega arith) in
    (
      record { block_size = size; id = i; offset = i * page_size } ∷ bs,
      rw (fits, rest),
      (refl, here.0, here.1, numbered),
      ap suc count,
    )

module _ (d : Digest) where
  pub nth_md5_first : (s rest : Bytes) → nth_md5 (get_string_md5 d s ++ rest) 0 ≡ get_string_md5 d s
  nth_md5_first s rest =
      rw (length-get_string_md5 d s) at (take-append_self (get_string_md5 d s) rest)

  pub nth_md5_later :
      (s rest : Bytes) (j : ℕ) → nth_md5 (get_string_md5 d s ++ rest) (suc j) ≡ nth_md5 rest j
  nth_md5_later s rest j =
      let split : suc j * 32 ≡ 32 + j * 32 = omega arith in
      let front : drop 32 (get_string_md5 d s ++ rest) ≡ rest =
        rw (length-get_string_md5 d s) at (drop-append_self (get_string_md5 d s) rest) in
      rw (split, drop_add 32 (j * 32) (get_string_md5 d s ++ rest), front) refl

  pub length-md5s :
      (content : Bytes) (bs : List BlockFile)
      → length (stream (send_file_block_md5info d content bs)) ≡ 32 * length bs
  unfolding send_file_block_md5info stream
  length-md5s content [] = refl
  length-md5s content (b ∷ bs) = omega (
    arith,
    length-append (get_string_md5 d (mapped content b))
        (stream (send_file_block_md5info d content bs)),
    length-get_string_md5 d (mapped content b),
    length-md5s content bs,
  )
