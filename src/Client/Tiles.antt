-- ===== src/Client/Tiles.antt =====
-- The blocks of a file: together they are the file.
use mini_distributed_storage.Base.{
  ℕ, zero, suc, ◌+◌, ◌-◌, ◌*◌, ◌/◌, ◌%◌, ◌^◌, ◌<◌, ◌≡◌, ◌≢◌, refl, sym, ap, true, false, some, List,
  [], ◌∷◌, ◌++◌, append-nil, Bytes, replicate, length, length-drop, take, drop, take_all, drop_all,
  take-append-drop, ltb, ◌==◌, if◌then◌else◌, arith, Bool-cases, inl, inr,
}
use mini_distributed_storage.Base.Slices.{slice, drop_add}
use mini_distributed_storage.Client.{
  File, BlockFile, page_size, block_count, init_file, file, mapped,
}

-- What the blocks give, one after the other.
unfoldable pub joined : Bytes → List BlockFile → Bytes
joined content [] = []
joined content (b ∷ bs) = mapped content b ++ joined content bs

-- The last block takes the rest of the file.
last_part :
    (xs : Bytes) (i : ℕ)
    → length xs ≡ i * page_size + length xs % page_size
    → take (length xs % page_size) (drop (i * page_size) xs) ≡ drop (i * page_size) xs
last_part xs i h =
    take_all (length xs % page_size) (drop (i * page_size) xs)
      (omega (arith, length-drop (i * page_size) xs))

-- One block, and what follows it.
block_part :
    (xs : Bytes) (i : ℕ)
    → i < length xs / page_size + 1
    → let size = if i == length xs / page_size + 1 - 1 then length xs % page_size else page_size in
      slice (i * page_size) size xs ++ drop (suc i * page_size) xs ≡ drop (i * page_size) xs
block_part xs i h = elim (Bool-cases (i == length xs / page_size + 1 - 1)) [
  | inl last ↦
      let same : i ≡ length xs / page_size = ground (arith, last) in
      rw
        (
          last,
          drop_all (suc i * page_size) xs (omega (arith, same)),
          append-nil (slice (i * page_size) (length xs % page_size) xs),
        )
        (last_part xs i (omega (arith, same)))
  | inr inner ↦
      let step : suc i * page_size ≡ i * page_size + page_size = omega arith in
      rw (inner, step, drop_add (i * page_size) page_size xs)
        (take-append-drop page_size (drop (i * page_size) xs))
]

-- The blocks from `i` on give the file from there on.
init_file-joined :
    (xs : Bytes) (k i : ℕ)
    → length xs % page_size ≢ 0
    → i + k ≡ length xs / page_size + 1
    → length xs < 2 ^ 31
    → (bs : List BlockFile) × (init_file (length xs) (length xs / page_size + 1) k i ≡ some bs)
      × (joined xs bs ≡ drop (i * page_size) xs)
      × (length bs ≡ k)
unfolding init_file joined
init_file-joined xs zero i ne e h =
    ([], refl, sym (drop_all (i * page_size) xs (omega arith)), refl)
init_file-joined xs (suc k) i ne e h =
    let (bs, rest, tiles, count) = init_file-joined xs k (suc i) ne (omega arith) h in
    let fits : ltb (i * page_size) (2 ^ 31) ≡ true = ground arith in
    let size = if i == length xs / page_size + 1 - 1 then length xs % page_size else page_size in
    (
      record { block_size = size; id = i; offset = i * page_size } ∷ bs,
      rw (fits, rest),
      rw tiles (block_part xs i (omega arith)),
      ap suc count,
    )

-- The file that the constructor makes of its blocks.
abbrev pub file_of : Bytes → ℕ → List BlockFile → File
file_of xs n bs = record {
  content = xs;
  block_num = n;
  block_file_list = bs;
  upload_id = replicate n false;
}

pub file-file_of :
    (xs : Bytes) (n : ℕ) (bs : List BlockFile)
    → block_count (length xs) ≡ n
    → init_file (length xs) n n 0 ≡ some bs
    → file xs ≡ some (file_of xs n bs)
unfolding file
file-file_of xs n bs e1 e2 = rw (e1, e2)

-- A file whose size is below 2^31 and no multiple of 2^20: the constructor makes a list of `blockNum_`
-- blocks, and what `mmap` gives for them, one after the other, is the file.
pub file-joined :
    (xs : Bytes)
    → length xs % page_size ≢ 0
    → length xs < 2 ^ 31
    → (f : File) × (file xs ≡ some f)
      × (joined f.content f.block_file_list ≡ xs)
      × (f.block_num ≡ length xs / page_size + 1)
      × (length f.block_file_list ≡ f.block_num)
unfolding block_count
file-joined xs ne h =
    let n : block_count (length xs) ≡ length xs / page_size + 1 = ground arith in
    let (bs, made, tiles, count) =
      init_file-joined xs (length xs / page_size + 1) 0 ne (omega arith) h in
    let blocks = length xs / page_size + 1 in
    (file_of xs blocks bs, file-file_of xs blocks bs n made, tiles, refl, count)
