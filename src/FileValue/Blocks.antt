-- ===== src/FileValue/Blocks.antt =====
-- The list of block digests: what `setBlockFileMD5` stores is what `getBlockFileMD5` and
-- `getidFromMD5` read.
use mini_distributed_storage.Base.{
  ℕ, zero, suc, ◌+◌, ◌*◌, ◌^◌, ◌≤◌, ◌<◌, ◌≡◌, refl, ◌∙◌, ◌≢◌, Option, none, some, List, [], ◌∷◌,
  Bytes, length, take, drop, get_elem?, set, set_at_below, length-set, get_elem?-set_self,
  get_elem?-set_ne, bytes_eq, bytes_eq_iff, Bool-cases, inl, inr, arith, take_all, dec_lt,
}
use mini_distributed_storage.FileValue.{
  FileValue, block_md5_at, set_md5s, set_block_file_md5, get_block_file_md5, find_md5,
  get_id_from_md5,
}
use mini_distributed_storage.FileValue.Flags.{IsValid, int_rounds_lem, size_of_int_lem}

-- The digest of block `i` in the joined string.
abbrev pub nth_md5 : Bytes → ℕ → Bytes
nth_md5 md5 i = take 32 (drop (i * 32) md5)

block_md5_at_lem :
    (md5 : Bytes) (i : ℕ)
    → i < 2 ^ 26
    → i * 32 ≤ length md5
    → block_md5_at md5 i ≡ some (nth_md5 md5 i)
block_md5_at_lem md5 i h k = ground arith

-- What `k` rounds from `i` on have stored.
record Stored (k i : ℕ) (md5 : Bytes) (xs ys : List Bytes) : Type 0 where
  same_length : length ys ≡ length xs
  before : (j : ℕ) → j < i → get_elem? ys j ≡ get_elem? xs j
  stored : (j : ℕ) → i ≤ j → j < i + k → get_elem? ys j ≡ some (nth_md5 md5 j)

-- One round inside the limits.
set_md5s_step :
    (k i : ℕ) (md5 : Bytes) (xs : List Bytes)
    → i < length xs
    → i < 2 ^ 26
    → i * 32 ≤ length md5
    → set_md5s (suc k) i md5 xs ≡ set_md5s k (suc i) md5 (set xs i (nth_md5 md5 i))
unfolding set_md5s
set_md5s_step k i md5 xs h m l =
    ground (arith, block_md5_at_lem md5 i m l, set_at_below xs i (nth_md5 md5 i) h)

last_stored :
    (i j : ℕ) (md5 : Bytes) (xs ys : List Bytes)
    → get_elem? xs i ≡ some (nth_md5 md5 i)
    → get_elem? ys i ≡ get_elem? xs i
    → (i < j → get_elem? ys j ≡ some (nth_md5 md5 j))
    → i ≤ j
    → get_elem? ys j ≡ some (nth_md5 md5 j)
last_stored i j md5 xs ys e f g h = elim (dec_lt i j) [
  | yes p ↦ g p
  | no p ↦ let same : i ≡ j = omega arith in rw (← same) (f ∙ e)
]

set_md5s-Stored :
    (k i : ℕ) (md5 : Bytes) (xs : List Bytes)
    → i + k ≤ length xs
    → i + k ≤ 2 ^ 26
    → (i + k) * 32 ≤ length md5
    → (ys : List Bytes) × (set_md5s k i md5 xs ≡ some ys) × Stored k i md5 xs ys
unfolding set_md5s
set_md5s-Stored zero i md5 xs h m l = (
  xs,
  refl,
  record { same_length = refl; before = λ j p. refl; stored = λ j p q. absurd (omega arith) },
)
set_md5s-Stored (suc k) i md5 xs h m l =
    let x = nth_md5 md5 i in
    let (ys, e, s) =
      set_md5s-Stored k (suc i) md5 (set xs i x) (omega (arith, length-set xs i x)) (omega arith)
        (omega arith) in
    (
      ys,
      set_md5s_step k i md5 xs (omega arith) (omega arith) (omega arith) ∙ e,
      record {
        same_length = s.same_length ∙ length-set xs i x;
        before = λ j p. s.before j (omega arith) ∙ get_elem?-set_ne xs i j x (omega arith);
        stored = λ j p q.
            last_stored i j md5 (set xs i x) ys (get_elem?-set_self xs i x (omega arith))
              (s.before i (omega arith)) (λ lt. s.stored j (omega arith) (omega arith)) p;
      },
    )

-- For a valid file of at most 2^26 blocks, and 32 digest characters for each block,
-- `setBlockFileMD5` stores the digest of every block, and `getBlockFileMD5` returns it. The file
-- stays valid and is otherwise unchanged.
pub set_block_file_md5_lem :
    (f : FileValue) (md5 : Bytes)
    → IsValid f
    → f.block_num ≤ 2 ^ 26
    → length md5 ≡ 32 * f.block_num
    → (g : FileValue) × (set_block_file_md5 f md5 ≡ some g)
      × IsValid g
      × (g ≡ record f { block_file_md5 = g.block_file_md5 })
      × ((i : ℕ) → i < f.block_num → get_block_file_md5 g i ≡ some (nth_md5 md5 i))
unfolding set_block_file_md5 get_block_file_md5
set_block_file_md5_lem f md5 v h l =
    let (ys, e, s) =
      set_md5s-Stored f.block_num 0 md5 f.block_file_md5 (omega (arith, v.md5s)) (omega arith)
        (omega arith) in
    (
      record f { block_file_md5 = ys },
      rw (int_rounds_lem f.block_num (omega arith), e),
      record {
        md5s = s.same_length ∙ v.md5s;
        uploads = v.uploads;
        downloads = v.downloads;
        blocks = v.blocks;
      },
      refl,
      λ i k. rw (size_of_int_lem i (omega arith)) (s.stored i (omega arith) (omega arith)),
    )

-- What a search from index `k` on returns: the first index of the digest, or `none` if it has none.
abbrev Found : ℕ → List Bytes → Bytes → Option ℕ → Type 0
Found k xs md5 none = (j : ℕ) → get_elem? xs j ≢ some md5
Found k xs md5 (some i) =
    (j : ℕ) × (i ≡ k + j)
    × (get_elem? xs j ≡ some md5)
    × ((l : ℕ) → l < j → get_elem? xs l ≢ some md5)

absent-cons :
    (x : Bytes) (xs : List Bytes) (md5 : Bytes) (n : ℕ)
    → x ≢ md5
    → ((l : ℕ) → l < n → get_elem? xs l ≢ some md5)
    → (l : ℕ) → l < suc n
    → get_elem? (x ∷ xs) l ≢ some md5
absent-cons x xs md5 n ne h zero k = λ e. ne (cc)
absent-cons x xs md5 n ne h (suc l) k = h l (omega arith)

Found-cons :
    (k : ℕ) (x : Bytes) (xs : List Bytes) (md5 : Bytes) (r : Option ℕ)
    → x ≢ md5
    → Found (suc k) xs md5 r
    → Found k (x ∷ xs) md5 r
Found-cons k x xs md5 none ne f = λ j. absent-cons x xs md5 (suc j) ne (λ l h. f l) j (omega arith)
Found-cons k x xs md5 (some i) ne (j, e, at, first) =
    (suc j, omega arith, at, absent-cons x xs md5 j ne first)

find_md5-Found : (k : ℕ) (xs : List Bytes) (md5 : Bytes) → Found k xs md5 (find_md5 k xs md5)
unfolding find_md5
find_md5-Found k [] md5 = λ j e. cc
find_md5-Found k (x ∷ xs) md5 = elim (Bool-cases (bytes_eq x md5)) [
  | inl same ↦ rw same (zero, omega arith, ground (arith, bytes_eq_iff x md5), λ l h. elim h [ ])
  | inr other ↦ rw other (
      Found-cons k x xs md5 (find_md5 (suc k) xs md5) (λ e. cc ((bytes_eq_iff x md5).1 e))
        (find_md5-Found (suc k) xs md5))
]

-- For a valid file: an index that `getidFromMD5` returns is the first block with the digest, and
-- where it returns -1 no block has it.
pub get_id_from_md5_lem :
    (f : FileValue) (md5 : Bytes)
    → IsValid f
    → ((i : ℕ)
        → get_id_from_md5 f md5 ≡ some i
        → (get_elem? f.block_file_md5 i ≡ some md5)
          × ((l : ℕ) → l < i → get_elem? f.block_file_md5 l ≢ some md5))
      × (get_id_from_md5 f md5 ≡ none → (j : ℕ) → get_elem? f.block_file_md5 j ≢ some md5)
unfolding get_id_from_md5
get_id_from_md5_lem f md5 v =
    let e : take f.block_num f.block_file_md5 ≡ f.block_file_md5 =
      take_all f.block_num f.block_file_md5 (omega (arith, v.md5s)) in
    let found = find_md5-Found 0 f.block_file_md5 md5 in
    (
      λ i h.
          let (j, at, here, first) = rw (rw e at h) at found in
          let same : j ≡ i = omega arith in rw (← same) (here, first),
      λ h. rw (rw e at h) at found,
    )
