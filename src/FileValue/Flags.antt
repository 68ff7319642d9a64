-- ===== src/FileValue/Flags.antt =====
-- The upload flags: what `setuploadId` marks and `lsFileFinish` waits for.
use mini_distributed_storage.Base.{
  ℕ, zero, suc, ◌^◌, ◌<◌, ◌≡◌, refl, ◌≢◌, ◌↔◌, Bool, true, false, some, List, [], ◌∷◌, Bytes,
  length, take, get_elem?, set, set_at_below, length-set, take_all, length-replicate,
  get_elem?-set_self, get_elem?-set_ne, size_of_int, int_rounds, arith,
}
use mini_distributed_storage.FileValue.{
  FileValue, file_value, set_upload_id, all_set, ls_file_finish,
}

-- The vectors keep the size that the constructor gave them.
pub record IsValid (f : FileValue) : Type 0 where
  pub md5s : length f.block_file_md5 ≡ f.block_num
  pub uploads : length f.upload_id ≡ f.block_num
  pub downloads : length f.download_id ≡ f.block_num
  pub blocks : length f.block_file ≡ f.block_num

pub file_value-IsValid : (n : ℕ) (md5 : Bytes) → IsValid (file_value n md5)
unfolding file_value
file_value-IsValid n md5 = record {
  md5s = length-replicate n [];
  uploads = length-replicate n false;
  downloads = length-replicate n false;
  blocks = length-replicate n [];
}

-- The flag of block `i` is set.
abbrev pub IsUploaded : FileValue → ℕ → Type 0
IsUploaded f i = get_elem? f.upload_id i ≡ some true

pub all_set_sound :
    (flags : List Bool)
    → all_set flags ≡ true
    → (i : ℕ) → i < length flags
    → get_elem? flags i ≡ some true
unfolding all_set
all_set_sound [] h i k = elim k [ ]
all_set_sound (true ∷ flags) h zero k = refl
all_set_sound (true ∷ flags) h (suc i) k = all_set_sound flags h i (omega arith)
all_set_sound (false ∷ flags) h i k = cc

pub all_set_complete :
    (flags : List Bool)
    → ((i : ℕ) → i < length flags → get_elem? flags i ≡ some true)
    → all_set flags ≡ true
unfolding all_set
all_set_complete [] h = refl
all_set_complete (true ∷ flags) h = all_set_complete flags (λ i k. h (suc i) (omega arith))
all_set_complete (false ∷ flags) h = cc (h zero (omega arith))

pub int_rounds_lem : (n : ℕ) → n < 2 ^ 31 → int_rounds n ≡ n
int_rounds_lem n h = ground arith

-- For a valid file of fewer than 2^31 blocks `lsFileFinish` returns true exactly when every block is
-- uploaded.
pub ls_file_finish_iff :
    (f : FileValue)
    → IsValid f
    → f.block_num < 2 ^ 31
    → (ls_file_finish f ≡ true) ↔ ((i : ℕ) → i < f.block_num → IsUploaded f i)
unfolding ls_file_finish
ls_file_finish_iff f v h =
    let e : take (int_rounds f.block_num) f.upload_id ≡ f.upload_id =
      ground
        (arith, int_rounds_lem f.block_num, take_all (int_rounds f.block_num) f.upload_id, v) in
    (
      λ done i k. all_set_sound f.upload_id (rw e at done) i (omega (arith, v.uploads)),
      λ all. rw e (all_set_complete f.upload_id λ i k. all i (omega (arith, v.uploads))),
    )

pub size_of_int_lem : (i : ℕ) → i < 2 ^ 31 → size_of_int i ≡ i
size_of_int_lem i h = ground arith

-- What `setuploadId` has done: block `id` is marked, the marks of the others are as they were, and
-- the vectors keep their sizes.
pub record Marked (f g : FileValue) (id : ℕ) : Type 0 where
  pub valid : IsValid g
  pub same_num : g.block_num ≡ f.block_num
  pub same_md5s : g.block_file_md5 ≡ f.block_file_md5
  pub marked : IsUploaded g id
  pub others : (j : ℕ) → id ≢ j → get_elem? g.upload_id j ≡ get_elem? f.upload_id j

-- `setuploadId` with the id of a block of a valid file, below 2^31, succeeds: it marks that block
-- and no other, and keeps the file valid, its number of blocks and its digests.
pub set_upload_id-Marked :
    (f : FileValue) (id : ℕ)
    → IsValid f
    → id < f.block_num
    → id < 2 ^ 31
    → (g : FileValue) × (set_upload_id f id ≡ some g) × Marked f g id
unfolding set_upload_id
set_upload_id-Marked f id v h k = (
  record f { upload_id = set f.upload_id id true },
  rw (size_of_int_lem id k, set_at_below f.upload_id id true (omega (arith, v.uploads))),
  record {
    valid = record {
      md5s = v.md5s;
      uploads = omega (arith, length-set f.upload_id id true, v.uploads);
      downloads = v.downloads;
      blocks = v.blocks;
    };
    same_num = refl;
    same_md5s = refl;
    marked = get_elem?-set_self f.upload_id id true (omega (arith, v.uploads));
    others = λ j ne. get_elem?-set_ne f.upload_id id j true ne;
  },
)
