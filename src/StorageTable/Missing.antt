-- ===== src/StorageTable/Missing.antt =====
-- The missing blocks that the storage servers' `getuploadId` names.
use mini_distributed_storage.Base.{
  ℕ, suc, ◌^◌, ◌<◌, ◌≡◌, refl, ◌∙◌, Bool, true, false, some, List, [], ◌∷◌, length, take, take_all,
  replicate, int_rounds, arith,
}
use mini_distributed_storage.FileValue.{id_string}
use mini_distributed_storage.FileValue.Flags.{int_rounds_lem}
use mini_distributed_storage.Client.{update_ids}
use mini_distributed_storage.Client.Ids.{mark_ids-id_string, update_ids-mark_ids}
use mini_distributed_storage.StorageTable.{StoredFile, missing_ids, get_upload_id}

unfoldable pub opposite : Bool → Bool
opposite true = false
opposite false = true

unfoldable pub opposites : List Bool → List Bool
opposites [] = []
opposites (b ∷ bs) = opposite b ∷ opposites bs

missing_ids-id_string :
    (i : ℕ) (flags : List Bool) → missing_ids i flags ≡ id_string i (opposites flags)
unfolding missing_ids id_string opposites opposite
missing_ids-id_string i [] = refl
missing_ids-id_string i (true ∷ flags) = missing_ids-id_string (suc i) flags
missing_ids-id_string i (false ∷ flags) = rw (missing_ids-id_string (suc i) flags)

length-opposites : (flags : List Bool) → length (opposites flags) ≡ length flags
unfolding opposites
length-opposites [] = refl
length-opposites (b ∷ flags) = rw (length-opposites flags)

-- For a file of fewer than 2^31 blocks with a flag for each, whose text of ids has fewer than 2^31
-- characters: a client's `updateuploadId`, with no flag
-- set, makes of a storage server's text of ids exactly the opposite flags: the text names just the
-- blocks that the server does not have.
pub get_upload_id-missing :
    (f : StoredFile)
    → length f.upload_id ≡ f.block_num
    → f.block_num < 2 ^ 31
    → length (get_upload_id f) < 2 ^ 31
    → update_ids (get_upload_id f) (replicate f.block_num false) ≡ some (opposites f.upload_id)
unfolding get_upload_id
get_upload_id-missing f uploads h fits =
    let all : take (int_rounds f.block_num) f.upload_id ≡ f.upload_id =
      rw (int_rounds_lem f.block_num h)
        (take_all f.block_num f.upload_id (omega (arith, uploads))) in
    let ids =
      rw (length-opposites f.upload_id, uploads) at
        (mark_ids-id_string (opposites f.upload_id) []
          (omega (arith, length-opposites f.upload_id, uploads, h))) in
    let text = rw (all, missing_ids-id_string 0 f.upload_id) at fits in
    rw (all, missing_ids-id_string 0 f.upload_id)
      (update_ids-mark_ids (id_string 0 (opposites f.upload_id)) _ text ∙ ids)
