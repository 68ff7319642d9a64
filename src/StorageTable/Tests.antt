-- ===== src/StorageTable/Tests.antt =====
-- A storage server's table with one file.
use mini_distributed_storage.Base.{true, false, some, [], ◌∷◌, replicate, length, ◌≡◌, refl, arith}
use mini_distributed_storage.Decimal.{to_string, digits}
use mini_distributed_storage.Client.{update_ids}
use mini_distributed_storage.StorageTable.{StoredFile, missing_ids, get_upload_id}
use mini_distributed_storage.StorageTable.Missing.{opposites, get_upload_id-missing}

abbrev half_there : StoredFile
half_there = record {
  block_num = 3;
  block_file_md5 = [] ∷ [] ∷ [] ∷ [];
  upload_id = true ∷ false ∷ false ∷ [];
  download_id = false ∷ false ∷ false ∷ [];
}

short : length (get_upload_id half_there) ≡ 4
unfolding get_upload_id missing_ids to_string digits
short = refl

get_upload_id-missing_example :
    update_ids (get_upload_id half_there) (replicate 3 false)
    ≡ some (opposites (true ∷ false ∷ false ∷ []))
get_upload_id-missing_example =
    get_upload_id-missing half_there refl (omega arith) (omega (arith, short))
