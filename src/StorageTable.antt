-- ===== src/StorageTable.antt =====
-- `Md::FileValue` and `Md::Fileproxy` of storageServer/saveFile_0/inc/Fileproxy.h: the storage
-- servers' table of files. It differs from the coordinator's: the files are found by their digest,
-- which a `FileValue` does not hold, and `getuploadId` names the blocks that are missing. `none` is an
-- access outside a vector or a string, or a read through the null pointer of a missing file.
pub mod Missing
mod Tests
use mini_distributed_storage.Base.{
  ℕ, zero, suc, Bool, true, false, Option, none, some, List, [], ◌∷◌, ◌++◌, ◌>>=◌, Bytes, take,
  replicate, get_elem?, set_at, if◌then◌else◌, size_of_int, int_rounds,
}
use mini_distributed_storage.Decimal.{to_string}
use mini_distributed_storage.FileValue.{all_set, set_md5s}
use mini_distributed_storage.Fileproxy.{find, insert}

pub record StoredFile : Type 0 where
  pub block_num : ℕ
  pub block_file_md5 : List Bytes
  pub upload_id : List Bool
  pub download_id : List Bool

-- The constructor.
unfoldable pub stored_file : ℕ → StoredFile
stored_file block_num = record {
  block_num = block_num;
  block_file_md5 = replicate block_num [];
  upload_id = replicate block_num false;
  download_id = replicate block_num false;
}

-- The loop of `setBlockFileMD5` is that of the coordinator.
unfoldable pub set_block_file_md5 : StoredFile → Bytes → Option StoredFile
set_block_file_md5 f md5 = do
  xs ← set_md5s (int_rounds f.block_num) 0 md5 f.block_file_md5
  some (record f { block_file_md5 = xs })

unfoldable pub set_upload_id : StoredFile → ℕ → Option StoredFile
set_upload_id f id = do
  xs ← set_at f.upload_id (size_of_int id) true
  some (record f { upload_id = xs })

unfoldable pub set_download_id : StoredFile → ℕ → Option StoredFile
set_download_id f id = do
  xs ← set_at f.download_id (size_of_int id) true
  some (record f { download_id = xs })

-- The ids of the flags that are not set, from `i` on, each with a ':' behind it.
unfoldable pub missing_ids : ℕ → List Bool → Bytes
missing_ids i [] = []
missing_ids i (flag ∷ flags) =
    let rest = missing_ids (suc i) flags in if flag then rest else to_string i ++ b':' ∷ rest

unfoldable pub get_upload_id : StoredFile → Bytes
get_upload_id f = missing_ids 0 (take (int_rounds f.block_num) f.upload_id)

unfoldable pub get_block_file_md5 : StoredFile → ℕ → Option Bytes
get_block_file_md5 f id = get_elem? f.block_file_md5 (size_of_int id)

unfoldable pub get_file_num : StoredFile → ℕ
get_file_num f = f.block_num

unfoldable pub ls_file_finish : StoredFile → Bool
ls_file_finish f = all_set (take (int_rounds f.block_num) f.upload_id)

-- `FileMap_`; the functions of `Fileproxy` have the prefix `table_`.
abbrev pub Table : Type 0
Table = List (Bytes × StoredFile)

abbrev pub with_stored : Table → Bytes → (StoredFile → Option StoredFile) → Option Table
with_stored m md5 method = do f ← find m md5; g ← method f; some (insert m md5 g)

unfoldable pub table_add_file : Table → ℕ → Bytes → Table
table_add_file m block_num md5 = insert m md5 (stored_file block_num)

unfoldable pub table_get_file_id_string : Table → Bytes → Option Bytes
table_get_file_id_string m md5 = do f ← find m md5; some (get_upload_id f)

-- `setFileMD5`: it sets the digests of the blocks.
unfoldable pub table_set_file_md5 : Table → Bytes → Bytes → Option Table
table_set_file_md5 m md5 md5_string = with_stored m md5 λ f. set_block_file_md5 f md5_string

unfoldable pub table_set_file_upload_id : Table → Bytes → ℕ → Option Table
table_set_file_upload_id m md5 id = with_stored m md5 λ f. set_upload_id f id

unfoldable pub table_get_block_file_md5 : Table → ℕ → Bytes → Option Bytes
table_get_block_file_md5 m id md5 = do f ← find m md5; get_block_file_md5 f id

unfoldable pub table_ls_file : Table → Bytes → Bool
table_ls_file m md5 = elim (find m md5) [ none ↦ false | some f ↦ true ]

unfoldable pub table_ls_file_finish : Table → Bytes → Option Bool
table_ls_file_finish m md5 = do f ← find m md5; some (ls_file_finish f)

unfoldable pub table_get_file_num : Table → Bytes → Option ℕ
table_get_file_num m md5 = do f ← find m md5; some (get_file_num f)
