-- ===== src/FileValue.antt =====
-- `Md::FileValue` of ReactorService/inc/Fileproxy.h: what the coordinator knows of one file. (The
-- header has the last two members commented out, while its constructor and methods use them.)
-- `none` is an access outside a vector or a string, which C++ leaves undefined or throws on.
pub mod Flags
pub mod Blocks
mod Tests
use mini_distributed_storage.Base.{
  ℕ, zero, suc, ◌+◌, ◌*◌, ◌^◌, Bool, true, false, Option, none, some, List, [], ◌∷◌, ◌++◌, ◌>>=◌,
  Bytes, length, take, drop, replicate, get_elem?, set_at, bytes_eq, leb, ltb, ◌&&◌, if◌then◌else◌,
  size_of_int, int_rounds,
}
use mini_distributed_storage.Decimal.{to_string}

pub record FileValue : Type 0 where
  pub block_num : ℕ
  pub file_md5 : Bytes
  pub block_file_md5 : List Bytes
  pub upload_id : List Bool
  pub download_id : List Bool
  pub block_file : List Bytes

-- The constructor.
unfoldable pub file_value : ℕ → Bytes → FileValue
file_value block_num md5 = record {
  block_num = block_num;
  file_md5 = md5;
  block_file_md5 = replicate block_num [];
  upload_id = replicate block_num false;
  download_id = replicate block_num false;
  block_file = replicate block_num [];
}

unfoldable pub set_file_md5 : FileValue → Bytes → FileValue
set_file_md5 f md5 = record f { file_md5 = md5 }

-- `md5.substr(i*32, 32)`: `i*32` is an `int`, and a start behind the end throws.
abbrev pub block_md5_at : Bytes → ℕ → Option Bytes
block_md5_at md5 i =
    if ltb (i * 32) (2 ^ 31) && leb (i * 32) (length md5)
    then some (take 32 (drop (i * 32) md5))
    else none

-- The loop of `setBlockFileMD5`, with `k` rounds left.
pub set_md5s : ℕ → ℕ → Bytes → List Bytes → Option (List Bytes)
set_md5s zero i md5 xs = some xs
set_md5s (suc k) i md5 xs = elim (block_md5_at md5 i) [
  | none ↦ none
  | some x ↦ elim (set_at xs i x) [ none ↦ none | some ys ↦ set_md5s k (suc i) md5 ys ]
]

unfoldable pub set_block_file_md5 : FileValue → Bytes → Option FileValue
set_block_file_md5 f md5 = do
  xs ← set_md5s (int_rounds f.block_num) 0 md5 f.block_file_md5
  some (record f { block_file_md5 = xs })

unfoldable pub set_upload_id : FileValue → ℕ → Option FileValue
set_upload_id f id = do
  xs ← set_at f.upload_id (size_of_int id) true
  some (record f { upload_id = xs })

unfoldable pub set_download_id : FileValue → ℕ → Option FileValue
set_download_id f id = do
  xs ← set_at f.download_id (size_of_int id) true
  some (record f { download_id = xs })

-- The ids of the flags that are set, from `i` on, each with a ':' behind it.
unfoldable pub id_string : ℕ → List Bool → Bytes
id_string i [] = []
id_string i (flag ∷ flags) =
    let rest = id_string (suc i) flags in if flag then to_string i ++ b':' ∷ rest else rest

-- The vector has `block_num` entries, so the loop over `(int) blockNum_` rounds reads a prefix.
unfoldable pub get_upload_id : FileValue → Bytes
get_upload_id f = id_string 0 (take (int_rounds f.block_num) f.upload_id)

unfoldable pub get_block_file_md5 : FileValue → ℕ → Option Bytes
get_block_file_md5 f id = get_elem? f.block_file_md5 (size_of_int id)

unfoldable pub get_file_md5 : FileValue → Bytes
get_file_md5 f = f.file_md5

unfoldable pub get_file_num : FileValue → ℕ
get_file_num f = f.block_num

unfoldable pub all_set : List Bool → Bool
all_set [] = true
all_set (false ∷ flags) = false
all_set (true ∷ flags) = all_set flags

unfoldable pub ls_file_finish : FileValue → Bool
ls_file_finish f = all_set (take (int_rounds f.block_num) f.upload_id)

unfoldable pub save_download_block : FileValue → ℕ → Bytes → Option FileValue
save_download_block f id content = do
  xs ← set_at f.block_file (size_of_int id) content
  set_download_id (record f { block_file = xs }) id

-- The first index from `i` on at which the list holds `md5`.
pub find_md5 : ℕ → List Bytes → Bytes → Option ℕ
find_md5 i [] md5 = none
find_md5 i (x ∷ xs) md5 =
    let later = find_md5 (suc i) xs md5 in if bytes_eq x md5 then some i else later

-- `getidFromMD5`; `none` is its -1.
unfoldable pub get_id_from_md5 : FileValue → Bytes → Option ℕ
get_id_from_md5 f md5 = find_md5 0 (take f.block_num f.block_file_md5) md5

unfoldable pub get_block_file_size : FileValue → ℕ
get_block_file_size f = length f.block_file

unfoldable pub get_block_file : FileValue → ℕ → Option Bytes
get_block_file f id = get_elem? f.block_file (size_of_int id)
