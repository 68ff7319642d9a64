-- ===== src/Fileproxy.antt =====
-- `Md::Fileproxy` of ReactorService/inc/Fileproxy.h: the files by name, a `std::map` from names to
-- pointers. `FileMap_[name]->` on a name that is not there makes a null pointer and reads through
-- it: `none`.
pub mod Lookup
use mini_distributed_storage.Base.{
  ℕ, Bool, true, false, Option, none, some, List, [], ◌∷◌, ◌>>=◌, Bytes, bytes_eq, if◌then◌else◌,
}
use mini_distributed_storage.FileValue
use mini_distributed_storage.FileValue.{FileValue, file_value}

abbrev pub Fileproxy : Type 0
Fileproxy = List (Bytes × FileValue)

unfoldable pub find {ℓ} : {V : Type ℓ} → List (Bytes × V) → Bytes → Option V
find [] k = none
find ((j, v) ∷ m) k = if bytes_eq j k then some v else find m k

unfoldable pub insert {ℓ} : {V : Type ℓ} → List (Bytes × V) → Bytes → V → List (Bytes × V)
insert [] k v = (k, v) ∷ []
insert ((j, w) ∷ m) k v = if bytes_eq j k then (k, v) ∷ m else (j, w) ∷ insert m k v

-- A new object takes the place of one under the same name.
unfoldable pub add_file : Fileproxy → Bytes → ℕ → Bytes → Fileproxy
add_file m file_name block_num file_md5 = insert m file_name (file_value block_num file_md5)

-- `FileMap_[FileName]->method(…)` for a method that changes the object.
abbrev pub with_file : Fileproxy → Bytes → (FileValue → Option FileValue) → Option Fileproxy
with_file m file_name method = do f ← find m file_name; g ← method f; some (insert m file_name g)

unfoldable pub get_file_id_string : Fileproxy → Bytes → Option Bytes
get_file_id_string m file_name = do f ← find m file_name; some (FileValue.get_upload_id f)

unfoldable pub set_file_md5 : Fileproxy → Bytes → Bytes → Option Fileproxy
set_file_md5 m file_name md5 = with_file m file_name λ f. some (FileValue.set_file_md5 f md5)

unfoldable pub set_block_file_md5 : Fileproxy → Bytes → Bytes → Option Fileproxy
set_block_file_md5 m file_name md5_string =
    with_file m file_name λ f. FileValue.set_block_file_md5 f md5_string

unfoldable pub set_file_upload_id : Fileproxy → Bytes → ℕ → Option Fileproxy
set_file_upload_id m file_name id = with_file m file_name λ f. FileValue.set_upload_id f id

unfoldable pub get_block_file_md5 : Fileproxy → ℕ → Bytes → Option Bytes
get_block_file_md5 m id file_name = do f ← find m file_name; FileValue.get_block_file_md5 f id

unfoldable pub get_file_md5 : Fileproxy → Bytes → Option Bytes
get_file_md5 m file_name = do f ← find m file_name; some (FileValue.get_file_md5 f)

unfoldable pub ls_file : Fileproxy → Bytes → Bool
ls_file m file_name = elim (find m file_name) [ none ↦ false | some f ↦ true ]

unfoldable pub ls_file_finish : Fileproxy → Bytes → Option Bool
ls_file_finish m file_name = do f ← find m file_name; some (FileValue.ls_file_finish f)

unfoldable pub get_file_num : Fileproxy → Bytes → Option ℕ
get_file_num m file_name = do f ← find m file_name; some (FileValue.get_file_num f)

unfoldable pub save_download_block : Fileproxy → Bytes → ℕ → Bytes → Option Fileproxy
save_download_block m file_name id content =
    with_file m file_name λ f. FileValue.save_download_block f id content

unfoldable pub get_id_from_md5 : Fileproxy → Bytes → Bytes → Option (Option ℕ)
get_id_from_md5 m file_name md5 = do f ← find m file_name; some (FileValue.get_id_from_md5 f md5)

unfoldable pub get_block_file_size : Fileproxy → Bytes → Option ℕ
get_block_file_size m file_name = do f ← find m file_name; some (FileValue.get_block_file_size f)

unfoldable pub get_block_file : Fileproxy → Bytes → ℕ → Option Bytes
get_block_file m file_name id = do f ← find m file_name; FileValue.get_block_file f id
