-- ===== src/Client/Tests.antt =====
-- The witnesses of Client.
use mini_distributed_storage.Base.{
  ◌+◌, ◌/◌, ◌≡◌, refl, false, true, some, [], ◌∷◌, codes, length, arith,
}
use mini_distributed_storage.FileValue.{id_string, get_upload_id}
use mini_distributed_storage.Decimal.{to_string, digits}
use mini_distributed_storage.Client.{File, page_size, file, update_upload_id}
use mini_distributed_storage.Client.Ids.{update_upload_id-get_upload_id}
use mini_distributed_storage.Client.Tiles.{joined, file-joined}
use mini_distributed_storage.Fixtures.{notes, notes-IsValid}

-- The client's file, before it knows what is uploaded.
abbrev local : File
local = record {
  content = codes "some bytes";
  block_num = 2;
  block_file_list = [];
  upload_id = false ∷ false ∷ [];
}

short : length (get_upload_id notes) ≡ 2
unfolding get_upload_id id_string to_string digits
short = refl

update_upload_id-get_upload_id_example :
    update_upload_id local (get_upload_id notes)
    ≡ some (record local { upload_id = true ∷ false ∷ [] })
update_upload_id-get_upload_id_example =
    update_upload_id-get_upload_id notes local notes-IsValid (omega arith) (omega (arith, short))
      refl

file-joined_example :
    (f : File) × (file (codes "some bytes") ≡ some f)
    × (joined f.content f.block_file_list ≡ codes "some bytes")
    × (f.block_num ≡ 10 / page_size + 1)
    × (length f.block_file_list ≡ f.block_num)
file-joined_example = file-joined (codes "some bytes") (λ e. omega (arith, e)) (omega arith)
