-- ===== src/FileValue/Tests.antt =====
-- The witnesses of FileValue.
use mini_distributed_storage.Base.{ℕ, ◌<◌, ◌≡◌, ◌↔◌, refl, true, some, Bytes, codes, arith}
use mini_distributed_storage.FileValue.{
  FileValue, ls_file_finish, set_block_file_md5, get_block_file_md5,
}
use mini_distributed_storage.FileValue.Flags.{IsValid, IsUploaded, ls_file_finish_iff}
use mini_distributed_storage.FileValue.Blocks.{nth_md5, set_block_file_md5_lem}
use mini_distributed_storage.Fixtures.{notes, notes-IsValid}

ls_file_finish_iff_example : (ls_file_finish notes ≡ true) ↔ ((i : ℕ) → i < 2 → IsUploaded notes i)
ls_file_finish_iff_example = ls_file_finish_iff notes notes-IsValid (omega arith)

abbrev digests : Bytes
digests = codes "AAAABBBBCCCCDDDDAAAABBBBCCCCDDDD0123456789ABCDEF0123456789ABCDEF"

set_block_file_md5_lem_example :
    (g : FileValue) × (set_block_file_md5 notes digests ≡ some g)
    × IsValid g
    × (g ≡ record notes { block_file_md5 = g.block_file_md5 })
    × ((i : ℕ) → i < 2 → get_block_file_md5 g i ≡ some (nth_md5 digests i))
set_block_file_md5_lem_example =
    set_block_file_md5_lem notes digests notes-IsValid (omega arith) refl
