-- ===== src/Conversation/Tests.antt =====
-- An upload of a file of two blocks, of which the coordinator has the first.
use mini_distributed_storage.Base.{
  ℕ, zero, suc, ◌<◌, ◌≡◌, refl, true, false, some, bytes_eq_refl, List, [], ◌∷◌, ◌++◌, Bytes, codes,
  length, length-append, length-replicate, replicate, arith,
}
use mini_distributed_storage.Base.Slices.{length-slice}
use mini_distributed_storage.Wire.{htonl, length-htonl}
use mini_distributed_storage.Md5.{get_string_md5}
use mini_distributed_storage.FileValue
use mini_distributed_storage.FileValue.{FileValue}
use mini_distributed_storage.FileValue.Flags.{IsValid}
use mini_distributed_storage.FileValue.Blocks.{nth_md5}
use mini_distributed_storage.Fileproxy.{find}
use mini_distributed_storage.Client.{
  File, BlockFile, page_size, block_count, file, init_file, mapped, send_file_block,
  send_block_file, send_file_block_md5info,
}
use mini_distributed_storage.Client.Messages.{stream}
use mini_distributed_storage.Client.Numbered.{nth_md5_first, nth_md5_later}
use mini_distributed_storage.Client.Tiles.{file_of, file-file_of}
use mini_distributed_storage.Upload.{Server}
use mini_distributed_storage.Upload.Block.{Known}
use mini_distributed_storage.Conversation.Resume.{Resumed, upload_resumes}
use mini_distributed_storage.Fixtures.{length_digest, server, received, received-Holds}

unfoldable filled : ℕ → Bytes
filled n = replicate n b'a'

length-filled : (n : ℕ) → length (filled n) ≡ n
unfolding filled
length-filled n = length-replicate n b'a'

-- A file of 2^20 + 10 bytes.
abbrev large : Bytes
large = filled 1048586

length-large : length large ≡ 1048586
length-large = length-filled 1048586

abbrev first_block : BlockFile
first_block = record { block_size = page_size; id = 0; offset = 0 }

abbrev second_block : BlockFile
second_block = record { block_size = 10; id = 1; offset = page_size }

abbrev two_blocks : List BlockFile
two_blocks = first_block ∷ second_block ∷ []

large-count : block_count (length large) ≡ 2
unfolding block_count
large-count = rw length-large refl

large-blocks : init_file (length large) 2 2 0 ≡ some two_blocks
unfolding init_file
large-blocks = rw length-large refl

abbrev local : File
local = file_of large 2 two_blocks

large-file : file large ≡ some local
large-file = file-file_of large 2 two_blocks large-count large-blocks

-- The coordinator's file.
abbrev half : FileValue
half = record {
  block_num = 2;
  file_md5 = get_string_md5 length_digest large;
  block_file_md5 =
      get_string_md5 length_digest (mapped large first_block)
      ∷ get_string_md5 length_digest (mapped large second_block)
      ∷ [];
  upload_id = true ∷ false ∷ [];
  download_id = false ∷ false ∷ [];
  block_file = [] ∷ [] ∷ [];
}

half-IsValid : IsValid half
half-IsValid = record { md5s = refl; uploads = refl; downloads = refl; blocks = refl }

half-unfinished : FileValue.ls_file_finish half ≡ false
unfolding FileValue.ls_file_finish FileValue.all_set
half-unfinished = refl

abbrev halfway : Server
halfway = record server { g_file = (server.g_file_name, half) ∷ [] }

halfway-Known : Known halfway half
unfolding find
halfway-Known = record {
  found = rw (bytes_eq_refl server.g_file_name) refl;
  valid = half-IsValid;
  small = omega arith;
}

half-digests :
    (j : ℕ)
    → j < 2
    → FileValue.get_block_file_md5 half j
      ≡ some (nth_md5 (stream (send_file_block_md5info length_digest large two_blocks)) j)
unfolding FileValue.get_block_file_md5 send_file_block_md5info stream
half-digests zero h = rw (nth_md5_first length_digest (mapped large first_block) _) refl
half-digests (suc zero) h =
    rw
      (
        nth_md5_later length_digest (mapped large first_block) _ 0,
        nth_md5_first length_digest (mapped large second_block) [],
      )
      refl
half-digests (suc (suc j)) h = absurd (omega (arith, h))

abbrev missing : Bytes
missing = stream (send_file_block large two_blocks half.upload_id)

length-missing : length missing ≡ 18
unfolding stream send_file_block send_block_file
length-missing = omega (
  arith,
  length-append (htonl 10) (htonl 1 ++ (mapped large second_block ++ [])),
  length-append (htonl 1) (mapped large second_block ++ []),
  length-append (mapped large second_block) [],
  length-slice page_size 10 large,
  length-large,
  length-htonl 10,
  length-htonl 1,
)

upload_resumes_example :
    Resumed length_digest halfway half (codes "/home/large") local (received missing)
upload_resumes_example =
    upload_resumes length_digest halfway half large (codes "/home/large") local 0 (received missing)
      halfway-Known refl (λ e. omega (arith, e, length-large)) (omega (arith, length-large))
      large-file refl half-digests refl half-unfinished
      (received-Holds missing (omega (arith, length-missing)))
