-- ===== src/Transfer/AgainTests.antt =====
-- The witness of Transfer.Again: the upload of Transfer.RoundTripTests, once more.
use mathlib.Core.List.{map}
use mini_distributed_storage.Base.{none, All, ◌≡◌, false, [], ◌∷◌, ◌++◌, codes, arith}
use mini_distributed_storage.Md5.{get_string_md5}
use mini_distributed_storage.Storage.{Storage}
use mini_distributed_storage.Download.{file_name}
use mini_distributed_storage.Transfer.Stored.{Stored, upload-Stored}
use mini_distributed_storage.Transfer.Directory.{files_under, block_file}
use mini_distributed_storage.Fixtures.{length_digest, block, received, received-Holds}
use mini_distributed_storage.Transfer.Directory.{files_under-blocks, path_of}
use mini_distributed_storage.Transfer.Again.{doubled, Changed, Spoilt, upload_again-Spoilt}
use mini_distributed_storage.Transfer.RoundTripTests.{
  other, pieces, target, blocks, blocks_lem, batch, length-batch, blocks-Apart, fresh, name_bytes,
  length-name_bytes,
}

-- The server with the files of the blocks, after a restart.
abbrev restarted : Storage
restarted = record fresh {
  files = map (path_of length_digest (codes "./File/kvmap_2.txt/")) (block ∷ other ∷ []);
}

abbrev uploaded_again :
    Stored length_digest
      (λ p. none)
      restarted
      file_name
      (codes "./File/kvmap_2.txt/")
      blocks
      (received (codes "upppload"))
      (received name_bytes)
      (received batch)
uploaded_again =
    upload-Stored length_digest target (block ++ other) pieces (false ∷ false ∷ []) (λ p. none)
      restarted file_name (codes "./File/kvmap_2.txt/") (received (codes "upppload"))
      (received name_bytes) (received batch) (omega arith)
      (rw blocks_lem (omega arith, (omega arith, tt)))
      (received-Holds (codes "upppload") (omega arith))
      (received-Holds name_bytes (omega (arith, length-name_bytes)))
      (received-Holds batch (omega (arith, length-batch)))

before :
    files_under (codes "./File/kvmap_2.txt/") restarted.files
    ≡ map (block_file length_digest) blocks
before =
    rw blocks_lem
      (files_under-blocks length_digest (codes "./File/kvmap_2.txt/") (block ∷ other ∷ []))

blocks-Changed : Changed length_digest blocks
unfolding get_string_md5
blocks-Changed = rw blocks_lem ((λ e. ground arith), ((λ e. ground arith), tt))

upload_again-Spoilt_example :
    (files_under (codes "./File/kvmap_2.txt/") uploaded_again.s3.files
      ≡ map (doubled length_digest) blocks)
    × All (Spoilt length_digest) (files_under (codes "./File/kvmap_2.txt/") uploaded_again.s3.files)
upload_again-Spoilt_example =
    upload_again-Spoilt length_digest (λ p. none) restarted file_name (codes "./File/kvmap_2.txt/")
      blocks (received (codes "upppload")) (received name_bytes) (received batch) uploaded_again
      blocks-Apart blocks-Changed before
