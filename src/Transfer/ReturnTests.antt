-- ===== src/Transfer/ReturnTests.antt =====
-- The witnesses of Download.Pieces and Transfer.Split.
use mini_distributed_storage.Base.{
  All, true, ◌≡◌, ◌≤◌, refl, ap, false, some, List, [], ◌∷◌, ◌++◌, Bytes, codes, length, arith,
  length-append,
}
use mini_distributed_storage.Base.Loop.{done}
use mini_distributed_storage.Buffer
use mini_distributed_storage.Buffer.{Buffer}
use mini_distributed_storage.Buffer.Contents.{new-Holds}
use mini_distributed_storage.Wire.{htonl, length-htonl}
use mini_distributed_storage.Md5.{length-get_string_md5}
use mini_distributed_storage.Fileproxy.{find, ls_file}
use mini_distributed_storage.Upload.{base_name, upstatu1}
use mini_distributed_storage.Upload.Names.{base_name_lem}
use mini_distributed_storage.Coordinator
use mini_distributed_storage.Coordinator.{Coordinator, on_messages}
use mini_distributed_storage.Storage.{Entry, statu1, on_message}
use mini_distributed_storage.Download.{Download, file_name, download_file_from_storage}
use mini_distributed_storage.Download.Blocks.{Empty}
use mini_distributed_storage.Download.Files.{
  Stored, Fits, stored_message, stored_messages, deliveries,
}
use mini_distributed_storage.Download.Pieces.{reads, download_file-deliveries}
use mini_distributed_storage.Upload.{forward}
use mini_distributed_storage.Buffer.Contents.{Holds}
use mini_distributed_storage.Transfer.{block_entry}
use mini_distributed_storage.Transfer.Batch.{sent_to}
use mini_distributed_storage.Transfer.Split.{second_hello, header_split-stuck}
use mini_distributed_storage.Fixtures.{
  length_digest, block, block_md5, server, storage, received, received-Holds, map_files, ready,
}
use mini_distributed_storage.Fixtures.Small.{path, cut_at, joined-cut_at}

-- A directory with itself and the file of a block.
abbrev entries : List Entry
entries = record { name = codes "."; d_type = 4; bytes = [] } ∷ block_entry length_digest block ∷ []

length-name : length (block_md5 ++ codes ".txt") ≡ 36
length-name =
    omega (arith, length-append block_md5 (codes ".txt"), length-get_string_md5 length_digest block)

-- The file of a block, and one whose name is not its digest.
abbrev two_files : List Stored
two_files = (block_md5 ++ codes ".txt", block) ∷ (block_md5 ++ codes ".txt", codes "other") ∷ []

two-Fits : All Fits two_files
two-Fits = ((length-name, omega arith), ((length-name, omega arith), tt))

abbrev arriving : Bytes
arriving = stored_messages two_files

length-arriving : length arriving ≡ 95
unfolding stored_messages
length-arriving = omega (
  arith,
  length-append (stored_message (block_md5 ++ codes ".txt", block))
      (stored_message (block_md5 ++ codes ".txt", codes "other") ++ []),
  length-append (stored_message (block_md5 ++ codes ".txt", codes "other")) [],
  length-append (htonl 10) ((block_md5 ++ codes ".txt") ++ block),
  length-append (htonl 5) ((block_md5 ++ codes ".txt") ++ codes "other"),
  length-append (block_md5 ++ codes ".txt") block,
  length-append (block_md5 ++ codes ".txt") (codes "other"),
  length-name,
  length-htonl 10,
  length-htonl 5,
)

download_file-deliveries_example :
    (w' : Download) × (download_file_from_storage length_digest map_files 0
        ((true, some (codes "down ack")) ∷ reads (cut_at 7 arriving))
        ready
      ≡ done w')
    × (w'.sent
        ≡ forward 0 (codes "download")
          ∷ forward 0 (htonl 11)
          ∷ forward 0 file_name
          ∷ deliveries length_digest map_files two_files)
    × Holds w'.buf []
    × Empty w'.bloc
download_file-deliveries_example =
    download_file-deliveries length_digest map_files 0 two_files (cut_at 7 arriving) ready two-Fits
      new-Holds (record { nothing = new-Holds; front = refl; back = refl })
      (joined-cut_at 7 arriving)
      (omega (arith, ap length (joined-cut_at 7 arriving), length-arriving))

abbrev idle : Coordinator
idle = record {
  operate = Coordinator.up;
  server = record server { g_file = []; up_statu = upstatu1 };
  downloads = 0;
}

unknown : ls_file idle.server.g_file (base_name path) ≡ false
unfolding ls_file find
unknown = refl

abbrev digest : Bytes
digest = codes "0123456789ABCDEF0123456789ABCDEF"

-- The first four bytes, and the others.
abbrev rest : Bytes
rest = htonl 3 ++ (path ++ digest)

length-hello : length (second_hello path) ≤ 23
length-hello =
    let name = base_name path in
    let (dir, whole, _, _) = base_name_lem path in
    omega (
      arith,
      ap length whole,
      length-append dir name,
      length-append (codes "upppload") (htonl (length name) ++ name),
      length-append (htonl (length name)) name,
      length-htonl (length name),
    )

header_split-stuck_example :
    (c' : Coordinator) × (b' : Buffer) × (on_messages length_digest
        (idle, Buffer.new)
        (htonl 43 ∷ rest ∷ [])
      ≡ done (c', b'))
    × (sent_to 1 c'.server.sent
        ≡ sent_to 1 idle.server.sent ++ (codes "upppload" ++ second_hello path))
    × (on_message length_digest
          (λ p. some entries)
          (record storage { statu = statu1 }, received (second_hello path ++ codes "x"))
        ≡ done (record storage { statu = statu1 }, received (second_hello path ++ codes "x")))
header_split-stuck_example =
    header_split-stuck length_digest idle Buffer.new 3 path digest (htonl 43) rest refl refl refl
      (omega arith) (omega arith) unknown new-Holds refl (omega (arith, length-htonl 43))
      (omega (arith, length-append (htonl 3) (path ++ digest), length-htonl 3)) (omega arith)
      (λ p. some entries) (record storage { statu = statu1 })
      (received (second_hello path ++ codes "x")) 1 (codes "x") (omega arith) refl refl
      (omega (arith, length-hello))
      (received-Holds (second_hello path ++ codes "x")
        (omega (arith, length-append (second_hello path) (codes "x"), length-hello)))
