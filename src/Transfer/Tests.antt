-- ===== src/Transfer/Tests.antt =====
-- The witnesses of Transfer.
use mini_distributed_storage.Base.{
  ℕ, ◌%◌, ◌≡◌, List, Bool, true, false, refl, some, none, [], ◌∷◌, ◌++◌, Bytes, codes, length,
  length-append, get_elem?, arith,
}
use mini_distributed_storage.Base.Loop.{done}
use mini_distributed_storage.Buffer
use mini_distributed_storage.Buffer.{Buffer}
use mini_distributed_storage.Buffer.Contents.{Holds, new-Holds}
use mini_distributed_storage.Wire.{htonl, length-htonl}
use mini_distributed_storage.Md5.{convert_md5_to_int, get_string_md5}
use mini_distributed_storage.Client.{BlockFile}
use mini_distributed_storage.Upload.Marks.{forwards}
use mini_distributed_storage.Transfer.Batch.{sent_to, blocks_for}
use mini_distributed_storage.Transfer.Stored.{Stored, upload-Stored}
use mini_distributed_storage.FileValue.{FileValue}
use mini_distributed_storage.FileValue.Flags.{IsUploaded}
use mini_distributed_storage.Upload.{Server, forward, send_block}
use mini_distributed_storage.Storage.{Storage, contents_of, on_message, sw, statu1}
use mini_distributed_storage.Storage.Save.{block_path}
use mini_distributed_storage.Transfer.{forwarded_block-saved}
use mini_distributed_storage.Fixtures.{
  length_digest, block, block_md5, notes, server, server-Known, storage, received, message,
  message-Holds, notes-announced, received-Holds,
}

forwarded_block-saved_example :
    (g : FileValue) × (s' : Server) × (m : Bytes) × (c cs : Buffer) × (st' : Storage) × (send_block
        length_digest
        (server, received message)
      ≡ done (s', c))
    × IsUploaded g 1
    × (get_elem? s'.sent 0 ≡ some (forward (convert_md5_to_int block_md5 % 3) m))
    × (on_message length_digest (λ path. none) (storage, Buffer.append Buffer.new m)
        ≡ done (st', cs))
    × Holds cs []
    × (let path = block_path (codes "./File/notes/") block_md5 in
        contents_of st'.files path ≡ contents_of [] path ++ block)
forwarded_block-saved_example =
    forwarded_block-saved length_digest server notes server-Known 1 block (received message) refl
      (omega arith) (omega arith) notes-announced message-Holds (λ path. none) storage Buffer.new
      refl refl new-Holds (omega arith)

-- A file of two blocks, of which the first is known.
abbrev pieces : List BlockFile
pieces =
    record { block_size = 10; id = 0; offset = 0 }
    ∷ record { block_size = 10; id = 1; offset = 10 }
    ∷ []

abbrev content : Bytes
content = codes "once again" ++ block

abbrev flags : List Bool
flags = true ∷ false ∷ []

-- The storage server of the second block.
abbrev target : ℕ
target = convert_md5_to_int block_md5 % 3

abbrev batch : Bytes
batch = sent_to target (forwards length_digest content pieces flags)

blocks_for-pieces : blocks_for length_digest target content pieces flags ≡ block ∷ []
unfolding blocks_for convert_md5_to_int get_string_md5
blocks_for-pieces = refl

length-batch : length batch ≡ 46
unfolding sent_to forwards convert_md5_to_int get_string_md5 htonl
length-batch = refl

abbrev name_bytes : Bytes
name_bytes = htonl (length (codes "notes")) ++ codes "notes"

length-name_bytes : length name_bytes ≡ 9
length-name_bytes = omega (arith, length-append (htonl 5) (codes "notes"), length-htonl 5)

-- The server before its first connection.
abbrev fresh : Storage
fresh = record storage { operate = sw; statu = statu1; g_upfile_name = codes "./File/" }

upload-Stored_example :
    (let path = block_path (codes "./File/notes/") block_md5 in
      Stored length_digest
        (λ p. none)
        fresh
        (codes "notes")
        path
        (blocks_for length_digest target content pieces flags)
        (received (codes "upppload"))
        (received name_bytes)
        (received batch))
upload-Stored_example =
    upload-Stored length_digest target content pieces flags (λ p. none) fresh (codes "notes")
      (block_path (codes "./File/notes/") block_md5) (received (codes "upppload"))
      (received name_bytes) (received batch) (omega arith) (rw blocks_for-pieces (omega arith, tt))
      (received-Holds (codes "upppload") (omega arith))
      (received-Holds name_bytes (omega (arith, length-name_bytes)))
      (received-Holds batch (omega (arith, length-batch)))
