-- ===== src/Fixtures.antt =====
-- The file, the digests and the buffers that the witnesses use.
pub mod Small
use mini_distributed_storage.Base.{
  ℕ, zero, suc, ◌%◌, ◌<◌, ◌≡◌, refl, true, false, some, [], ◌∷◌, ◌++◌, Bytes, codes, length,
  replicate, length-replicate, All, arith, bytes_eq_refl, length-append,
}
use mini_distributed_storage.Buffer
use mini_distributed_storage.Buffer.{Buffer}
use mini_distributed_storage.Buffer.Contents.{Holds, Holds-append, new-Holds}
use mini_distributed_storage.Wire.{htonl, length-htonl}
use mini_distributed_storage.Md5.{Digest, get_string_md5}
use mini_distributed_storage.FileValue
use mini_distributed_storage.FileValue.{FileValue, file_value}
use mini_distributed_storage.FileValue.Flags.{IsValid}
use mini_distributed_storage.Fileproxy.{Fileproxy, find, ls_file}
use mini_distributed_storage.Download.{Download, downstatu3}
use mini_distributed_storage.Upload.{Server, upstatu3}
use mini_distributed_storage.Upload.Block.{Known}
use mini_distributed_storage.Storage.{Storage, statu2, up}

pub All-replicate : (n k : ℕ) → k < 256 → All (λ x. x < 256) (replicate n k)
All-replicate zero k h = tt
All-replicate (suc n) k h = (h, All-replicate n k h)

-- A digest of sixteen bytes, each the length of the text.
abbrev pub length_digest : Digest
length_digest = record {
  md5 = λ s. replicate 16 (length s % 256);
  length-md5 = λ s. length-replicate 16 (length s % 256);
  md5-bytes = λ s. All-replicate 16 (length s % 256) (omega arith);
}

abbrev pub block : Bytes
block = codes "some bytes"

abbrev pub block_md5 : Bytes
block_md5 = get_string_md5 length_digest block

-- A file of two blocks: the first is uploaded, the second is announced.
abbrev pub notes : FileValue
notes = record {
  block_num = 2;
  file_md5 = codes "0123456789ABCDEF0123456789ABCDEF";
  block_file_md5 = codes "AAAABBBBCCCCDDDDAAAABBBBCCCCDDDD" ∷ block_md5 ∷ [];
  upload_id = true ∷ false ∷ [];
  download_id = false ∷ false ∷ [];
  block_file = [] ∷ [] ∷ [];
}

pub notes-announced : FileValue.get_block_file_md5 notes 1 ≡ some block_md5
unfolding FileValue.get_block_file_md5
notes-announced = refl

pub notes-IsValid : IsValid notes
notes-IsValid = record { md5s = refl; uploads = refl; downloads = refl; blocks = refl }

abbrev pub server : Server
server = record {
  up_statu = upstatu3;
  g_file = (codes "notes", notes) ∷ [];
  g_file_name = codes "notes";
  sent = [];
}

pub server-found : find server.g_file server.g_file_name ≡ some notes
unfolding find
server-found = rw (bytes_eq_refl (codes "notes"))

pub server-Known : Known server notes
server-Known = record { found = server-found; valid = notes-IsValid; small = omega arith }

abbrev pub storage : Storage
storage = record {
  operate = up;
  statu = statu2;
  g_upfile_name = codes "./File/notes/";
  g_downfile_name = codes "./File/";
  conter = 0;
  files = [];
  dirs = [];
  replies = [];
}

-- A buffer that has received `bytes`.
abbrev pub received : Bytes → Buffer
received bytes = Buffer.append Buffer.new bytes

pub received-Holds : (bytes : Bytes) → length bytes < 2000 → Holds (received bytes) bytes
received-Holds bytes h = Holds-append bytes new-Holds (omega arith)

-- The message with block 1 of the file.
abbrev pub message : Bytes
message = htonl (length block) ++ (htonl 1 ++ block)

pub length-message : length message ≡ 18
length-message = omega (
  arith,
  length-append (htonl (length block)) (htonl 1 ++ block),
  length-append (htonl 1) block,
  length-htonl (length block),
  length-htonl 1,
)

pub message-Holds : Holds (received message) message
message-Holds = received-Holds message (omega (arith, length-message))

-- A map with the file that a download asks for.
abbrev pub map_files : Fileproxy
map_files = (codes "kvmap_2.txt", notes) ∷ []

pub map_files-known : ls_file map_files (codes "kvmap_2.txt") ≡ true
unfolding ls_file find
map_files-known = rw (ls_file, bytes_eq_refl (codes "kvmap_2.txt"))

-- A thread that has asked for the blocks.
abbrev pub ready : Download
ready = record { down_statu = downstatu3; buf = Buffer.new; bloc = Buffer.new; sent = [] }
