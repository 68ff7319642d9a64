-- ===== src/Transfer/RoundTripTests.antt =====
-- The witnesses of Transfer.RoundTrip and Transfer.Refused: two blocks, listed in another order than they were stored in.
use mathlib.Core.List.{Perm, map, Pairwise-cons, not-mem-nil, forall_mem-cons, Pairwise}
use mathlib.Core.List.Perm
use mini_distributed_storage.Base.{
  inl, ℕ, ◌%◌, ◌≡◌, ◌≢◌, List, true, false, refl, some, Option, [], ◌∷◌, ◌++◌, Bytes, codes, length,
  length-append, arith, bytes_eq-length,
}
use mini_distributed_storage.Wire.{htonl, length-htonl}
use mini_distributed_storage.Md5.{convert_md5_to_int, get_string_md5, length-get_string_md5}
use mini_distributed_storage.Client.{BlockFile}
use mini_distributed_storage.Upload.Marks.{forwards}
use mini_distributed_storage.Storage.{Storage, Entry, sw, statu1}
use mini_distributed_storage.Storage.Listing.{is_sent, messages}
use mini_distributed_storage.Download.{file_name}
use mini_distributed_storage.Download.Files.{stored_message}
use mini_distributed_storage.Storage.Listing.{ShortNames}
use mini_distributed_storage.Base.Loop.{done}
use mini_distributed_storage.Storage.{on_message}
use mini_distributed_storage.Transfer.Refused.{request-refused}
use mini_distributed_storage.Transfer.{block_entry}
use mini_distributed_storage.Transfer.Batch.{sent_to, blocks_for}
use mini_distributed_storage.Transfer.Stored.{Stored, upload-Stored}
use mini_distributed_storage.Transfer.Returned.{files_of, Readable, Listed}
use mini_distributed_storage.Transfer.Directory.{
  files_under, files_under-disk_after, block_file, Apart,
}
use mini_distributed_storage.Transfer.RoundTrip.{stored-Listed}
use mini_distributed_storage.Fixtures.{
  length_digest, block, block_md5, storage, received, received-Holds,
}

abbrev pub other : Bytes
other = codes "and some more"

abbrev pub pieces : List BlockFile
pieces =
    record { block_size = 10; id = 0; offset = 0 }
    ∷ record { block_size = 13; id = 1; offset = 10 }
    ∷ []

abbrev pub target : ℕ
target = convert_md5_to_int block_md5 % 3

abbrev pub blocks : List Bytes
blocks = blocks_for length_digest target (block ++ other) pieces (false ∷ false ∷ [])

pub blocks_lem : blocks ≡ block ∷ other ∷ []
unfolding blocks_for convert_md5_to_int get_string_md5
blocks_lem = refl

abbrev pub batch : Bytes
batch = sent_to target (forwards length_digest (block ++ other) pieces (false ∷ false ∷ []))

pub length-batch : length batch ≡ 95
unfolding sent_to forwards convert_md5_to_int get_string_md5 htonl
length-batch = refl

different : get_string_md5 length_digest block ≢ get_string_md5 length_digest other
unfolding get_string_md5
different e = ground arith

pub blocks-Apart : Apart length_digest blocks
blocks-Apart = rw blocks_lem (
    Pairwise-cons.1 (
      (forall_mem-cons λ t. hlevel).1 (different, λ y m. absurd (not-mem-nil m)),
      Pairwise-cons.1 ((λ y m. absurd (not-mem-nil m)), Pairwise.nil),
    ))

-- The server before its first connection.
abbrev pub fresh : Storage
fresh = record storage { operate = sw; statu = statu1; g_upfile_name = codes "./File/" }

abbrev pub name_bytes : Bytes
name_bytes = htonl 11 ++ file_name

pub length-name_bytes : length name_bytes ≡ 15
length-name_bytes = omega (arith, length-append (htonl 11) file_name, length-htonl 11)

abbrev entries : List Entry
entries = block_entry length_digest other ∷ block_entry length_digest block ∷ []

abbrev list_dir : Bytes → Option (List Entry)
list_dir path = some entries

abbrev uploaded :
    Stored length_digest list_dir fresh file_name
      (codes "./File/kvmap_2.txt/")
      blocks
      (received (codes "upppload"))
      (received name_bytes)
      (received batch)
uploaded =
    upload-Stored length_digest target (block ++ other) pieces (false ∷ false ∷ []) list_dir fresh
      file_name (codes "./File/kvmap_2.txt/") (received (codes "upppload")) (received name_bytes)
      (received batch) (omega arith) (rw blocks_lem (omega arith, (omega arith, tt)))
      (received-Holds (codes "upppload") (omega arith))
      (received-Holds name_bytes (omega (arith, length-name_bytes)))
      (received-Holds batch (omega (arith, length-batch)))

pub name_lem : (x : Bytes) → length (get_string_md5 length_digest x ++ codes ".txt") ≡ 36
name_lem x = omega (
  arith,
  length-append (get_string_md5 length_digest x) (codes ".txt"),
  length-get_string_md5 length_digest x,
)

entry-is_sent : (x : Bytes) → is_sent (block_entry length_digest x) ≡ true
unfolding is_sent
entry-is_sent x =
    let name = get_string_md5 length_digest x ++ codes ".txt" in
    rw
      (
        bytes_eq-length name (codes ".") (omega (arith, name_lem x)),
        bytes_eq-length name (codes "..") (omega (arith, name_lem x)),
      )
      refl

entries-ShortNames : ShortNames entries
entries-ShortNames = (omega (arith, name_lem other), (omega (arith, name_lem block), tt))

entries-Readable : Readable entries
entries-Readable = ((λ e. omega arith), ((λ e. omega arith), tt))

files_lem : files_of entries ≡ map (block_file length_digest) (other ∷ block ∷ [])
unfolding files_of
files_lem = rw (entry-is_sent other, entry-is_sent block) refl

none_before : files_under (codes "./File/kvmap_2.txt/") [] ≡ []
unfolding files_under
none_before = refl

listed : Perm (files_of entries) (files_under (codes "./File/kvmap_2.txt/") uploaded.s3.files)
listed =
    rw
      (
        files_lem,
        uploaded.disk,
        files_under-disk_after length_digest (codes "./File/kvmap_2.txt/") blocks [] blocks-Apart
            none_before,
        blocks_lem,
      )
      (Perm.swap (block_file length_digest block) (block_file length_digest other) [])

stored-Listed_example :
    Listed length_digest list_dir uploaded.s3 entries
      (received (codes "download"))
      (received name_bytes)
    × Perm (messages entries) (map (λ x. stored_message (block_file length_digest x)) blocks)
stored-Listed_example =
    stored-Listed length_digest list_dir fresh file_name (codes "./File/kvmap_2.txt/") blocks
      (received (codes "upppload")) (received name_bytes) (received batch) uploaded entries
      (received (codes "download")) (received name_bytes) blocks-Apart none_before refl refl listed
      entries-ShortNames entries-Readable (omega arith)
      (received-Holds (codes "download") (omega arith))
      (received-Holds name_bytes (omega (arith, length-name_bytes)))

request-refused_example :
    on_message length_digest list_dir (uploaded.s3, received (codes "download" ++ codes "more"))
    ≡ done (uploaded.s3, received (codes "download" ++ codes "more"))
request-refused_example =
    request-refused length_digest list_dir fresh file_name (codes "./File/kvmap_2.txt/") blocks
      (received (codes "upppload")) (received name_bytes) (received batch) uploaded
      (received (codes "download" ++ codes "more")) (codes "download") (codes "more") 1685026670
      (inl (refl, refl)) (omega arith)
      (received-Holds (codes "download" ++ codes "more") (omega arith))
