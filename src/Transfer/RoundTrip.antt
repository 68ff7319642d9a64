-- ===== src/Transfer/RoundTrip.antt =====
-- An upload and then a download on a new connection: what a storage server has appended to its files,
-- `readFileList` of storageServer/saveFile_0/src/downLoad.h sends back.
use mathlib.Core.List.{Perm, map}
use mathlib.Core.List.Perm
use mini_distributed_storage.Base.{
  ◌^◌, ◌<◌, ◌≡◌, refl, ap, Option, some, List, [], ◌∷◌, ◌++◌, Bytes, codes, length,
}
use mini_distributed_storage.Buffer.{Buffer}
use mini_distributed_storage.Buffer.Contents.{Holds}
use mini_distributed_storage.Wire.{htonl}
use mini_distributed_storage.Md5.{Digest}
use mini_distributed_storage.Storage.{Storage, Entry}
use mini_distributed_storage.Storage.Listing.{messages, ShortNames}
use mini_distributed_storage.Download.Files.{stored_message}
use mini_distributed_storage.Transfer.Directory.{
  files_under, block_file, Apart, files_under-disk_after,
}
use mini_distributed_storage.Transfer.Stored.{Stored}
use mini_distributed_storage.Transfer.Returned.{
  files_of, Readable, messages-files_of, Listed, download-Listed,
}

map-map :
    (d : Digest) (xs : List Bytes)
    → map stored_message (map (block_file d) xs) ≡ map (λ x. stored_message (block_file d x)) xs
map-map d [] = refl
map-map d (x ∷ xs) = ap (λ ms. stored_message (block_file d x) ∷ ms) (map-map d xs)

-- A server has stored the blocks `xs` of an upload, of different digests, in a directory that had no
-- files, and the directory it uploads into is the one it downloads from. Then it is asked for the file
-- on a new connection, "download" and the name arriving in one buffer each, and listing the new
-- directory gives its files, in any order, of at most 2^20 bytes each. Then both calls return with
-- empty buffers, and behind "down ack" the server has sent just the blocks, each once, with its size
-- and its name, the digest of the block, in front, in some order.
pub stored-Listed :
    (d : Digest) (list_dir : Bytes → Option (List Entry)) (st : Storage) (name path : Bytes)
    (xs : List Bytes) (a1 a2 a3 : Buffer) (u : Stored d list_dir st name path xs a1 a2 a3)
    (es : List Entry) (b1 b2 : Buffer)
    → Apart d xs
    → files_under (st.g_upfile_name ++ (name ++ codes "/")) st.files ≡ []
    → st.g_upfile_name ≡ st.g_downfile_name
    → list_dir (st.g_downfile_name ++ (name ++ codes "/")) ≡ some es
    → Perm (files_of es) (files_under (st.g_downfile_name ++ (name ++ codes "/")) u.s3.files)
    → ShortNames es
    → Readable es
    → length name < 2 ^ 32
    → Holds b1 (codes "download")
    → Holds b2 (htonl (length name) ++ name)
    → Listed d list_dir u.s3 es b1 b2
      × Perm (messages es) (map (λ x. stored_message (block_file d x)) xs)
stored-Listed d list_dir st name path xs a1 a2 a3 u es b1 b2 apart fresh same opened lists short
      able h k1 k2 =
    let dir = st.g_upfile_name ++ (name ++ codes "/") in
    let opened' : list_dir (u.s3.g_downfile_name ++ (name ++ codes "/")) ≡ some es =
      rw u.source opened in
    let there : files_under dir u.s3.files ≡ map (block_file d) xs =
      rw u.disk (files_under-disk_after d dir xs st.files apart fresh) in
    let shown : Perm (files_of es) (map (block_file d) xs) = rw (← same, there) at lists in
    (
      download-Listed d list_dir u.s3 name es b1 b2 h opened' short k1 k2,
      rw (messages-files_of es able, ← map-map d xs) (Perm.map stored_message shown),
    )
