-- ===== src/Client/Messages.antt =====
-- The client's messages are what the coordinator reads.
use mini_distributed_storage.Base.{
  ◌+◌, ◌≡◌, refl, List, [], ◌∷◌, ◌++◌, append-nil, Bytes, length, length-append, arith,
}
use mini_distributed_storage.Md5.{Digest, get_string_md5, length-get_string_md5}
use mini_distributed_storage.Upload.Header.{header}
use mini_distributed_storage.Client.{File, send_fileinfo}

-- The bytes of several calls of `send`, as the other side receives them.
unfoldable pub stream : List Bytes → Bytes
stream [] = []
stream (m ∷ ms) = m ++ stream ms

-- What `sendFileinfo` sends for a path is the header that `initFileNumber` reads for that path, the
-- number of blocks and the digest of the file.
pub send_fileinfo-header :
    (d : Digest) (f : File) (file_name : Bytes)
    → stream (send_fileinfo d f file_name)
      ≡ header f.block_num file_name (get_string_md5 d f.content)
unfolding stream send_fileinfo
send_fileinfo-header d f file_name =
    let md5 = get_string_md5 d f.content in
    let size : length (file_name ++ md5) ≡ length file_name + 32 =
      omega (arith, length-append file_name md5, length-get_string_md5 d f.content) in
    rw (size, append-nil (file_name ++ md5)) refl
