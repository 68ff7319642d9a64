-- ===== src/Transfer/Refused.antt =====
-- What comes after an upload on the one connection that the coordinator keeps to a storage server
-- (`mySocket` in ReactorService/src/main.cc): `onMessage` of storageServer/saveFile_0/src/main.cc
-- still takes everything for blocks.
use mini_distributed_storage.Base.{
  ℕ, ◌+◌, ◌^◌, ◌<◌, ◌≡◌, ◌⊎◌, inl, inr, ◌∙◌, true, false, Option, some, List, ◌++◌, Bytes, codes,
  length, length-append, refl, leb, add_size, size_of_int, arith,
}
use mini_distributed_storage.Base.Loop.{done, loop-stop}
use mini_distributed_storage.Buffer.{Buffer, readable_bytes}
use mini_distributed_storage.Buffer.Contents.{Holds, readable-length, peek-take}
use mini_distributed_storage.Wire.{ntohl, peek_be32}
use mini_distributed_storage.Md5.{Digest}
use mini_distributed_storage.Storage.{
  Storage, Entry, has_number, save_round, save_block_file, on_message, statu2, up,
}
use mini_distributed_storage.Storage.Save.{save_round-waits}
use mini_distributed_storage.Transfer.{on_message-up}
use mini_distributed_storage.Transfer.Stored.{Stored}

-- A request of eight letters, of which the first four are the number `n`.
abbrev pub IsRequest : Bytes → ℕ → Type 0
IsRequest word n =
    ((word ≡ codes "download") × (n ≡ 1685026670)) ⊎ ((word ≡ codes "upppload") × (n ≡ 1970303088))

IsRequest-number :
    (b : Buffer) (word rest : Bytes) (n : ℕ)
    → IsRequest word n
    → Holds b (word ++ rest)
    → peek_be32 b ≡ some n
unfolding peek_be32 ntohl
IsRequest-number b word rest n (inl (e1, e2)) k =
    let k' = rw e1 at k in rw (e2, peek-take k' 4 (omega arith)) refl
IsRequest-number b word rest n (inr (e1, e2)) k =
    let k' = rw e1 at k in rw (e2, peek-take k' 4 (omega arith)) refl

IsRequest-long : (word : Bytes) (n : ℕ) → IsRequest word n → (4 < length word) × (n < 2 ^ 31)
IsRequest-long word n (inl (e1, e2)) = rw (e1, e2) (omega arith, omega arith)
IsRequest-long word n (inr (e1, e2)) = rw (e1, e2) (omega arith, omega arith)

-- A server that waits for blocks takes the request for the size of one.
waits_for_block :
    (d : Digest) (list_dir : Bytes → Option (List Entry)) (st : Storage) (b : Buffer)
    (word rest : Bytes) (n : ℕ)
    → st.operate ≡ up
    → st.statu ≡ statu2
    → IsRequest word n
    → length (word ++ rest) < 36 + n
    → Holds b (word ++ rest)
    → on_message d list_dir (st, b) ≡ done (st, b)
unfolding save_block_file
waits_for_block d list_dir st b word rest n e1 e2 r short k =
    let (long, small) = IsRequest-long word n r in
    let more : has_number (st, b) ≡ true =
      ground (arith, readable-length k, length-append word rest, long) in
    let over : leb (add_size 36 (size_of_int n)) (readable_bytes b) ≡ false =
      ground (arith, readable-length k, short, small) in
    on_message-up d list_dir st b e1 e2
    ∙ loop-stop has_number (save_round d st.g_upfile_name) (readable_bytes b) (st, b) more
        (save_round-waits d st b st.g_upfile_name n (IsRequest-number b word rest n r k) over)

-- A storage server has stored the blocks of an upload, and on the same connection the coordinator
-- sends the next request, "download" for a download or "upppload" for another upload, and whatever
-- behind it. The server takes the first four letters for the size of a block, 1685026670 or
-- 1970303088: as long as its buffer holds no more than that and 35 bytes, its handler changes nothing,
-- so that it answers nothing, and reads and stores nothing.
pub request-refused :
    (d : Digest) (list_dir : Bytes → Option (List Entry)) (st : Storage) (name path : Bytes)
    (xs : List Bytes) (a1 a2 a3 : Buffer) (u : Stored d list_dir st name path xs a1 a2 a3)
    (b : Buffer) (word rest : Bytes) (n : ℕ)
    → IsRequest word n
    → length (word ++ rest) < 36 + n
    → Holds b (word ++ rest)
    → on_message d list_dir (u.s3, b) ≡ done (u.s3, b)
request-refused d list_dir st name path xs a1 a2 a3 u b word rest n r short k =
    waits_for_block d list_dir u.s3 b word rest n u.still.0 u.still.1 r short k
