-- ===== src/Transfer/Stored.antt =====
-- A whole upload on a storage server: the handshake, the name of the file and its blocks, through
-- `onMessage` of storageServer/saveFile_0/src/main.cc.
use mini_distributed_storage.Base.{
  ℕ, ◌^◌, ◌<◌, ◌≡◌, refl, ◌∙◌, true, Option, List, [], ◌∷◌, ◌++◌, append-nil, Bytes, codes, length,
  All, Bool, bytes_eq_refl, arith,
}
use mini_distributed_storage.Base.Loop.{done}
use mini_distributed_storage.Buffer.{Buffer, retrieve}
use mini_distributed_storage.Buffer.Contents.{Holds}
use mini_distributed_storage.Wire.{htonl}
use mini_distributed_storage.Wire.Frame.{body_lem}
use mini_distributed_storage.Md5.{Digest}
use mini_distributed_storage.Client.{BlockFile}
use mini_distributed_storage.Upload.Marks.{forwards}
use mini_distributed_storage.Storage.{
  statu2, Storage, Entry, contents_of, on_message, on_connection, switch_operate, up_load, mkfile,
  sw, statu1, up,
}
use mini_distributed_storage.Storage.Names.{entered, mkfile_lem}
use mini_distributed_storage.Transfer.Batch.{
  sent_to, blocks_for, kept_under, disk_after, forwards-saved,
}

module _ (d : Digest) (list_dir : Bytes → Option (List Entry)) (st : Storage) where
  on_message-hello :
      (b : Buffer)
      → st.operate ≡ sw
      → Holds b (codes "upppload")
      → (on_message d list_dir (st, b) ≡ done (record st { operate = up }, retrieve b 8))
        × Holds (retrieve b 8) []
  unfolding on_message switch_operate
  on_message-hello b e k =
      let body = body_lem b (codes "upppload") [] (rw (append-nil (codes "upppload")) k) in
      (simp (e, body.taken, bytes_eq_refl (codes "upppload")), body.behind)

  on_message-name :
      (b : Buffer)
      → st.operate ≡ up
      → st.statu ≡ statu1
      → on_message d list_dir (st, b) ≡ mkfile (st, b)
  unfolding on_message up_load
  on_message-name b e1 e2 = simp (e1, e2)

-- The three calls of `onMessage`, on the buffers `b1`, `b2` and `b3`, of a new connection.
pub record Stored (d : Digest) (list_dir : Bytes → Option (List Entry)) (st : Storage)
    (name path : Bytes) (xs : List Bytes) (b1 b2 b3 : Buffer) : Type 0 where
  pub s1 : Storage
  pub s2 : Storage
  pub s3 : Storage
  pub c1 : Buffer
  pub c2 : Buffer
  pub c3 : Buffer
  pub greeted : on_message d list_dir (on_connection st true, b1) ≡ done (s1, c1)
  pub named : on_message d list_dir (s1, b2) ≡ done (s2, c2)
  pub filled : on_message d list_dir (s2, b3) ≡ done (s3, c3)
  pub no_rest : Holds c1 [] × Holds c2 [] × Holds c3 []
  pub opened : s2.g_upfile_name ≡ st.g_upfile_name ++ (name ++ codes "/")
  pub made : s2.dirs ≡ st.dirs ++ (st.g_upfile_name ++ (name ++ codes "/")) ∷ []
  pub contents :
      contents_of s3.files path
      ≡ contents_of st.files path ++ kept_under d (st.g_upfile_name ++ (name ++ codes "/")) path xs
  pub disk : s3.files ≡ disk_after d (st.g_upfile_name ++ (name ++ codes "/")) xs st.files
  pub still : (s3.operate ≡ up) × (s3.statu ≡ statu2)
  pub source : s3.g_downfile_name ≡ st.g_downfile_name

-- A connection to a storage server begins; "upppload", then the length and the name of a file, then
-- all that the coordinator sends this server for the blocks of a client whose flags are not set, each
-- of fewer than 2^31 bytes, are what three buffers hold. Then the three calls of the handler return
-- with empty buffers; the second makes and opens the directory of that name in the directory that was
-- open before; and after the third every path has got just those of the blocks that are kept under it
-- in the new directory, behind what it held, in order.
pub upload-Stored :
    (d : Digest) (k : ℕ) (content : Bytes) (bs : List BlockFile) (flags : List Bool)
    (list_dir : Bytes → Option (List Entry)) (st : Storage) (name path : Bytes) (b1 b2 b3 : Buffer)
    → length name < 2 ^ 32
    → All (λ x. length x < 2 ^ 31) (blocks_for d k content bs flags)
    → Holds b1 (codes "upppload")
    → Holds b2 (htonl (length name) ++ name)
    → Holds b3 (sent_to k (forwards d content bs flags))
    → Stored d list_dir st name path (blocks_for d k content bs flags) b1 b2 b3
unfolding on_connection
upload-Stored d k content bs flags list_dir st name path b1 b2 b3 h short k1 k2 k3 =
    let s1 : Storage = record (on_connection st true) { operate = up } in
    let (greeted, left1) = on_message-hello d list_dir (on_connection st true) b1 refl k1 in
    let (c2, run, left2) = mkfile_lem s1 b2 name [] h (omega arith) (rw (append-nil name) k2) in
    let (s3, c3, filled, left3, after, contents) =
      forwards-saved d k content bs flags list_dir (entered s1 name) b3 path refl refl short k3 in
    record {
      s1 = s1;
      s2 = entered s1 name;
      s3 = s3;
      c1 = retrieve b1 8;
      c2 = c2;
      c3 = c3;
      greeted = greeted;
      named = on_message-name d list_dir s1 b2 refl refl ∙ run;
      filled = filled;
      no_rest = (left1, left2, left3);
      opened = refl;
      made = refl;
      contents = contents;
      disk = after.0;
      still = (after.2, after.3);
      source = after.1;
    }
