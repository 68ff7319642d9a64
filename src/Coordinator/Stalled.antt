-- ===== src/Coordinator/Stalled.antt =====
-- An upload whose digests and blocks arrive in one read: `upLoadFile` of ReactorService/src/upLoad.h
-- runs one handler for each read, and is called again only when more bytes arrive; the client sends no
-- more, but waits for an answer.
use mini_distributed_storage.Base.{
  ℕ, zero, suc, ◌+◌, ◌/◌, ◌%◌, ◌^◌, ◌≤◌, ◌<◌, ◌≡◌, ◌≢◌, refl, sym, ap, ◌∙◌, true, false, some, List,
  [], ◌∷◌, ◌++◌, Bytes, codes, length, length-append, get_elem?, replicate, arith,
}
use mini_distributed_storage.Base.Loop.{done}
use mini_distributed_storage.Buffer
use mini_distributed_storage.Buffer.{Buffer, retrieve}
use mini_distributed_storage.Buffer.Contents.{Holds, read_fd-Holds}
use mini_distributed_storage.Md5.{Digest, get_string_md5, length-get_string_md5}
use mini_distributed_storage.FileValue.{FileValue, file_value}
use mini_distributed_storage.FileValue.Flags.{IsUploaded}
use mini_distributed_storage.Fileproxy.{find, ls_file, add_file}
use mini_distributed_storage.Fileproxy.Lookup.{find-insert_self}
use mini_distributed_storage.Client.{
  File, BlockFile, page_size, block_count, file, send_fileinfo, send_file_block_md5info,
  send_file_block,
}
use mini_distributed_storage.Client.Messages.{stream, send_fileinfo-header}
use mini_distributed_storage.Client.Numbered.{Numbered, init_file-Numbered}
use mini_distributed_storage.Client.Tiles.{file_of, file-file_of}
use mini_distributed_storage.Upload.{base_name, up_load_file, upstatu3}
use mini_distributed_storage.Upload.Session.{prepared_lem, prepared, init_file_md5_lem}
use mini_distributed_storage.Coordinator.{
  Coordinator, up, with_server, on_connection, on_message, on_messages,
}
use mini_distributed_storage.Coordinator.Begin.{upload_begins_in, on_messages-cons, on_messages-nil}
use mini_distributed_storage.Coordinator.Pieces.{on_message-up, with_server-done}
use mini_distributed_storage.Coordinator.Whole.{opened, on_messages-append}

-- What the three reads have led to: the blocks are in the buffer, nothing has been sent since the
-- header, and no block is marked.
pub record Stalled (d : Digest) (c : Coordinator) (cl : File) (path : Bytes) : Type 0 where
  pub coordinator : Coordinator
  pub buffer : Buffer
  pub file : FileValue
  pub run :
      on_messages d
        (on_connection true c, Buffer.new)
        (codes "upppload"
          ∷ stream (send_fileinfo d cl path)
          ∷ (stream (send_file_block_md5info d cl.content cl.block_file_list)
              ++ stream (send_file_block cl.content cl.block_file_list cl.upload_id))
          ∷ [])
      ≡ done (coordinator, buffer)
  pub behind : Holds buffer (stream (send_file_block cl.content cl.block_file_list cl.upload_id))
  pub silent : coordinator.server.sent ≡ (opened d c cl path).sent
  pub status : coordinator.server.up_statu ≡ upstatu3
  pub stored : find coordinator.server.g_file (base_name path) ≡ some file
  pub unmarked : (j : ℕ) → ¬ IsUploaded file j

none_true : (n j : ℕ) → get_elem? (replicate n false) j ≢ some true
none_true zero j e = cc e
none_true (suc n) zero e = cc e
none_true (suc n) (suc j) e = none_true n j e

module _ (d : Digest) (c : Coordinator) (xs path : Bytes) (n : ℕ) (bs : List BlockFile) where
  stalled_lem :
      n ≤ 2 ^ 26
      → length bs ≡ n
      → Numbered xs 0 bs
      → length path ≤ 2 ^ 31
      → ls_file c.server.g_file (base_name path) ≡ false
      → length path
          + length (stream (send_file_block_md5info d xs bs))
          + length (stream (send_file_block xs bs (replicate n false)))
        < 2 ^ 62
      → Stalled d c (file_of xs n bs) path
  unfolding add_file file_value up_load_file
  stalled_lem most count numbered short unknown room =
      let md5 = get_string_md5 d xs in
      let s1 = opened d c (file_of xs n bs) path in
      let md5s = stream (send_file_block_md5info d xs bs) in
      let blocks = stream (send_file_block xs bs (replicate n false)) in
      let (b1, begun, left1, size1) =
        upload_begins_in d c n path md5 (length-get_string_md5 d xs) short (omega (arith, most))
          unknown in
      let head = send_fileinfo-header d (file_of xs n bs) path in
      let c1 : Coordinator = record c { operate = up; server = s1 } in
      let v = prepared_lem d c.server xs path n bs md5 most count numbered in
      let filled = Buffer.read_fd b1 (some (md5s ++ blocks)) in
      let held : Holds filled (md5s ++ blocks) = rw left1.holds at (
        read_fd-Holds b1 (md5s ++ blocks) left1.valid
          (omega (arith, length-append md5s blocks, size1, room))) in
      let (takes, left) =
        init_file_md5_lem s1 (file_value n md5) v.file filled md5s blocks
          (find-insert_self c.server.g_file (base_name path) (file_value n md5)) v.size v.stored
          held in
      let s2 = prepared s1 v.file in
      let rest = retrieve filled (length md5s) in
      let once : on_message d (c1, filled) ≡ done (record c1 { server = s2 }, rest) =
        on_message-up d c1 filled refl
        ∙ ap (with_server c1) takes
        ∙ with_server-done c1 (s2, rest) in
      let begun' = rw (← head) at begun in
      record {
        coordinator = record c1 { server = s2 };
        buffer = rest;
        file = v.file;
        run =
            on_messages-append d
              (codes "upppload" ∷ stream (send_fileinfo d (file_of xs n bs) path) ∷ [])
              ((md5s ++ blocks) ∷ []) (on_connection true c, Buffer.new) (c1, b1) begun'
            ∙ on_messages-cons d c1 b1 _ (md5s ++ blocks) [] once
            ∙ on_messages-nil d (record c1 { server = s2 }, rest);
        behind = left;
        silent = refl;
        status = refl;
        stored = find-insert_self s1.g_file s1.g_file_name v.file;
        unmarked = λ j e.
            let up : 0 + j ≡ j = omega arith in
            let flags = rw up at (v.synced.behind j) in none_true n j (sym flags ∙ e);
      }

-- A client connects and uploads a file whose size is below 2^31 and no multiple of 2^20, under a path
-- of at most 2^31 bytes whose name is not in the map, with fewer than 2^62 bytes in all. "upppload"
-- and the header arrive in one read each, and what `sendFileBlockMD5info` and `sendFileBlock` send,
-- one behind the other, in one read. Then the three calls of `onMessage` return, and the blocks are
-- all still in the buffer: nothing has been sent since the header, no "success" either, and no block of the file is marked.
pub upload-Stalled :
    (d : Digest) (c : Coordinator) (xs path : Bytes) (cl : File)
    → length xs % page_size ≢ 0
    → length xs < 2 ^ 31
    → file xs ≡ some cl
    → length path ≤ 2 ^ 31
    → ls_file c.server.g_file (base_name path) ≡ false
    → length path
        + length (stream (send_file_block_md5info d cl.content cl.block_file_list))
        + length (stream (send_file_block cl.content cl.block_file_list cl.upload_id))
      < 2 ^ 62
    → Stalled d c cl path
unfolding block_count
upload-Stalled d c xs path cl ne h made short unknown room =
    let n = length xs / page_size + 1 in
    let (bs, init, numbered, count) = init_file-Numbered xs n 0 (omega arith) h in
    let all : block_count (length xs) ≡ n = ground arith in
    let same : cl ≡ file_of xs n bs = cc (made, file-file_of xs n bs all init) in
    rw same
      (stalled_lem d c xs path n bs (omega arith) count numbered short unknown (rw same at room))
