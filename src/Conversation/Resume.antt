-- ===== src/Conversation/Resume.antt =====
-- An upload that is taken up again: the ids that the coordinator sends, the blocks that the client
-- sends then, and the coordinator's end of it.
use mini_distributed_storage.Base.{
  ℕ, suc, ◌+◌, ◌/◌, ◌%◌, ◌^◌, ◌<◌, ◌≤◌, ◌≡◌, ◌≢◌, refl, ◌∙◌, sym, true, false, some, List, [], ◌∷◌,
  ◌++◌, append-nil, Bytes, codes, length, take, take_all, int_rounds, size_of_int, arith,
}
use mini_distributed_storage.Base.Loop.{done}
use mini_distributed_storage.Buffer.{Buffer, readable_bytes}
use mini_distributed_storage.Buffer.Contents.{Holds}
use mini_distributed_storage.Md5.{Digest}
use mini_distributed_storage.FileValue
use mini_distributed_storage.FileValue.{FileValue, all_set, id_string, get_upload_id}
use mini_distributed_storage.FileValue.Flags.{IsValid, IsUploaded, int_rounds_lem, size_of_int_lem}
use mini_distributed_storage.FileValue.Blocks.{nth_md5}
use mini_distributed_storage.Client.{
  File, BlockFile, page_size, block_count, file, update_upload_id, send_fileinfo, send_file_block,
  send_file_block_md5info,
}
use mini_distributed_storage.Client.Ids.{length-id_string, update_upload_id-get_upload_id}
use mini_distributed_storage.Client.Messages.{stream}
use mini_distributed_storage.Client.Numbered.{Numbered, init_file-Numbered}
use mini_distributed_storage.Client.Tiles.{file_of, file-file_of}
use mini_distributed_storage.Upload.{State, Server, upstatu3, send_block}
use mini_distributed_storage.Upload.Block.{Known}
use mini_distributed_storage.Upload.Marks.{Synced, Completed, forwards, finish-all_set}
use mini_distributed_storage.Upload.Blocks.{Uploads, uploads_lem}
use mini_distributed_storage.Upload.Session.{Numbered-Announced}
use mini_distributed_storage.Conversation.{
  Talk, c_string, has_colon, is_success, send_blocks, repeat_blocks, blocks_then, first_reply, talk,
  upload_file,
}
use mini_distributed_storage.Conversation.Text.{
  NoZero, c_string_lem, id_string-NoZero, has_colon-id_string, success_read, ids-no_success,
}

-- What the client does with ids and then "success".
abbrev resumed : List Bytes → File → Talk
resumed info g = record { sent = info ++ send_blocks g; file = g; finished = true }

repeat_blocks-success :
    (f : File) (reply : Bytes) (replies : List Bytes)
    → is_success (c_string reply) ≡ true
    → repeat_blocks f (reply ∷ replies) ≡ some (record { sent = []; file = f; finished = true })
unfolding repeat_blocks
repeat_blocks-success f reply replies e = rw (repeat_blocks, e) refl

blocks_then_success :
    (before : List Bytes) (g : File) (reply : Bytes)
    → is_success (c_string reply) ≡ true
    → blocks_then before g (reply ∷ []) ≡ some (resumed before g)
unfolding blocks_then
blocks_then_success before g reply e =
    rw (repeat_blocks-success g reply [] e, append-nil (send_blocks g)) refl

talk-ids :
    (d : Digest) (info : List Bytes) (c g : File) (ids : Bytes)
    → NoZero ids
    → has_colon ids ≡ true
    → update_upload_id c ids ≡ some g
    → talk d info c (ids ∷ codes "success" ∷ []) ≡ some (resumed info g)
unfolding talk first_reply
talk-ids d info c g ids clean colon marks =
    rw (c_string_lem ids clean, ids-no_success ids colon, colon, marks, append-nil info)
      (blocks_then_success info g (codes "success") success_read)

-- The state of the coordinator's file before the missing blocks come.
all-Synced : (f : FileValue) → IsValid f → Synced f 0 f.upload_id
all-Synced f v = record {
  before = λ j h. absurd (omega (arith, h));
  behind = λ j. let up : 0 + j ≡ j = omega arith in rw up refl;
  count = omega (arith, v.uploads);
}

ids-clean : (f : FileValue) → NoZero (get_upload_id f)
unfolding get_upload_id
ids-clean f = id_string-NoZero 0 (take (int_rounds f.block_num) f.upload_id)

ids-colon :
    (f : FileValue) (i : ℕ)
    → IsValid f
    → f.block_num < 2 ^ 31
    → IsUploaded f i
    → has_colon (get_upload_id f) ≡ true
unfolding get_upload_id
ids-colon f i v small up =
    let all : take (int_rounds f.block_num) f.upload_id ≡ f.upload_id =
      rw (int_rounds_lem f.block_num small)
        (take_all f.block_num f.upload_id (omega (arith, v.uploads))) in
    rw all (has_colon-id_string 0 i f.upload_id up)

ids-short :
    (f : FileValue)
    → IsValid f
    → f.block_num < 2 ^ 31
    → f.block_num ≤ 2048
    → length (get_upload_id f) < 2 ^ 31
unfolding get_upload_id
ids-short f v small most =
    let all : take (int_rounds f.block_num) f.upload_id ≡ f.upload_id =
      rw (int_rounds_lem f.block_num small)
        (take_all f.block_num f.upload_id (omega (arith, v.uploads))) in
    rw all (
      omega
        (arith, v.uploads, most, length-id_string 0 f.upload_id (omega (arith, v.uploads, most))))

-- What the coordinator and the client do when an upload is taken up again.
pub record Resumed (d : Digest) (s : Server) (f : FileValue) (path : Bytes) (cl : File) (b : Buffer)
    : Type 0 where
  pub told : Talk
  pub talks : upload_file d path cl.content (get_upload_id f ∷ codes "success" ∷ []) ≡ some told
  pub finished : told.finished ≡ true
  pub only_missing :
      told.sent
      ≡ send_fileinfo d cl path ++ send_file_block cl.content cl.block_file_list f.upload_id
  pub last : State
  pub takes : send_block d (s, b) ≡ done last
  pub completed :
      Completed s.g_file_name (s.sent ++ forwards d cl.content cl.block_file_list f.upload_id) last

upload_file_lem :
    (d : Digest) (path xs : Bytes) (cl : File) (replies : List Bytes)
    → file xs ≡ some cl
    → upload_file d path xs replies ≡ talk d (send_fileinfo d cl path) cl replies
unfolding upload_file
upload_file_lem d path xs cl replies e = rw e refl

module _ (d : Digest) (s : Server) (f : FileValue) (xs path : Bytes) (b : Buffer) where
  resumes_lem :
      (n : ℕ) (bs : List BlockFile) (i : ℕ)
      → Known s f
      → s.up_statu ≡ upstatu3
      → file xs ≡ some (file_of xs n bs)
      → Numbered xs 0 bs
      → length bs ≡ n
      → n ≤ 2048
      → f.block_num ≡ n
      → ((j : ℕ)
          → j < f.block_num
          → FileValue.get_block_file_md5 f j
            ≡ some (nth_md5 (stream (send_file_block_md5info d xs bs)) j))
      → IsUploaded f i
      → FileValue.ls_file_finish f ≡ false
      → Holds b (stream (send_file_block xs bs f.upload_id))
      → Resumed d s f path (file_of xs n bs) b
  unfolding send_block Uploads FileValue.get_block_file_md5
  resumes_lem n bs i known status made numbered count most num digests up unfinished k =
      let cl = file_of xs n bs in
      let v = known.valid in
      let synced = all-Synced f v in
      let left = sym (finish-all_set f 0 f.upload_id v known.small synced) ∙ unfinished in
      let announced = Numbered-Announced d xs f.block_file_md5 0 bs numbered (λ j h.
        let same : size_of_int j ≡ j =
          size_of_int_lem j (omega (arith, h, count, num, known.small)) in
        let front : 0 + j ≡ j = omega arith in
        rw front (rw same at (digests j (omega (arith, h, count, num))))) in
      let (r, run, end) =
        uploads_lem d xs 0 bs (suc (readable_bytes b)) f.upload_id s f b known status announced
          synced (omega (arith, v.uploads, count, num)) left k (omega arith) in
      let marks =
        update_upload_id-get_upload_id f cl v known.small
          (ids-short f v known.small (omega (arith, num, most))) (rw num refl) in
      let g : File = record cl { upload_id = f.upload_id } in
      let info = send_fileinfo d cl path in
      record {
        told = resumed info g;
        talks =
            upload_file_lem d path xs cl (get_upload_id f ∷ codes "success" ∷ []) made
            ∙ talk-ids d info cl g (get_upload_id f) (ids-clean f) (ids-colon f i v known.small up)
                marks;
        finished = refl;
        only_missing = refl;
        last = r;
        takes = run;
        completed = end;
      }

-- The coordinator waits for the blocks of a file of fewer than 2^31 blocks of which some are marked
-- and some are not, and has the digests of the client's blocks; the client has the file, of a size
-- below 2^31 and no multiple of 2^20. Then `upLoadFile` of the client, told the coordinator's ids and
-- then "success", returns: behind the header it has sent just the blocks that are not marked. And
-- when these are in the coordinator's buffer, `sendBlock` returns: the buffer is empty, every block of
-- the file is marked, each of these blocks has been sent, in order, with its digest, to the storage
-- server that the digest selects, the client is told "success", and the status is `upstatu4`.
pub upload_resumes :
    (d : Digest) (s : Server) (f : FileValue) (xs path : Bytes) (cl : File) (i : ℕ) (b : Buffer)
    → Known s f
    → s.up_statu ≡ upstatu3
    → length xs % page_size ≢ 0
    → length xs < 2 ^ 31
    → file xs ≡ some cl
    → f.block_num ≡ cl.block_num
    → ((j : ℕ)
        → j < f.block_num
        → FileValue.get_block_file_md5 f j
          ≡ some (nth_md5 (stream (send_file_block_md5info d xs cl.block_file_list)) j))
    → IsUploaded f i
    → FileValue.ls_file_finish f ≡ false
    → Holds b (stream (send_file_block xs cl.block_file_list f.upload_id))
    → Resumed d s f path cl b
unfolding block_count
upload_resumes d s f xs path cl i b known status ne h made num digests up unfinished k =
    let n = length xs / page_size + 1 in
    let (bs, init, numbered, count) = init_file-Numbered xs n 0 (omega arith) h in
    let blocks : block_count (length xs) ≡ n = ground arith in
    let built = file-file_of xs n bs blocks init in
    let same : cl ≡ file_of xs n bs = cc (made, built) in
    rw same (
      resumes_lem d s f xs path b n bs i known status built numbered count (omega arith)
        (rw same at num) (rw same at digests) up unfinished (rw same at k))
