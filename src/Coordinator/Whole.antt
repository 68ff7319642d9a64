-- ===== src/Coordinator/Whole.antt =====
-- A whole upload on one connection of the coordinator, from "upppload" to "success".
use mini_distributed_storage.Base.{
  ℕ, suc, ◌+◌, ◌/◌, ◌%◌, ◌^◌, ◌≤◌, ◌<◌, ◌≡◌, ◌≢◌, refl, ap, sym, ◌∙◌, true, false, some, List, [],
  ◌∷◌, ◌++◌, append_assoc, Bytes, codes, length, length-replicate, replicate, arith,
}
use mini_distributed_storage.Base.Loop.{Outcome, done, fault, out_of_fuel}
use mini_distributed_storage.Buffer
use mini_distributed_storage.Buffer.{Buffer, readable_bytes, retrieve}
use mini_distributed_storage.Wire.Pieces.{joined, begin_lem}
use mini_distributed_storage.Md5.{Digest, get_string_md5, length-get_string_md5}
use mini_distributed_storage.FileValue.{file_value}
use mini_distributed_storage.Fileproxy.{ls_file, add_file}
use mini_distributed_storage.Fileproxy.Lookup.{find-insert_self}
use mini_distributed_storage.Client.{
  File, BlockFile, page_size, block_count, file, send_fileinfo, send_file_block_md5info,
  send_file_block,
}
use mini_distributed_storage.Client.Messages.{stream, send_fileinfo-header}
use mini_distributed_storage.Client.Numbered.{Numbered, init_file-Numbered}
use mini_distributed_storage.Client.Tiles.{file_of, file-file_of}
use mini_distributed_storage.Upload.{Server, upstatu1, emit, to_all, base_name}
use mini_distributed_storage.Upload.Block.{Known}
use mini_distributed_storage.Upload.Header.{added}
use mini_distributed_storage.Upload.Marks.{Completed, forwards}
use mini_distributed_storage.Upload.Session.{prepared_lem, prepared, none_set}
use mini_distributed_storage.Upload.Stream.{
  pending, pending_some, Waiting, Expects-some, blocks_protocol, flat-stream,
}
use mini_distributed_storage.Coordinator.{
  Coordinator, State, up, on_connection, on_message, on_messages,
}
use mini_distributed_storage.Coordinator.Begin.{upload_begins_in}
use mini_distributed_storage.Coordinator.Pieces.{blocks_lem, digests_lem}

message_first :
    (d : Digest) (ms ys : List Bytes) (st' : State) (o : Outcome State)
    → ((st : State)
        → on_messages d st ms ≡ done st'
        → on_messages d st (ms ++ ys) ≡ on_messages d st' ys)
    → ◌≡◌ {A = Outcome State}
        (elim o [ done st ↦ on_messages d st ms | fault ↦ fault | out_of_fuel ↦ out_of_fuel ])
        (done st')
    → ◌≡◌ {A = Outcome State}
        (elim o [
          | done st ↦ on_messages d st (ms ++ ys)
          | fault ↦ fault
          | out_of_fuel ↦ out_of_fuel
        ])
        (on_messages d st' ys)
message_first d ms ys st' (done st) rec e = rec st e
message_first d ms ys st' fault rec e = cc e
message_first d ms ys st' out_of_fuel rec e = cc e

pub on_messages-append :
    (d : Digest) (ms ys : List Bytes) (st st' : State)
    → on_messages d st ms ≡ done st'
    → on_messages d st (ms ++ ys) ≡ on_messages d st' ys
unfolding on_messages
on_messages-append d [] ys st st' e = let same : st ≡ st' = cc e in rw same refl
on_messages-append d (m ∷ ms) ys (c, b) st' e =
    message_first d ms ys st' (on_message d (c, Buffer.read_fd b (some m)))
      (λ st h. on_messages-append d ms ys st st' h) e

joined-append : (ps qs : List Bytes) → joined (ps ++ qs) ≡ joined ps ++ joined qs
joined-append [] qs = refl
joined-append (p ∷ ps) qs =
    ap (λ zs. p ++ zs) (joined-append ps qs) ∙ sym (append_assoc p (joined ps) (joined qs))

-- The state when the header has come.
abbrev pub opened : Digest → Coordinator → File → Bytes → Server
opened d c cl path =
    added (emit (record c.server { up_statu = upstatu1 }) (to_all (codes "upppload"))) cl.block_num
      path (get_string_md5 d cl.content)

module _ (d : Digest) (c : Coordinator) (xs path : Bytes) (n : ℕ) (bs : List BlockFile) where
  -- With the blocks of the file.
  upload_lem :
      (k : ℕ) (digests blocks : List Bytes)
      → n ≡ suc k
      → n ≤ 2 ^ 26
      → length bs ≡ n
      → Numbered xs 0 bs
      → length path ≤ 2 ^ 31
      → ls_file c.server.g_file (base_name path) ≡ false
      → joined digests ≡ stream (send_file_block_md5info d xs bs)
      → joined blocks ≡ stream (send_file_block xs bs (replicate n false))
      → length path + length (joined digests) + length (joined blocks) < 2 ^ 62
      → (c' : Coordinator) × (b : Buffer) × (on_messages d
            (on_connection true c, Buffer.new)
            (codes "upppload"
              ∷ stream (send_fileinfo d (file_of xs n bs) path)
              ∷ (digests ++ blocks))
          ≡ done (c', b))
        × Completed
            (base_name path)
            ((opened d c (file_of xs n bs) path).sent ++ forwards d xs bs (replicate n false))
            (c'.server, b)
  unfolding add_file file_value
  upload_lem k digests blocks positive most count numbered short unknown e1 e2 room =
      let md5 = get_string_md5 d xs in
      let s1 = opened d c (file_of xs n bs) path in
      let flags = replicate n false in
      let (b1, begun, left1, size1) =
        upload_begins_in d c n path md5 (length-get_string_md5 d xs) short (omega (arith, most))
          unknown in
      let head = send_fileinfo-header d (file_of xs n bs) path in
      let c1 : Coordinator = record c { operate = up; server = s1 } in
      let v = prepared_lem d c.server xs path n bs md5 most count numbered in
      let (ps, b2, run2, none, left2, room2) =
        digests_lem d (stream (send_file_block_md5info d xs bs)) (file_value n md5) v.file c1 refl
          refl (find-insert_self c.server.g_file (base_name path) (file_value n md5)) v.size
          v.stored digests blocks b1 [] left1 e1 (omega (arith, v.size, positive))
          (omega (arith, size1, room)) in
      let s2 = prepared s1 v.file in
      let sent = s1.sent ++ forwards d xs bs flags in
      let known : Known s2 v.file = record {
        found = find-insert_self s1.g_file s1.g_file_name v.file;
        valid = v.valid;
        small = v.small;
      } in
      let same : length flags ≡ length bs = omega (arith, length-replicate n false, count) in
      let some_left = pending_some bs flags same (rw positive (none_set k)) in
      let waiting : Waiting d xs (base_name path) sent (pending bs flags) s2 = record {
        i = 0;
        bs = bs;
        flags = flags;
        file = v.file;
        known = known;
        status = refl;
        named = refl;
        announced = v.announced;
        synced = v.synced;
        same = same;
        items = refl;
        sums = refl;
      } in
      let all : joined (ps ++ blocks) ≡ joined blocks = joined-append ps blocks ∙ rw none refl in
      let cut =
        all
        ∙ e2
        ∙ sym
            (flat-stream d xs (base_name path) sent v.file.block_file_md5 0 bs flags v.announced) in
      let start =
        begin_lem (blocks_protocol d xs (base_name path) sent) (pending bs flags) (s2, b2)
          (joined (ps ++ blocks))
          (Expects-some d xs (base_name path) sent (pending bs flags) s2 b2 some_left waiting) left2
          cut (omega (arith, room2, ap length all)) in
      let (r, run3, ended, left3) =
        blocks_lem d xs (base_name path) sent (ps ++ blocks) (record c1 { server = s2 }) b2 refl
          start in
      let begun' = rw (← head) at begun in
      (
        record c1 { server = r.0 },
        r.1,
        on_messages-append d
              (codes "upppload" ∷ stream (send_fileinfo d (file_of xs n bs) path) ∷ [])
              (digests ++ blocks) (on_connection true c, Buffer.new) (c1, b1) begun'
            ∙ run2
            ∙ run3,
        record {
          status = ended.status;
          file = ended.file;
          found = ended.found;
          complete = ended.complete;
          told = ended.told;
          behind = left3;
        },
      )

-- A client connects to the coordinator and uploads a file whose size is below 2^31 and no multiple of
-- 2^20, under a path of at most 2^31 bytes whose name is not in the map; path, digests and blocks
-- have fewer than 2^62 bytes. "upppload" and the header arrive in one read each; what
-- `sendFileBlockMD5info` sends arrives in any pieces, and then, in other reads, what `sendFileBlock`
-- sends, in any pieces. Then the calls of `onMessage` return; the buffer is empty; every block of the file under its name is marked; behind
-- what the header made it send, the coordinator has sent each block, in order, with its digest, to the
-- storage server that the digest selects, and the client "success"; and the status is `upstatu4`.
pub upload-Completed :
    (d : Digest) (c : Coordinator) (xs path : Bytes) (cl : File) (digests blocks : List Bytes)
    → length xs % page_size ≢ 0
    → length xs < 2 ^ 31
    → file xs ≡ some cl
    → length path ≤ 2 ^ 31
    → ls_file c.server.g_file (base_name path) ≡ false
    → joined digests ≡ stream (send_file_block_md5info d cl.content cl.block_file_list)
    → joined blocks ≡ stream (send_file_block cl.content cl.block_file_list cl.upload_id)
    → length path + length (joined digests) + length (joined blocks) < 2 ^ 62
    → (c' : Coordinator) × (b : Buffer) × (on_messages d
          (on_connection true c, Buffer.new)
          (codes "upppload" ∷ stream (send_fileinfo d cl path) ∷ (digests ++ blocks))
        ≡ done (c', b))
      × Completed
          (base_name path)
          ((opened d c cl path).sent ++ forwards d cl.content cl.block_file_list cl.upload_id)
          (c'.server, b)
unfolding block_count
upload-Completed d c xs path cl digests blocks ne h made short unknown e1 e2 room =
    let n = length xs / page_size + 1 in
    let (bs, init, numbered, count) = init_file-Numbered xs n 0 (omega arith) h in
    let all : block_count (length xs) ≡ n = ground arith in
    let same : cl ≡ file_of xs n bs = cc (made, file-file_of xs n bs all init) in
    rw same (
      upload_lem d c xs path n bs (length xs / page_size) digests blocks (omega arith) (omega arith)
        count numbered short unknown (rw same at e1) (rw same at e2) room)
