-- ===== src/Upload/Blocks.antt =====
-- A client's `sendFileBlock` and the coordinator's `sendBlock`, together: the blocks that the
-- coordinator does not have complete the file.
use mini_distributed_storage.Base.{
  ◌%◌, ◌+◌, append_assoc, ℕ, zero, suc, ◌^◌, ◌<◌, ◌≤◌, ◌≡◌, refl, ◌∙◌, inl, inr, true, false, Bool,
  some, List, [], ◌∷◌, ◌++◌, Bytes, length, if◌then◌else◌, arith, Bool-cases,
}
use mini_distributed_storage.Base.Loop.{done, next, stop, loop, loop-next, loop-stop}
use mini_distributed_storage.Buffer.{Buffer, readable_bytes}
use mini_distributed_storage.Buffer.Contents.{Holds, readable-length}
use mini_distributed_storage.Wire.{htonl}
use mini_distributed_storage.Wire.Frame.{parts_lem}
use mini_distributed_storage.Md5.{Digest, get_string_md5, convert_md5_to_int}
use mini_distributed_storage.FileValue
use mini_distributed_storage.FileValue.{FileValue, all_set}
use mini_distributed_storage.FileValue.Flags.{Marked, size_of_int_lem}
use mini_distributed_storage.Fileproxy.{find}
use mini_distributed_storage.Fileproxy.Lookup.{find-insert_self}
use mini_distributed_storage.Client.{BlockFile, mapped, send_file_block, send_block_file}
use mini_distributed_storage.Client.Messages.{stream}
use mini_distributed_storage.Upload.{Server, State, forward, upstatu3, is_receiving, block_round}
use mini_distributed_storage.Upload.Block.{
  block_message, Known, accepted, accept_block-accepted, taken_off, length-taken_off,
  block_round_lem,
}
use mini_distributed_storage.Upload.Whole.{after_finish, check_finish_lem}
use mini_distributed_storage.Upload.Marks.{
  Announced, Synced, Synced-true, Synced-Marked, Synced-complete, finish-all_set, Completed,
  sent_none, forwards, forwards_none,
}

module _ (d : Digest) (content : Bytes) where
  -- The bytes of the first block that is sent.
  sent_first :
      (b : BlockFile) (bs : List BlockFile) (flags : List Bool)
      → length (mapped content b) ≡ b.block_size
      → stream (send_file_block content (b ∷ bs) (false ∷ flags))
        ≡ htonl (length (mapped content b))
          ++ (htonl b.id ++ (mapped content b ++ stream (send_file_block content bs flags)))
  unfolding send_file_block send_block_file stream
  sent_first b bs flags e = rw e refl

  -- What a round has done with the block `i`.
  pub record Arrived (s : Server) (f : FileValue) (i : ℕ) (b : Buffer) (block rest : Bytes)
      : Type 0 where
    pub file : FileValue
    pub server : Server
    pub left : Buffer
    pub marked : Marked f file i
    pub stays : (server.up_statu ≡ s.up_statu) × (server.g_file_name ≡ s.g_file_name)
    pub stored : find server.g_file s.g_file_name ≡ some file
    pub sends :
        server.sent
        ≡ s.sent
          ++ forward
              (convert_md5_to_int (get_string_md5 d block) % 3)
              (block_message (get_string_md5 d block) block)
            ∷ []
    pub round :
        block_round d (s, b)
        ≡ some (
            if FileValue.ls_file_finish file
            then stop (after_finish true server, left)
            else next (server, left))
    pub behind : Holds left rest
    pub long : 4 ≤ readable_bytes b
    pub shorter : readable_bytes left < readable_bytes b
    pub same_size : length left.buffer ≡ length b.buffer

  pub arrives :
      (s : Server) (f : FileValue) (i : ℕ) (b : Buffer) (p : BlockFile) (bs : List BlockFile)
      → Known s f
      → i < f.block_num
      → Announced d content f.block_file_md5 i (p ∷ bs)
      → (rest : Bytes)
      → Holds b (htonl (length (mapped content p)) ++ (htonl p.id ++ (mapped content p ++ rest)))
      → Arrived s f i b (mapped content p) rest
  unfolding Announced FileValue.get_block_file_md5
  arrives s f i b p bs known below a rest k =
      let block = mapped content p in
      let short : 36 + length block < 2 ^ 31 = omega (arith, a.1, a.2) in
      let digest : FileValue.get_block_file_md5 f i ≡ some (get_string_md5 d block) =
        rw (size_of_int_lem i (omega (arith, known.small))) a.3 in
      let (g, stored, marked) = accept_block-accepted d s f known i block below short digest in
      let parts = rw a.0 at k in
      let q = parts_lem b i block rest (omega (arith, short)) (omega (arith, known.small)) parts in
      let s1 = accepted d s f known i block g in
      let (round, behind) = block_round_lem d s s1 b i block rest q (omega (arith, short)) stored in
      let c = taken_off b block in
      let found = find-insert_self s.g_file s.g_file_name g in
      record {
        file = g;
        server = s1;
        left = c;
        marked = marked;
        stays = (refl, refl);
        stored = found;
        sends = refl;
        round = round ∙ check_finish_lem s1 c g found;
        behind = behind;
        long = omega (arith, q.here);
        shorter = omega (arith, q.here, readable-length behind);
        same_size = length-taken_off b block;
      }

  -- From a state in which the blocks before `i` are marked.
  unfoldable pub Uploads : ℕ → List BlockFile → Type 0
  Uploads i bs =
      (fuel : ℕ) (flags : List Bool) (s : Server) (f : FileValue) (b : Buffer)
      → Known s f
      → s.up_statu ≡ upstatu3
      → Announced d content f.block_file_md5 i bs
      → Synced f i flags
      → length flags ≡ length bs
      → all_set flags ≡ false
      → Holds b (stream (send_file_block content bs flags))
      → readable_bytes b < fuel
      → (r : State) × (loop is_receiving (block_round d) fuel (s, b) ≡ done r)
        × Completed s.g_file_name (s.sent ++ forwards d content bs flags) r

  pub uploads_lem : (i : ℕ) (bs : List BlockFile) → Uploads i bs
  unfolding Uploads Announced all_set send_file_block forwards
  uploads_lem i [] fuel [] s f b known status a y same some_left k enough = cc
  uploads_lem i [] fuel (x ∷ flags) s f b known status a y same some_left k enough =
      absurd (omega (arith, same))
  uploads_lem i (p ∷ bs) fuel [] s f b known status a y same some_left k enough = cc
  uploads_lem i (p ∷ bs) fuel (true ∷ flags) s f b known status a y same some_left k enough =
      uploads_lem (suc i) bs fuel flags s f b known status a.4 (Synced-true f i flags y)
        (omega (arith, same)) some_left k enough
  uploads_lem i (p ∷ bs) zero (false ∷ flags) s f b known status a y same some_left k enough =
      absurd (omega (arith, enough))
  uploads_lem i (p ∷ bs) (suc fuel) (false ∷ flags) s f b known status a y same some_left k enough =
      let front = rw (sent_first p bs flags a.1) at k in
      let v =
        arrives s f i b p bs known (omega (arith, y.count)) a
          (stream (send_file_block content bs flags)) front in
      let y' = Synced-Marked f v.file i flags y v.marked in
      let small : v.file.block_num < 2 ^ 31 = omega (arith, known.small, v.marked.same_num) in
      let finish = finish-all_set v.file (suc i) flags v.marked.valid small y' in
      let more : is_receiving (s, b) ≡ true = rw status (ground (arith, v.long)) in
      elim (Bool-cases (all_set flags)) [
        | inl all ↦ (
          (after_finish true v.server, v.left),
          loop-stop is_receiving (block_round d) fuel (s, b) more (rw (finish, all) at v.round),
          record {
            status = refl;
            file = v.file;
            found = v.stored;
            complete = Synced-complete v.file (suc i) flags y' all;
            told = rw (forwards_none d content bs flags all, v.sends) refl;
            behind = rw (sent_none content bs flags all) at v.behind;
          },
        )
        | inr left ↦
            let known' : Known v.server v.file = record {
              found = rw v.stays.1 v.stored;
              valid = v.marked.valid;
              small = small;
            } in
            let (r, run, end) =
              uploads_lem (suc i) bs fuel flags v.server v.file v.left known' (v.stays.0 ∙ status)
                (rw v.marked.same_md5s a.4) y' (omega (arith, same)) left v.behind
                (omega (arith, v.shorter, enough)) in
            (
              r,
              loop-next is_receiving (block_round d) fuel (s, b) more (rw (finish, left) at v.round)
                  ∙ run,
              rw (v.stays.1, v.sends, append_assoc s.sent (_ ∷ []) (forwards d content bs flags)) at
                  end,
            )
      ]
