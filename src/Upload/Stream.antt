-- ===== src/Upload/Stream.antt =====
-- The blocks of an upload as a stream of messages for `sendBlock`, however they are cut.
use mini_distributed_storage.Base.{
  ℕ, suc, ◌+◌, ◌^◌, ◌≤◌, ◌<◌, ◌≡◌, ◌≢◌, refl, ap, sym, ◌∙◌, inl, inr, Bool, true, false, some, List,
  [], ◌∷◌, ◌++◌, append_assoc, append-nil, All, Bytes, codes, length, length-append, leb, add_size,
  Bool-cases, arith,
}
use mini_distributed_storage.Base.Loop.{stop, loop, loop-over}
use mini_distributed_storage.Buffer.{Buffer, readable_bytes}
use mini_distributed_storage.Buffer.Contents.{Holds, readable-length}
use mini_distributed_storage.Wire.{htonl, ntohl, ntohl-htonl, length-htonl}
use mini_distributed_storage.Wire.Pieces.{Took, front-Number, Protocol, flat}
use mini_distributed_storage.Md5.{Digest}
use mini_distributed_storage.FileValue.{FileValue, all_set}
use mini_distributed_storage.FileValue.Flags.{IsUploaded, size_of_int_lem}
use mini_distributed_storage.Fileproxy.{find}
use mini_distributed_storage.Client.{BlockFile, mapped, send_file_block, send_block_file}
use mini_distributed_storage.Client.Messages.{stream}
use mini_distributed_storage.Upload.{
  Server, State, Effect, reply, upstatu3, upstatu4, is_receiving, block_round, send_block,
  up_load_file,
}
use mini_distributed_storage.Upload.Block.{Known}
use mini_distributed_storage.Upload.Whole.{after_finish}
use mini_distributed_storage.Upload.Marks.{
  Announced, Synced, Synced-true, Synced-Marked, Synced-complete, finish-all_set, forwards,
  forwards_none,
}
use mini_distributed_storage.Upload.Blocks.{Arrived, arrives}

-- The blocks whose flag is not set.
unfoldable pub pending : List BlockFile → List Bool → List BlockFile
pending [] flags = []
pending (p ∷ bs) [] = []
pending (p ∷ bs) (true ∷ flags) = pending bs flags
pending (p ∷ bs) (false ∷ flags) = p ∷ pending bs flags

pending_none :
    (bs : List BlockFile) (flags : List Bool) → all_set flags ≡ true → pending bs flags ≡ []
unfolding pending all_set
pending_none [] flags h = refl
pending_none (p ∷ bs) [] h = refl
pending_none (p ∷ bs) (true ∷ flags) h = pending_none bs flags h
pending_none (p ∷ bs) (false ∷ flags) h = cc

pub pending_some :
    (bs : List BlockFile) (flags : List Bool)
    → length flags ≡ length bs
    → all_set flags ≡ false
    → pending bs flags ≢ []
unfolding pending all_set
pending_some [] [] e h = cc
pending_some [] (x ∷ flags) e h = absurd (omega (arith, e))
pending_some (p ∷ bs) [] e h = cc
pending_some (p ∷ bs) (true ∷ flags) e h = pending_some bs flags (omega (arith, e)) h
pending_some (p ∷ bs) (false ∷ flags) e h = λ none. cc none

module _ (d : Digest) (content : Bytes) where
  -- The message of a block.
  abbrev pub block_bytes : BlockFile → Bytes
  block_bytes p = htonl (length (mapped content p)) ++ (htonl p.id ++ mapped content p)

  length-block_bytes : (p : BlockFile) → length (block_bytes p) ≡ 8 + length (mapped content p)
  length-block_bytes p = omega (
    arith,
    length-append (htonl (length (mapped content p))) (htonl p.id ++ mapped content p),
    length-append (htonl p.id) (mapped content p),
    length-htonl (length (mapped content p)),
    length-htonl p.id,
  )

  pending_short :
      (md5s : List Bytes) (i : ℕ) (bs : List BlockFile) (flags : List Bool)
      → Announced d content md5s i bs
      → All (λ p. length (mapped content p) < 2 ^ 31) (pending bs flags)
  unfolding pending Announced
  pending_short md5s i [] flags a = tt
  pending_short md5s i (p ∷ bs) [] a = tt
  pending_short md5s i (p ∷ bs) (true ∷ flags) a = pending_short md5s (suc i) bs flags a.4
  pending_short md5s i (p ∷ bs) (false ∷ flags) a =
      (omega (arith, a.1, a.2), pending_short md5s (suc i) bs flags a.4)

  -- The client's blocks `xs` are expected under `name`; with what they give, `total` has been sent.
  pub record Waiting (name : Bytes) (total : List Effect) (xs : List BlockFile) (s : Server)
      : Type 0 where
    pub i : ℕ
    pub bs : List BlockFile
    pub flags : List Bool
    pub file : FileValue
    pub known : Known s file
    pub status : s.up_statu ≡ upstatu3
    pub named : s.g_file_name ≡ name
    pub announced : Announced d content file.block_file_md5 i bs
    pub synced : Synced file i flags
    pub same : length flags ≡ length bs
    pub items : pending bs flags ≡ xs
    pub sums : s.sent ++ forwards d content bs flags ≡ total

  -- The file under `name` is complete, and the client has been told so behind `total`.
  pub record Ended (name : Bytes) (total : List Effect) (s : Server) : Type 0 where
    pub status : s.up_statu ≡ upstatu4
    pub file : FileValue
    pub found : find s.g_file name ≡ some file
    pub complete : (j : ℕ) → j < file.block_num → IsUploaded file j
    pub told : s.sent ≡ total ++ reply (codes "success") ∷ []

  abbrev pub Expects : Bytes → List Effect → List BlockFile → State → Type 0
  Expects name total [] st = Ended name total st.0
  Expects name total (x ∷ xs) st = Waiting name total (x ∷ xs) st.0

  pub Expects-some :
      (name : Bytes) (total : List Effect) (xs : List BlockFile) (s : Server) (b : Buffer)
      → xs ≢ []
      → Waiting name total xs s
      → Expects name total xs (s, b)
  Expects-some name total [] s b some_left w = absurd (some_left refl)
  Expects-some name total (x ∷ xs) s b some_left w = w

  waits_block :
      (p : BlockFile) (s : Server) (b : Buffer) (held q : Bytes)
      → length (mapped content p) < 2 ^ 31
      → Holds b held
      → held ++ q ≡ block_bytes p
      → 4 ≤ length held
      → length held < length (block_bytes p)
      → block_round d (s, b) ≡ some (stop (s, b))
  unfolding block_round
  waits_block p s b held q small k e four short =
      let n = length (mapped content p) in
      let (rest, num) =
        front-Number b n held q (htonl p.id ++ mapped content p) (omega (arith, small)) k e four in
      let size : ntohl (htonl n) ≡ n = ground (arith, append-nil (htonl n), ntohl-htonl n []) in
      let same = size_of_int_lem n small in
      let over : leb (add_size 8 n) (readable_bytes b) ≡ false =
        ground (arith, readable-length k, length-block_bytes p, small) in
      rw (num.raw, size, same, over) refl

  ends_block :
      (name : Bytes) (total : List Effect) (s : Server) (b : Buffer) (i : ℕ) (f : FileValue)
      (p : BlockFile) (bs : List BlockFile) (flags : List Bool) (rest : Bytes)
      → s.up_statu ≡ upstatu3
      → s.g_file_name ≡ name
      → Known s f
      → Synced f i (false ∷ flags)
      → length flags ≡ length bs
      → s.sent ++ forwards d content (p ∷ bs) (false ∷ flags) ≡ total
      → (v : Arrived d content s f i b (mapped content p) rest)
      → Announced d content f.block_file_md5 (suc i) bs
      → Took
          (λ (st : State). st.1)
          (block_round d)
          (Expects name total)
          (pending bs flags)
          (s, b)
          rest
  unfolding forwards
  ends_block name total s b i f p bs flags rest status named known y same sums v a =
      let y' = Synced-Marked f v.file i flags y v.marked in
      let small : v.file.block_num < 2 ^ 31 = omega (arith, known.small, v.marked.same_num) in
      let finish = finish-all_set v.file (suc i) flags v.marked.valid small y' in
      let later = forwards d content bs flags in
      let sums' : v.server.sent ++ later ≡ total =
        rw v.sends (append_assoc s.sent (_ ∷ []) later ∙ sums) in
      elim (Bool-cases (all_set flags)) [
        | inl all ↦
            let none = pending_none bs flags all in
            let last : Ended name total (after_finish true v.server) = record {
              status = refl;
              file = v.file;
              found = rw (← named) v.stored;
              complete = Synced-complete v.file (suc i) flags y' all;
              told =
                  ap (λ es. es ++ reply (codes "success") ∷ [])
                    (sym (append-nil v.server.sent)
                      ∙ (rw (forwards_none d content bs flags all) at sums'));
            } in
            record {
              after = (after_finish true v.server, v.left);
              round = inr (rw (finish, all) at v.round, none);
              kept = rw none last;
              behind = v.behind;
              same_size = v.same_size;
            }
        | inr left ↦
            let known' : Known v.server v.file = record {
              found = rw v.stays.1 v.stored;
              valid = v.marked.valid;
              small = small;
            } in
            record {
              after = (v.server, v.left);
              round = inl (rw (finish, left) at v.round);
              kept =
                  Expects-some name total (pending bs flags) v.server v.left
                    (pending_some bs flags same left)
                    (record {
                      i = suc i;
                      bs = bs;
                      flags = flags;
                      file = v.file;
                      known = known';
                      status = v.stays.0 ∙ status;
                      named = v.stays.1 ∙ named;
                      announced = rw v.marked.same_md5s a;
                      synced = y';
                      same = same;
                      items = refl;
                      sums = sums';
                    });
              behind = v.behind;
              same_size = v.same_size;
            }
      ]

  -- `takes` without the first blocks whose flags are set.
  pub takes_block :
      (name : Bytes) (total : List Effect) (x : BlockFile) (xs : List BlockFile) (s : Server)
      (b : Buffer) (rest : Bytes) (i : ℕ) (f : FileValue) (bs : List BlockFile) (flags : List Bool)
      → s.up_statu ≡ upstatu3
      → s.g_file_name ≡ name
      → Known s f
      → Announced d content f.block_file_md5 i bs
      → Synced f i flags
      → length flags ≡ length bs
      → pending bs flags ≡ x ∷ xs
      → s.sent ++ forwards d content bs flags ≡ total
      → Holds b (block_bytes x ++ rest)
      → Took (λ (st : State). st.1) (block_round d) (Expects name total) xs (s, b) rest
  unfolding pending Announced forwards
  takes_block name total x xs s b rest i f [] flags status named known a y same items sums k = cc
  takes_block name total x xs s b rest i f (p ∷ bs) [] status named known a y same items sums k = cc
  takes_block name total x xs s b rest i f (p ∷ bs) (true ∷ flags) status named known a y same items
        sums k =
      takes_block name total x xs s b rest (suc i) f bs flags status named known a.4
        (Synced-true f i flags y) (omega (arith, same)) items sums k
  takes_block name total x xs s b rest i f (p ∷ bs) (false ∷ flags) status named known a y same
        items sums k =
      let this : x ≡ p = cc items in
      let others : xs ≡ pending bs flags = cc items in
      let block = mapped content p in
      let k' : Holds b (htonl (length block) ++ (htonl p.id ++ (block ++ rest))) =
        rw
          (
            append_assoc (htonl (length block)) (htonl p.id ++ block) rest,
            append_assoc (htonl p.id) block rest,
          )
          at (rw this at k) in
      let v = arrives d content s f i b p bs known (omega (arith, y.count)) a rest k' in
      rw others (
        ends_block name total s b i f p bs flags rest status named known y (omega (arith, same))
          sums v a.4)

  pub long_block : (p : BlockFile) → 4 ≤ length (block_bytes p)
  long_block p = omega (arith, length-block_bytes p)

  pub Expects-put :
      (name : Bytes) (total : List Effect) (xs : List BlockFile) (st : State) (b : Buffer)
      → Expects name total xs st
      → Expects name total xs (st.0, b)
  Expects-put name total [] st b h = h
  Expects-put name total (x ∷ xs) st b h = h

  pub asks_block :
      (name : Bytes) (total : List Effect) (xs : List BlockFile) (s : Server) (b : Buffer)
      → Waiting name total xs s
      → is_receiving (s, b) ≡ leb 4 (readable_bytes b)
  asks_block name total xs s b w = rw w.status refl

  pub over_block :
      (name : Bytes) (total : List Effect) (s : Server) (b : Buffer)
      → Ended name total s
      → is_receiving (s, b) ≡ false
  over_block name total s b e = rw e.status refl

  pub waits_front :
      (name : Bytes) (total : List Effect) (x : BlockFile) (xs : List BlockFile) (s : Server)
      (b : Buffer) (held q : Bytes)
      → Waiting name total (x ∷ xs) s
      → Holds b held
      → held ++ q ≡ block_bytes x
      → 4 ≤ length held
      → length held < length (block_bytes x)
      → block_round d (s, b) ≡ some (stop (s, b))
  waits_front name total x xs s b held q w k e four short =
      let small =
        rw w.items at (pending_short w.file.block_file_md5 w.i w.bs w.flags w.announced) in
      waits_block x s b held q small.0 k e four short

  -- `sendBlock` on the client's blocks.
  abbrev pub blocks_protocol : Bytes → List Effect → Protocol State BlockFile
  blocks_protocol name total = record {
    buf = λ st. st.1;
    put = λ st b. (st.0, b);
    test = is_receiving;
    body = block_round d;
    msg = block_bytes;
    Inv = Expects name total;
    buf-put = λ st b. refl;
    Inv-put = Expects-put name total;
    long = long_block;
    asks = λ x xs st w. asks_block name total (x ∷ xs) st.0 st.1 w;
    over = λ st e k. over_block name total st.0 st.1 e;
    waits = λ x xs st held q w k e four short.
        waits_front name total x xs st.0 st.1 held q w k e four short;
    takes = λ x xs st rest w k.
        takes_block name total x xs st.0 st.1 rest w.i w.file w.bs w.flags w.status w.named w.known
          w.announced w.synced w.same w.items w.sums k;
  }

  -- In the status of the stream, `upLoadFile` is the loop of `sendBlock`.
  pub up_load_file-loop :
      (name : Bytes) (total : List Effect) (xs : List BlockFile) (st : State)
      → Expects name total xs st
      → up_load_file d st st.0.up_statu
        ≡ loop is_receiving (block_round d) (suc (readable_bytes st.1)) st
  unfolding up_load_file send_block
  up_load_file-loop name total [] st e =
      ap (up_load_file d st) e.status
      ∙ sym (
          loop-over is_receiving (block_round d) (readable_bytes st.1) st
            (over_block name total st.0 st.1 e))
  up_load_file-loop name total (x ∷ xs) st w = ap (up_load_file d st) w.status

  -- The stream is what the client's `sendFileBlock` sends.
  pub flat-stream :
      (name : Bytes) (total : List Effect) (md5s : List Bytes) (i : ℕ) (bs : List BlockFile)
      (flags : List Bool)
      → Announced d content md5s i bs
      → flat (blocks_protocol name total) (pending bs flags)
        ≡ stream (send_file_block content bs flags)
  unfolding flat pending Announced stream send_file_block send_block_file
  flat-stream name total md5s i [] flags a = refl
  flat-stream name total md5s i (p ∷ bs) [] a = refl
  flat-stream name total md5s i (p ∷ bs) (true ∷ flags) a =
      flat-stream name total md5s (suc i) bs flags a.4
  flat-stream name total md5s i (p ∷ bs) (false ∷ flags) a =
      let block = mapped content p in
      let rest = stream (send_file_block content bs flags) in
      ap (λ zs. block_bytes p ++ zs) (flat-stream name total md5s (suc i) bs flags a.4)
      ∙ append_assoc (htonl (length block)) (htonl p.id ++ block) rest
      ∙ ap (λ zs. htonl (length block) ++ zs) (append_assoc (htonl p.id) block rest)
      ∙ ap (λ n. htonl n ++ (htonl p.id ++ (block ++ rest))) a.1
