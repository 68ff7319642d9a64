-- ===== src/Upload/Received.antt =====
-- The whole loop of `sendBlock`, from any buffer: the marks that it leaves are backed by messages to
-- the storage servers, and the status `upstatu4` means that the file is complete.
use mini_distributed_storage.Base.{
  ℕ, suc, ◌^◌, ◌<◌, ◌≡◌, refl, ◌∙◌, inl, inr, true, some, [], ◌∷◌, ◌++◌, Bytes, codes, length,
  arith,
}
use mini_distributed_storage.Base.Loop.{Round, Ends, RoundEnds, loop-Ends_or_fault}
use mini_distributed_storage.Buffer.{Buffer, peek, read_as_block, retrieve}
use mini_distributed_storage.Buffer.Valid
use mini_distributed_storage.Md5.{Digest}
use mini_distributed_storage.FileValue.{FileValue}
use mini_distributed_storage.FileValue.Flags.{IsValid, ls_file_finish_iff}
use mini_distributed_storage.Fileproxy.{find}
use mini_distributed_storage.Upload.{
  Server, State, reply, upstatu3, upstatu4, is_receiving, block_round, send_block,
}
use mini_distributed_storage.Upload.Steps.{Took, block_round_inv, Finished, check_finish_inv}
use mini_distributed_storage.Upload.Ending.{readable, HasBuffer, block_round-falls}
use mini_distributed_storage.Upload.Safety.{
  Going, Received, accept-Going, Forwarded-more, length-peek, length-read,
}

buffer-retrieve : (b : Buffer) (n : ℕ) → (retrieve b n).buffer ≡ b.buffer
unfolding retrieve
buffer-retrieve b n = refl

buffer-read :
    (b : Buffer) (n : ℕ) (r : Bytes × Buffer) → read_as_block b n ≡ some r → r.1.buffer ≡ b.buffer
unfolding read_as_block peek
buffer-read b n r e = ground arith

module _ (d : Digest) (k : Bytes) (f0 : FileValue) where
  -- A round that takes a block, up to the test for the last one.
  Took-Going :
      (s : Server) (b : Buffer) (t : Round State)
      → Going d k f0 (s, b)
      → (w : Took d s b t) → Going d k f0 (w.server, w.block.1)
  Took-Going s b t g w =
      let (long, inside) = length-read (retrieve (retrieve b 4) 4) w.size w.block w.read in
      let same : w.block.1.buffer ≡ b.buffer =
        buffer-read (retrieve (retrieve b 4) 4) w.size w.block w.read
        ∙ buffer-retrieve (retrieve b 4) 4
        ∙ buffer-retrieve b 4 in
      let limit : w.size < 2 ^ 62 =
        ground (arith, inside, g.bounded, buffer-retrieve (retrieve b 4) 4, buffer-retrieve b 4) in
      let h =
        accept-Going d k f0 s w.server b w.be32 w.size w.id w.block.0 g
          (length-peek b 4 w.be32 w.peeked) long limit w.accepts in
      record {
        name = h.name;
        status = h.status;
        bounded = rw same g.bounded;
        progress = h.progress;
      }

  -- A loop that ends without "success" leaves the status as it was.
  Going-Received : (st : State) → Going d k f0 st → Received d k f0 st.0
  Going-Received (s, b) g = record { progress = g.progress; complete = λ four. cc (g.status, four) }

  -- The end with "success".
  Finished-Received :
      (s : Server) (b : Buffer) (t : Round State)
      → f0.block_num < 2 ^ 31
      → Going d k f0 (s, b)
      → (e : Finished s b t)
      → Received d k f0 (record s {
        up_statu = upstatu4;
        sent = s.sent ++ reply (codes "success") ∷ [];
        g_file_name = [];
      })
  Finished-Received s b t small g e =
      let p = g.progress in
      let same : e.file ≡ p.file = cc (e.found, p.found, g.name) in
      let done' = rw same at e.complete in
      record {
        progress = record {
          file = p.file;
          found = p.found;
          valid = p.valid;
          same_num = p.same_num;
          same_md5s = p.same_md5s;
          backed = λ i up. elim (p.backed i up) [
            | inl was ↦ inl was
            | inr sent ↦ inr (Forwarded-more d f0 i s.sent (reply (codes "success") ∷ []) sent)
          ];
        };
        complete = λ four i h.
            (ls_file_finish_iff p.file p.valid (omega (arith, p.same_num))).0 done' i
              (omega (arith, p.same_num));
      }

  abbrev Running : State → Type 0
  Running st = HasBuffer st × Going d k f0 st

  abbrev Over : State → Type 0
  Over st = HasBuffer st × Received d k f0 st.0

  round-Received :
      f0.block_num < 2 ^ 31
      → (st : State) (t : Round State) → Running st
      → is_receiving st ≡ true
      → block_round d st ≡ some t
      → RoundEnds Running Over (Unit {0}) readable (readable st) (some t)
  round-Received small (s, b) t (v, g) more e =
      let falls = block_round-falls d (s, b) t v more e in
      elim (block_round_inv d s b t e) [
        | inl short ↦ rw short (v, Going-Received (s, b) g)
        | inr w ↦
            let g' = Took-Going s b t g w in
            elim (check_finish_inv w.server w.block.1 t w.ends) [
              | inl on ↦ let f = rw on at falls in rw on ((f.0, g'), f.1)
              | inr over ↦
                  let f = rw over.after at falls in
                  rw over.after (f, Finished-Received w.server w.block.1 t small g' over)
            ]
      ]

-- The coordinator receives blocks of the file `f0`, stored under the current name, from a client that
-- may send anything; the connection's buffer is valid and shorter than 2^62. If `sendBlock` returns,
-- the file is still in the map with its announced digests; every block marked now was marked before,
-- or a block with the announced digest was forwarded to the storage server of that digest; and if the
-- new status is `upstatu4`, the status with which the client is told "success", then every block of
-- the file is marked. The loop does not go on for ever, but it may fault.
pub send_block-Received :
    (d : Digest) (s : Server) (b : Buffer) (f0 : FileValue)
    → Valid.IsValid b
    → length b.buffer < 2 ^ 62
    → s.up_statu ≡ upstatu3
    → find s.g_file s.g_file_name ≡ some f0
    → IsValid f0
    → f0.block_num < 2 ^ 31
    → Ends (λ st. HasBuffer st × Received d s.g_file_name f0 st.0) (Unit {0}) (send_block d (s, b))
unfolding send_block
send_block-Received d s b f0 v limit status found valid small =
    loop-Ends_or_fault is_receiving (block_round d) (Running d s.g_file_name f0)
      (Over d s.g_file_name f0) readable (round-Received d s.g_file_name f0 small)
      (λ st p over. (p.0, Going-Received d s.g_file_name f0 st p.1)) (suc (readable (s, b))) (s, b)
      (omega arith)
      (
        v,
        record {
          name = refl;
          status = status;
          bounded = limit;
          progress = record {
            file = f0;
            found = found;
            valid = valid;
            same_num = refl;
            same_md5s = refl;
            backed = λ i up. inl up;
          };
        },
      )
