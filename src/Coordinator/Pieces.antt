-- ===== src/Coordinator/Pieces.antt =====
-- The messages of a client that come in pieces: `onMessage` is called for each read, and the handlers
-- of the upload wait until a digest or a block is all there.
use mini_distributed_storage.Base.{
  ◌+◌, ◌*◌, ◌<◌, ◌≡◌, refl, ap, sym, ◌∙◌, some, List, [], ◌∷◌, ◌++◌, append_assoc, append-nil,
  Bytes, length, length-append, dec_lt, arith,
}
use mini_distributed_storage.Base.Loop.{done}
use mini_distributed_storage.Buffer
use mini_distributed_storage.Buffer.{Buffer, readable_bytes, retrieve}
use mini_distributed_storage.Buffer.Valid.{max_len}
use mini_distributed_storage.Buffer.Contents.{Holds, readable-length, read_fd-Holds}
use mini_distributed_storage.Buffer.Growth.{length-read_fd, length-retrieve}
use mini_distributed_storage.Wire.Pieces.{joined, cut_end, Between, piece_lem, all_taken}
use mini_distributed_storage.Md5.{Digest}
use mini_distributed_storage.FileValue
use mini_distributed_storage.FileValue.{FileValue}
use mini_distributed_storage.Fileproxy.{find}
use mini_distributed_storage.Upload
use mini_distributed_storage.Upload.{Effect, up_load_file, upstatu2}
use mini_distributed_storage.Upload.Stream.{Ended, Expects-put, blocks_protocol, up_load_file-loop}
use mini_distributed_storage.Upload.Session.{prepared, init_file_md5-waits, init_file_md5_lem}
use mini_distributed_storage.Coordinator.{Coordinator, up, with_server, on_message, on_messages}
use mini_distributed_storage.Coordinator.Begin.{on_messages-cons, on_messages-nil}

pub on_message-up :
    (d : Digest) (c : Coordinator) (b : Buffer)
    → c.operate ≡ up
    → on_message d (c, b) ≡ with_server c (up_load_file d (c.server, b) c.server.up_statu)
unfolding on_message
on_message-up d c b e = simp e

pub with_server-done :
    (c : Coordinator) (r : Upload.State)
    → with_server c (done r) ≡ done (record c { server = r.0 }, r.1)
unfolding with_server
with_server-done c r = refl

module _ (d : Digest) (content name : Bytes) (total : List Effect) where
  -- The blocks, from a state in which some of them are still expected.
  pub blocks_lem :
      (pieces : List Bytes) (c : Coordinator) (b : Buffer)
      → c.operate ≡ up
      → Between (blocks_protocol d content name total) (c.server, b) (joined pieces)
      → (r : Upload.State) × (on_messages d (c, b) pieces ≡ done (record c { server = r.0 }, r.1))
        × Ended d content name total r.0
        × Holds r.1 []
  blocks_lem [] c b e m =
      let (ended, left) = all_taken (blocks_protocol d content name total) (c.server, b) m in
      ((c.server, b), on_messages-nil d (c, b), ended, left)
  blocks_lem (p ∷ ps) c b e m =
      let (s, run, m') =
        piece_lem (blocks_protocol d content name total) (c.server, b) p (joined ps) m in
      let filled = Buffer.read_fd b (some p) in
      let loops =
        up_load_file-loop d content name total m.expected (c.server, filled)
          (Expects-put d content name total m.expected (c.server, b) filled m.kept) in
      let first : on_message d (c, filled) ≡ done (record c { server = s.0 }, s.1) =
        on_message-up d c filled e ∙ ap (with_server c) (loops ∙ run) ∙ with_server-done c s in
      let (r, later, ended, left) = blocks_lem ps (record c { server = s.0 }) s.1 e m' in
      (r, on_messages-cons d c b _ p ps first ∙ later, ended, left)

-- The digests, up to the piece that completes them.
pub digests_lem :
    (d : Digest) (md5s : Bytes) (f g : FileValue) (c : Coordinator)
    → c.operate ≡ up
    → c.server.up_statu ≡ upstatu2
    → find c.server.g_file c.server.g_file_name ≡ some f
    → length md5s ≡ 32 * f.block_num
    → FileValue.set_block_file_md5 f md5s ≡ some g
    → (pieces more : List Bytes) (b : Buffer) (held : Bytes) → Holds b held
    → held ++ joined pieces ≡ md5s
    → length held < length md5s
    → length b.buffer + length (joined pieces) + length (joined more) < max_len
    → (ps : List Bytes) × (b' : Buffer) × (on_messages d (c, b) (pieces ++ more)
        ≡ on_messages d (record c { server = prepared c.server g }, b') (ps ++ more))
      × (joined ps ≡ [])
      × Holds b' []
      × (length b'.buffer + length (joined more) < max_len)
unfolding up_load_file
digests_lem d md5s f g c e1 e2 found size stored [] more b held k cut short room =
    absurd (omega (arith, ap length (sym (append-nil held) ∙ cut), short))
digests_lem d md5s f g c e1 e2 found size stored (p ∷ ps) more b held k cut short room =
    let filled = Buffer.read_fd b (some p) in
    let sum = length-append p (joined ps) in
    let fits : length b.buffer + length p < max_len = omega (arith, sum, room) in
    let got : Holds filled (held ++ p) = rw k.holds at (read_fd-Holds b p k.valid fits) in
    let grown = length-read_fd b p k.valid fits in
    let cut' : (held ++ p) ++ joined ps ≡ md5s = append_assoc held p (joined ps) ∙ cut in
    elim (dec_lt (length (held ++ p)) (length md5s)) [
      | yes few ↦
          let waits =
            init_file_md5-waits c.server f filled found
              (omega (arith, readable-length got, few, size)) in
          let first : on_message d (c, filled) ≡ done (c, filled) =
            on_message-up d c filled e1
            ∙ ap (with_server c) (ap (up_load_file d (c.server, filled)) e2 ∙ waits)
            ∙ with_server-done c (c.server, filled) in
          let (qs, b', run, none, empty, room') =
            digests_lem d md5s f g c e1 e2 found size stored ps more filled (held ++ p) got cut' few
              (omega (arith, grown, sum, room)) in
          (qs, b', on_messages-cons d c b _ p (ps ++ more) first ∙ run, none, empty, room')
      | no all ↦
          let (whole, none) = cut_end (held ++ p) (joined ps) md5s cut' (omega (arith, all)) in
          let (run, left) =
            init_file_md5_lem c.server f g filled md5s [] found size stored
              (rw (append-nil md5s) (rw whole at got)) in
          let first : on_message d (c, filled)
              ≡ done (record c { server = prepared c.server g }, retrieve filled (length md5s)) =
            on_message-up d c filled e1
            ∙ ap (with_server c) (ap (up_load_file d (c.server, filled)) e2 ∙ run)
            ∙ with_server-done c (prepared c.server g, retrieve filled (length md5s)) in
          (
            ps,
            retrieve filled (length md5s),
            on_messages-cons d c b _ p (ps ++ more) first,
            none,
            left,
            omega (arith, length-retrieve filled (length md5s), grown, sum, room),
          )
    ]
