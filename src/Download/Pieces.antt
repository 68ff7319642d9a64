-- ===== src/Download/Pieces.antt =====
-- The files that a storage server sends back, in whatever pieces they arrive, on their way through
-- `downLoadFileFromStorage` to the client.
use mini_distributed_storage.Base.{
  ℕ, suc, ◌+◌, ◌<◌, ◌≡◌, refl, ap, sym, ◌∙◌, Bool, true, false, Option, some, List, [], ◌∷◌, ◌++◌,
  append_assoc, append-nil, All, Bytes, codes, length, leb, Bool-cases, inl, inr, arith,
}
use mini_distributed_storage.Base.Loop.{done, loop_done}
use mini_distributed_storage.Buffer
use mini_distributed_storage.Buffer.{Buffer, readable_bytes, retrieve, read_as_block}
use mini_distributed_storage.Buffer.Valid.{max_len}
use mini_distributed_storage.Buffer.Contents.{Holds, read_fd-Holds}
use mini_distributed_storage.Buffer.Growth.{length-retrieve, length-read_fd}
use mini_distributed_storage.Wire.{htonl}
use mini_distributed_storage.Wire.Frame.{body_lem}
use mini_distributed_storage.Wire.Pieces.{flat, Between, begin_lem, piece_lem, all_taken, joined}
use mini_distributed_storage.Md5.{Digest}
use mini_distributed_storage.Fileproxy.{Fileproxy}
use mini_distributed_storage.Upload.{Effect, forward}
use mini_distributed_storage.Download.{
  Download, downstatu2, downstatu3, has_number, file_name, resv_round, resv_block_file,
  call_backfunc, on_readable, thread_turns, send_download, send_file_name,
  download_file_from_storage,
}
use mini_distributed_storage.Download.Blocks.{Empty}
use mini_distributed_storage.Download.Files.{
  Stored, Fits, stored_message, stored_messages, deliveries, Expects, files_protocol,
}

-- The turns of the loop in which the pieces arrive.
abbrev pub reads : List Bytes → List (Bool × Option Bytes)
reads [] = []
reads (p ∷ ps) = (true, some p) ∷ reads ps

module _ (d : Digest) (files : Fileproxy) where
  sent_all : (total : List Effect) (w : Download) → Expects d files total [] w → w.sent ≡ total
  unfolding deliveries
  sent_all total w e = sym (append-nil w.sent) ∙ e.sums

  flat_lem :
      (total : List Effect) (xs : List Stored)
      → flat (files_protocol d files total) xs ≡ stored_messages xs
  unfolding flat stored_messages
  flat_lem total [] = refl
  flat_lem total (x ∷ xs) = ap (λ zs. stored_message x ++ zs) (flat_lem total xs)

  on_readable-resv :
      (k : ℕ) (taken : Bool) (piece : Option Bytes) (w : Download)
      → w.down_statu ≡ downstatu3
      → let filled : Download = record w { buf = Buffer.read_fd w.buf piece } in
        on_readable d files k taken piece w ≡ resv_block_file d files filled
  unfolding on_readable call_backfunc resv_block_file
  on_readable-resv k taken piece w e =
      let filled : Download = record w { buf = Buffer.read_fd w.buf piece } in
      elim (Bool-cases (leb 1 (readable_bytes filled.buf))) [
        | inl some_bytes ↦ simp (some_bytes, e)
        | inr nothing ↦
            let over : has_number filled ≡ false = ground (arith, nothing) in
            rw nothing (
              sym (
                loop_done has_number (resv_round d files) (suc (readable_bytes filled.buf)) filled
                  (omega arith) over))
      ]

  thread_turns_lem :
      (k : ℕ) (total : List Effect) (pieces : List Bytes) (w : Download)
      → Between (files_protocol d files total) w (joined pieces)
      → (w' : Download) × (thread_turns d files k (reads pieces) w ≡ done w')
        × Expects d files total [] w'
        × Holds w'.buf []
  unfolding thread_turns resv_block_file
  thread_turns_lem k total [] w m =
      let (e, left) = all_taken (files_protocol d files total) w m in (w, refl, e, left)
  thread_turns_lem k total (p ∷ ps) w m =
      let (w1, run, m1) = piece_lem (files_protocol d files total) w p (joined ps) m in
      let (w2, later, e, left) = thread_turns_lem k total ps w1 m1 in
      let first = on_readable-resv k true (some p) w m.kept.status ∙ run in
      (w2, rw (first, thread_turns) later, e, left)

  on_readable-asked :
      (k : ℕ) (w : Download)
      → w.down_statu ≡ downstatu2
      → Holds (Buffer.read_fd w.buf (some (codes "down ack"))) (codes "down ack")
      → on_readable d files k true (some (codes "down ack")) w
        ≡ done (record w {
          buf = retrieve (Buffer.read_fd w.buf (some (codes "down ack"))) 8;
          sent = w.sent ++ forward k (htonl 11) ∷ forward k file_name ∷ [];
          down_statu = downstatu3;
        })
  unfolding on_readable call_backfunc send_file_name
  on_readable-asked k w e h =
      let body = body_lem _ (codes "down ack") [] h in
      let some_bytes : leb 1 (readable_bytes (Buffer.read_fd w.buf (some (codes "down ack"))))
          ≡ true =
        ground (arith, body.available) in
      let all : leb 8 (readable_bytes (Buffer.read_fd w.buf (some (codes "down ack")))) ≡ true =
        ground (arith, body.available) in
      simp (some_bytes, e, all, body.taken)

  -- A storage server answers "down ack", and the messages of files, whose names have 36 characters
  -- and whose sizes are below 2^32, arrive in any pieces. Then the thread has asked for the file
  -- and sent the client, if "kvmap_2.txt" is in the map, for each file whose name begins with the
  -- digest of its bytes and for no other, in order, its size and its bytes, and nothing if
  -- "kvmap_2.txt" is not in the map; its buffer and `Bloc` are empty.
  pub download_file-deliveries :
      (k : ℕ) (xs : List Stored) (pieces : List Bytes) (w : Download)
      → All Fits xs
      → Holds w.buf []
      → Empty w.bloc
      → joined pieces ≡ stored_messages xs
      → length w.buf.buffer + 8 + length (joined pieces) < max_len
      → (w' : Download) × (download_file_from_storage d files k
            ((true, some (codes "down ack")) ∷ reads pieces)
            w
          ≡ done w')
        × (w'.sent
            ≡ w.sent
              ++ forward k (codes "download")
                ∷ forward k (htonl 11)
                ∷ forward k file_name
                ∷ deliveries d files xs)
        × Holds w'.buf []
        × Empty w'.bloc
  unfolding download_file_from_storage thread_turns send_download
  download_file-deliveries k xs pieces w fit k0 empty cut room =
      let w0 = send_download k w in
      let hello = codes "down ack" in
      let w1 : Download = record w0 {
        buf = retrieve (Buffer.read_fd w.buf (some hello)) 8;
        sent = w0.sent ++ forward k (htonl 11) ∷ forward k file_name ∷ [];
        down_statu = downstatu3;
      } in
      let total = w1.sent ++ deliveries d files xs in
      let h = rw k0.holds at (read_fd-Holds w.buf hello k0.valid (omega (arith, room))) in
      let body = body_lem _ hello [] h in
      let grown = length-read_fd w.buf hello k0.valid (omega (arith, room)) in
      let same = length-retrieve (Buffer.read_fd w.buf (some hello)) 8 in
      let start =
        begin_lem (files_protocol d files total) xs w1 (joined pieces)
          (record { fit = fit; empty = empty; status = refl; sums = refl }) body.behind
          (cut ∙ sym (flat_lem total xs)) (omega (arith, room, grown, same)) in
      let (w', run, e, left) = thread_turns_lem k total pieces w1 start in
      (
        w',
        rw (on_readable-asked k w0 refl h, thread_turns) run,
        sent_all total w' e ∙ simp append_assoc,
        left,
        e.empty,
      )
