-- ===== src/Upload/Whole.antt =====
-- `sendBlock` on one whole block that is accepted.
use mini_distributed_storage.Base.{
  ℕ, ◌+◌, suc, ◌^◌, ◌<◌, ◌≡◌, ◌∙◌, true, false, Bool, some, [], ◌∷◌, ◌++◌, Bytes, codes, length,
  if◌then◌else◌, arith,
}
use mini_distributed_storage.Base.Loop.{done, next, stop, loop, loop-next, loop-stop, loop_done}
use mini_distributed_storage.Buffer.{Buffer, readable_bytes}
use mini_distributed_storage.Buffer.Contents.{Holds, readable-length}
use mini_distributed_storage.Wire.{htonl}
use mini_distributed_storage.Wire.Frame.{parts_lem}
use mini_distributed_storage.Md5.{Digest, get_string_md5}
use mini_distributed_storage.FileValue
use mini_distributed_storage.FileValue.{FileValue}
use mini_distributed_storage.FileValue.Flags.{Marked}
use mini_distributed_storage.Fileproxy
use mini_distributed_storage.Fileproxy.{find, insert}
use mini_distributed_storage.Fileproxy.Lookup.{find-insert_self}
use mini_distributed_storage.Upload.{
  Server, State, reply, upstatu3, upstatu4, is_receiving, check_finish, block_round, send_block,
}
use mini_distributed_storage.Upload.Block.{
  Known, accepted, accept_block-accepted, taken_off, block_round_lem,
}

-- The state after the test for the last block: with `true` the file is complete.
abbrev pub after_finish : Bool → Server → Server
after_finish finished s =
    if finished
    then record s {
      up_statu = upstatu4;
      sent = s.sent ++ reply (codes "success") ∷ [];
      g_file_name = [];
    }
    else s

pub check_finish_lem :
    (s : Server) (b : Buffer) (g : FileValue)
    → find s.g_file s.g_file_name ≡ some g
    → check_finish s b
      ≡ some (if FileValue.ls_file_finish g then stop (after_finish true s, b) else next (s, b))
unfolding check_finish Fileproxy.ls_file_finish
check_finish_lem s b g e = rw e

-- A last round of the loop, whichever way the test goes.
last_round :
    (d : Digest) (st : State) (s : Server) (c : Buffer) (finished : Bool) (fuel : ℕ)
    → 0 < fuel
    → is_receiving st ≡ true
    → is_receiving (s, c) ≡ false
    → block_round d st ≡ some (if finished then stop (after_finish true s, c) else next (s, c))
    → loop is_receiving (block_round d) (suc fuel) st ≡ done (after_finish finished s, c)
last_round d st s c true fuel pos more over e =
    loop-stop is_receiving (block_round d) fuel st more e
last_round d st s c false fuel pos more over e =
    loop-next is_receiving (block_round d) fuel st more e
    ∙ loop_done is_receiving (block_round d) fuel (s, c) pos over

module _ (d : Digest) (s : Server) (f : FileValue) (known : Known s f) (id : ℕ) (block : Bytes)
    (b : Buffer) where
  -- The coordinator knows the file, valid and of fewer than 2^31 blocks, and waits for blocks; the
  -- client sends the block `id` of the file, and no more than three bytes behind it; the block has
  -- the digest that was announced for `id`, and is shorter than 2^31 - 36. Then `sendBlock` returns: the
  -- storage server that the digest selects is sent the message of the block, the id is marked, and
  -- if that was the last one the client is told "success" and the upload is over.
  pub send_block-accepted :
      s.up_statu ≡ upstatu3
      → id < f.block_num
      → 36 + length block < 2 ^ 31
      → FileValue.get_block_file_md5 f id ≡ some (get_string_md5 d block)
      → (rest : Bytes) → length rest < 4
      → Holds b (htonl (length block) ++ (htonl id ++ (block ++ rest)))
      → (g : FileValue) × (c : Buffer) × (send_block d (s, b)
          ≡ done (after_finish (FileValue.ls_file_finish g) (accepted d s f known id block g), c))
        × Marked f g id
        × Holds c rest
  unfolding send_block
  send_block-accepted status h l e rest short k =
      let (g, stored, marked) = accept_block-accepted d s f known id block h l e in
      let p = parts_lem b id block rest (omega arith) (omega (arith, known.small)) k in
      let s1 = accepted d s f known id block g in
      let (round, behind) = block_round_lem d s s1 b id block rest p (omega (arith, l)) stored in
      let c = taken_off b block in
      let test = check_finish_lem s1 c g (find-insert_self s.g_file s.g_file_name g) in
      let more : is_receiving (s, b) ≡ true = rw status (ground (arith, p.here)) in
      let over : is_receiving (s1, c) ≡ false =
        rw status (ground (arith, readable-length behind)) in
      (
        g,
        c,
        last_round d (s, b) s1 c (FileValue.ls_file_finish g) (readable_bytes b)
            (omega (arith, p.here)) more over (round ∙ test),
        marked,
        behind,
      )
