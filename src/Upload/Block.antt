-- ===== src/Upload/Block.antt =====
-- What a round of `sendBlock` does with a whole block: the length, the id and the bytes.
use mini_distributed_storage.Base.{
  ℕ, ◌+◌, ◌%◌, ◌^◌, ◌<◌, ◌≤◌, ◌≡◌, refl, ◌∙◌, ap, ◌≢◌, true, false, some, [], ◌∷◌, ◌++◌, Bytes,
  length, leb, length-append, take_all, append-nil, add_size, size_of_int, arith, bytes_eq,
  bytes_eq_iff, bytes_eq_refl, ltb, >>=-eq-some,
}
use mini_distributed_storage.Buffer
use mini_distributed_storage.Buffer.{Buffer, readable_bytes, retrieve, read_as_string}
use mini_distributed_storage.Buffer.Valid.{new-IsValid}
use mini_distributed_storage.Buffer.Contents.{
  Holds, new-Holds, Holds-append, reader-append, prepend_lem, read_as_string_lem,
}
use mini_distributed_storage.Buffer.Growth.{length-retrieve}
use mini_distributed_storage.Buffer.Queue.{writer-append}
use mini_distributed_storage.Wire.{htonl, ntohl, ntohl-htonl, length-htonl}
use mini_distributed_storage.Wire.Frame.{Parts}
use mini_distributed_storage.Md5.{Digest, get_string_md5, length-get_string_md5, convert_md5_to_int}
use mini_distributed_storage.FileValue
use mini_distributed_storage.FileValue.{FileValue}
use mini_distributed_storage.FileValue.Flags.{
  IsValid, Marked, set_upload_id-Marked, size_of_int_lem,
}
use mini_distributed_storage.Fileproxy
use mini_distributed_storage.Fileproxy.{Fileproxy, find, insert}
use mini_distributed_storage.Upload.{
  Server, forward, storage_frame, store_block, accept_block, take_block, check_finish, block_round,
}

-- A message with the digest and the bytes of a block, as the storage servers take it.
abbrev pub block_message : Bytes → Bytes → Bytes
block_message md5 block = htonl (length block) ++ (md5 ++ block)

-- The length that is computed is an `int`.
pub storage_frame-int :
    (be32 md5 block frame : Bytes) (size : ℕ)
    → storage_frame be32 md5 block size ≡ some frame
    → 36 + size < 2 ^ 31
unfolding storage_frame
storage_frame-int be32 md5 block frame size e =
    let (buf, e1, rest1) =
      >>=-eq-some (Buffer.prepend (Buffer.append (Buffer.append Buffer.new md5) block) be32) _ e in
    let (data', e2, rest2) = >>=-eq-some (read_as_string buf) _ rest1 in ground (arith, rest2)

-- `Buf` holds the digest and the block, and has room in front for the four bytes of the length.
pub storage_frame_lem :
    (be32 md5 block : Bytes)
    → length be32 ≡ 4
    → length md5 ≡ 32
    → 36 + length block < 2 ^ 31
    → storage_frame be32 md5 block (length block) ≡ some (be32 ++ (md5 ++ block))
unfolding storage_frame
storage_frame_lem be32 md5 block four l h =
    let b1 = Holds-append md5 new-Holds (omega arith) in
    let w1 = writer-append Buffer.new md5 new-IsValid (omega arith) in
    let b2 = Holds-append block b1 (omega (arith, w1)) in
    let r2 =
      reader-append (Buffer.append Buffer.new md5) block (reader-append Buffer.new md5 refl) in
    let (c, e, b3) = prepend_lem b2 be32 (omega (arith, r2)) in
    let sizes : length (be32 ++ (md5 ++ block)) ≤ 4 + 32 + length block =
      omega (arith, length-append be32 (md5 ++ block), length-append md5 block) in
    let fits : ltb (4 + 32 + length block) (2 ^ 31) ≡ true = ground (arith, h) in
    rw (e, read_as_string_lem b3, fits)
      (ap some (take_all (4 + 32 + length block) (be32 ++ (md5 ++ block)) sizes))

-- What the coordinator knows of the file that is being uploaded.
pub record Known (s : Server) (f : FileValue) : Type 0 where
  pub found : find s.g_file s.g_file_name ≡ some f
  pub valid : IsValid f
  pub small : f.block_num < 2 ^ 31

module _ (d : Digest) (s : Server) (f : FileValue) (known : Known s f) (id : ℕ)
    (block : Bytes) where
  abbrev md5 : Bytes
  md5 = get_string_md5 d block

  -- The state after a block that is accepted, `g` being the file with the new mark.
  abbrev pub accepted : FileValue → Server
  accepted g = record s {
    g_file = insert s.g_file s.g_file_name g;
    sent = s.sent ++ forward (convert_md5_to_int md5 % 3) (block_message md5 block) ∷ [];
  }

  -- A block with the digest that the client announced for its id goes, with its digest, to the storage
  -- server that the digest selects, and the id is marked as uploaded.
  pub accept_block-accepted :
      id < f.block_num
      → 36 + length block < 2 ^ 31
      → FileValue.get_block_file_md5 f id ≡ some md5
      → (g : FileValue) × (accept_block d s (htonl (length block)) (length block) id block
          ≡ some (accepted g))
        × Marked f g id
  unfolding accept_block store_block Fileproxy.get_block_file_md5 Fileproxy.set_file_upload_id
  accept_block-accepted h l e =
      let (g, marks, m) = set_upload_id-Marked f id known.valid h (omega (arith, known.small)) in
      (
        g,
        rw (
          known.found,
          e,
          bytes_eq_refl md5,
          storage_frame_lem (htonl (length block)) md5 block (length-htonl (length block))
              (length-get_string_md5 d block) l,
          marks,
        ),
        m,
      )

  -- A block with another digest than the one announced for its id, in a file that the coordinator
  -- knows, is dropped: nothing is sent, and nothing marked.
  pub accept_block-rejected :
      (be32 : Bytes) (expected : Bytes)
      → FileValue.get_block_file_md5 f id ≡ some expected
      → md5 ≢ expected
      → accept_block d s be32 (length block) id block ≡ some s
  unfolding accept_block Fileproxy.get_block_file_md5
  accept_block-rejected be32 expected e ne =
      let differ : bytes_eq md5 expected ≡ false = ground (arith, bytes_eq_iff md5 expected) in
      rw (known.found, e, differ)

-- The buffer behind a block and its two numbers.
abbrev pub taken_off : Buffer → Bytes → Buffer
taken_off b block = retrieve (retrieve (retrieve b 4) 4) (length block)

pub length-taken_off :
    (b : Buffer) (block : Bytes) → length (taken_off b block).buffer ≡ length b.buffer
length-taken_off b block =
    length-retrieve (retrieve (retrieve b 4) 4) (length block)
    ∙ length-retrieve (retrieve b 4) 4
    ∙ length-retrieve b 4

-- A round on a whole block takes it off the buffer, and ends with the test for the last block.
pub block_round_lem :
    (d : Digest) (s s' : Server) (b : Buffer) (id : ℕ) (block rest : Bytes)
    → Parts b id block rest
    → length block < 2 ^ 31
    → accept_block d s (htonl (length block)) (length block) id block ≡ some s'
    → (block_round d (s, b) ≡ check_finish s' (taken_off b block)) × Holds (taken_off b block) rest
unfolding block_round take_block
block_round_lem d s s' b id block rest p h e =
    let size : ntohl (htonl (length block)) ≡ length block =
      ground (arith, append-nil (htonl (length block)), ntohl-htonl (length block) []) in
    let same : size_of_int (length block) ≡ length block = size_of_int_lem (length block) h in
    let fits : leb (add_size 8 (length block)) (readable_bytes b) ≡ true = ground (arith, p.here) in
    (rw (p.raw, size, same, fits, p.number, p.block.taken, e), p.block.behind)
