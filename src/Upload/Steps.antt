-- ===== src/Upload/Steps.antt =====
-- What a round of `sendBlock` that succeeds has read and done, whatever the buffer held.
use mini_distributed_storage.Base.{
  ℕ, ◌%◌, ◌≡◌, refl, ◌⊎◌, inl, inr, true, some, [], ◌∷◌, ◌++◌, Bytes, codes, bytes_eq, bytes_eq_iff,
  leb, add_size, size_of_int, >>=-eq-some, Bool-cases, arith,
}
use mini_distributed_storage.Base.Loop.{Round, next, stop}
use mini_distributed_storage.Buffer
use mini_distributed_storage.Buffer.{Buffer, readable_bytes, retrieve, read_as_block}
use mini_distributed_storage.Wire.{ntohl, peek_be32}
use mini_distributed_storage.Md5.{Digest, get_string_md5, convert_md5_to_int}
use mini_distributed_storage.FileValue
use mini_distributed_storage.FileValue.{FileValue, set_upload_id}
use mini_distributed_storage.Fileproxy
use mini_distributed_storage.Fileproxy.{Fileproxy, find, insert, with_file}
use mini_distributed_storage.Upload.{
  Server, State, upstatu4, reply, forward, storage_frame, store_block, accept_block, check_finish,
  take_block, block_round,
}

-- A block was accepted: file, marked file and message.
pub record Accepted (d : Digest) (s s' : Server) (be32 : Bytes) (size id : ℕ) (block : Bytes)
    : Type 0 where
  pub old : FileValue
  pub new : FileValue
  pub frame : Bytes
  pub found : find s.g_file s.g_file_name ≡ some old
  pub matches : FileValue.get_block_file_md5 old id ≡ some (get_string_md5 d block)
  pub framed : storage_frame be32 (get_string_md5 d block) block size ≡ some frame
  pub marked : set_upload_id old id ≡ some new
  pub after : s' ≡ record s {
    g_file = insert s.g_file s.g_file_name new;
    sent = s.sent ++ forward (convert_md5_to_int (get_string_md5 d block) % 3) frame ∷ [];
  }

store_block_inv :
    (d : Digest) (s s' : Server) (be32 : Bytes) (size id : ℕ) (block : Bytes) (old : FileValue)
    → find s.g_file s.g_file_name ≡ some old
    → FileValue.get_block_file_md5 old id ≡ some (get_string_md5 d block)
    → store_block s be32 size id block (get_string_md5 d block) ≡ some s'
    → Accepted d s s' be32 size id block
unfolding store_block Fileproxy.set_file_upload_id
store_block_inv d s s' be32 size id block old found matches e =
    let md5 = get_string_md5 d block in
    let (frame, e1, rest) = >>=-eq-some (storage_frame be32 md5 block size) _ e in
    let (files, e2, rest2) =
      >>=-eq-some (Fileproxy.set_file_upload_id s.g_file s.g_file_name id) _ rest in
    let (f, e3, rest3) = >>=-eq-some (find s.g_file s.g_file_name) _ e2 in
    let (g, e4, rest4) = >>=-eq-some (set_upload_id f id) _ rest3 in
    record {
      old = old;
      new = g;
      frame = frame;
      found = found;
      matches = matches;
      framed = e1;
      marked = ground (arith, e3, e4, found);
      after = ground (arith, rest2, rest4);
    }

pub accept_block_inv :
    (d : Digest) (s s' : Server) (be32 : Bytes) (size id : ℕ) (block : Bytes)
    → accept_block d s be32 size id block ≡ some s'
    → (s' ≡ s) ⊎ Accepted d s s' be32 size id block
unfolding accept_block Fileproxy.get_block_file_md5
accept_block_inv d s s' be32 size id block e =
    let md5 = get_string_md5 d block in
    let (expected, e1, rest) =
      >>=-eq-some (Fileproxy.get_block_file_md5 s.g_file id s.g_file_name) _ e in
    let (f, e2, e3) = >>=-eq-some (find s.g_file s.g_file_name) _ e1 in
    elim (Bool-cases (bytes_eq md5 expected)) [
      | inl same ↦
          let equal : md5 ≡ expected = (bytes_eq_iff md5 expected).0 same in
          inr (store_block_inv d s s' be32 size id block f e2 (cc (equal, e3)) (rw same at rest))
      | inr other ↦ inl (cc (rw other at rest))
    ]

-- A round that takes a block: what it has read, and the state before the test for the last block.
pub record Took (d : Digest) (s : Server) (b : Buffer) (t : Round State) : Type 0 where
  pub be32 : Bytes
  pub id : ℕ
  pub block : Bytes × Buffer
  pub server : Server
  pub size : ℕ
  pub raw : size ≡ size_of_int (ntohl be32)
  pub peeked : Buffer.peek b 4 ≡ some be32
  pub fits : leb (add_size 8 size) (readable_bytes b) ≡ true
  pub read : read_as_block (retrieve (retrieve b 4) 4) size ≡ some block
  pub accepts : accept_block d s be32 size id block.0 ≡ some server
  pub ends : check_finish server block.1 ≡ some t

pub block_round_inv :
    (d : Digest) (s : Server) (b : Buffer) (t : Round State)
    → block_round d (s, b) ≡ some t
    → (t ≡ stop (s, b)) ⊎ Took d s b t
unfolding block_round take_block
block_round_inv d s b t e =
    let (be32, e1, rest) = >>=-eq-some (Buffer.peek b 4) _ e in
    let size = size_of_int (ntohl be32) in
    elim (Bool-cases (leb (add_size 8 size) (readable_bytes b))) [
      | inl fits ↦
          let (id, e2, rest2) = >>=-eq-some (peek_be32 (retrieve b 4)) _ (rw fits at rest) in
          let (block, e3, rest3) =
            >>=-eq-some (read_as_block (retrieve (retrieve b 4) 4) size) _ rest2 in
          let (server, e4, rest4) = >>=-eq-some (accept_block d s be32 size id block.0) _ rest3 in
          inr (record {
            be32 = be32;
            id = id;
            block = block;
            server = server;
            size = size;
            raw = refl;
            peeked = e1;
            fits = fits;
            read = e3;
            accepts = e4;
            ends = rest4;
          })
      | inr short ↦ inl (cc (rw short at rest))
    ]

-- The file has all its blocks.
pub record Finished (s : Server) (b : Buffer) (t : Round State) : Type 0 where
  pub file : FileValue
  pub found : find s.g_file s.g_file_name ≡ some file
  pub complete : FileValue.ls_file_finish file ≡ true
  pub after :
      t
      ≡ stop (
        record s {
          up_statu = upstatu4;
          sent = s.sent ++ reply (codes "success") ∷ [];
          g_file_name = [];
        },
        b,
      )

pub check_finish_inv :
    (s : Server) (b : Buffer) (t : Round State)
    → check_finish s b ≡ some t
    → (t ≡ next (s, b)) ⊎ Finished s b t
unfolding check_finish Fileproxy.ls_file_finish
check_finish_inv s b t e =
    let (finished, e1, rest) = >>=-eq-some (Fileproxy.ls_file_finish s.g_file s.g_file_name) _ e in
    let (f, e2, e3) = >>=-eq-some (find s.g_file s.g_file_name) _ e1 in
    elim (Bool-cases finished) [
      | inl all ↦ inr (record { file = f; found = e2; complete = cc; after = cc (rw all at rest) })
      | inr some_left ↦ inl (cc (rw some_left at rest))
    ]
