-- ===== src/Upload/Ending.antt =====
-- The loops of the handlers end: every round that goes on takes at least eight bytes off the buffer.
-- (A round may fault instead.) They keep the buffer and the map of files
-- well formed.
use mini_distributed_storage.Base.{
  ℕ, suc, ◌+◌, ◌^◌, ◌<◌, ◌≤◌, ◌≡◌, refl, true, some, Bytes, codes, length, leb, length-drop,
  sub_size, add_size, arith, >>=-eq-some, Bool-cases, inl, inr,
}
use mini_distributed_storage.Base.Loop.{Round, next, stop, Ends, RoundEnds, loop-Ends_or_fault}
use mini_distributed_storage.Buffer.{Buffer, readable_bytes, retrieve, read_as_block, peek}
use mini_distributed_storage.Buffer.Valid.{IsValid, contents, length-contents}
use mini_distributed_storage.Buffer.Contents.{
  Holds, readable-length, retrieve-Holds, read_as_block_lem,
}
use mini_distributed_storage.Wire.{ntohl-lt, peek_be32}
use mini_distributed_storage.Upload.{
  Server, State, emit, to_all, substr, open_file, get_file_name, header_round, has_number,
  take_header, init_file_number, is_receiving, block_round, send_block,
}
use mini_distributed_storage.Md5.{Digest}
use mini_distributed_storage.Upload.Steps.{Took, block_round_inv, check_finish_inv}

-- What is left of a valid buffer when `n` readable bytes are gone.
record Rest (b c : Buffer) (n : ℕ) : Type 0 where
  valid : IsValid c
  fewer : readable_bytes c + n ≡ readable_bytes b

retrieve-Rest : (b : Buffer) (n : ℕ) → IsValid b → n ≤ readable_bytes b → Rest b (retrieve b n) n
retrieve-Rest b n v h =
    let whole : Holds b (contents b) = record { valid = v; holds = refl } in
    let k = retrieve-Holds whole n (omega (arith, length-contents v)) in
    record {
      valid = k.valid;
      fewer = omega (arith, readable-length k, length-drop n (contents b), length-contents v);
    }

read-Rest :
    (b : Buffer) (n : ℕ) (r : Bytes × Buffer)
    → IsValid b
    → n ≤ readable_bytes b
    → read_as_block b n ≡ some r
    → Rest b r.1 n
read-Rest b n r v h e =
    let whole : Holds b (contents b) = record { valid = v; holds = refl } in
    let e' = read_as_block_lem whole n (omega (arith, length-contents v)) in
    let same : retrieve b n ≡ r.1 = cc (e', e) in rw (← same) (retrieve-Rest b n v h)

peek_be32-lt : (b : Buffer) (n : ℕ) → peek_be32 b ≡ some n → n < 2 ^ 32
unfolding peek_be32
peek_be32-lt b n e = let (tmp, e1, e2) = >>=-eq-some (peek b 4) _ e in ground (arith, ntohl-lt tmp)

-- The header of a message, and a body of `len` bytes.
message-Rest :
    (b : Buffer) (len : ℕ) (r : Bytes × Buffer)
    → IsValid b
    → 8 + len ≤ readable_bytes b
    → read_as_block (retrieve (retrieve b 4) 4) len ≡ some r
    → Rest b r.1 (8 + len)
message-Rest b len r v h e =
    let r1 = retrieve-Rest b 4 v (omega arith) in
    let r2 = retrieve-Rest (retrieve b 4) 4 r1.valid (omega (arith, r1.fewer)) in
    let r3 =
      read-Rest (retrieve (retrieve b 4) 4) len r r2.valid (omega (arith, r1.fewer, r2.fewer)) e in
    record { valid = r3.valid; fewer = omega (arith, r1.fewer, r2.fewer, r3.fewer) }

abbrev pub readable : State → ℕ
readable (s, b) = readable_bytes b

abbrev pub HasBuffer : State → Type 0
HasBuffer (s, b) = IsValid b

-- What a round that takes a header has read.
take_header_inv :
    (s : Server) (b : Buffer) (len : ℕ) (t : Round State)
    → take_header s b len ≡ some t
    → (r : Bytes × Buffer) × (s2 : Server) × (read_as_block (retrieve (retrieve b 4) 4) len
        ≡ some r)
      × (t ≡ next (s2, r.1))
unfolding take_header
take_header_inv s b len t e =
    let (num, e1, rest1) = >>=-eq-some (peek_be32 (retrieve b 4)) _ e in
    let (r, e2, rest2) = >>=-eq-some (read_as_block (retrieve (retrieve b 4) 4) len) _ rest1 in
    let (name, e3, rest3) = >>=-eq-some (substr r.0 0 (sub_size len 32)) _ rest2 in
    let (base, e5, rest5) = >>=-eq-some (get_file_name name) _ rest3 in
    let (s2, e4, rest4) =
      >>=-eq-some (open_file (record s { g_file_name = base }) num r.0 len) _ rest5 in
    (r, s2, e2, cc rest4)

header_round-falls :
    (st : State) (t : Round State)
    → HasBuffer st
    → has_number st ≡ true
    → header_round st ≡ some t
    → RoundEnds HasBuffer HasBuffer (Unit {0}) readable (readable st) (some t)
unfolding header_round
header_round-falls (s, b) t v more e =
    let s1 = emit s (to_all (codes "upppload")) in
    let (len, e1, rest) = >>=-eq-some (peek_be32 b) _ e in
    elim (Bool-cases (leb (add_size 8 len) (readable_bytes b))) [
      | inl fits ↦
          let (r, s2, e2, e3) = take_header_inv s1 b len t (rw fits at rest) in
          let enough : 8 + len ≤ readable_bytes b = ground (arith, peek_be32-lt b len e1) in
          let m = message-Rest b len r v enough e2 in rw e3 (m.valid, omega (arith, m.fewer))
      | inr short ↦ let over : stop (s1, b) ≡ t = cc (rw short at rest) in rw (← over) v
    ]

-- From a valid buffer `initFileNumber` returns, with a valid buffer, or faults; its loop does not go
-- on for ever.
pub init_file_number-Ends :
    (s : Server) (b : Buffer) → IsValid b → Ends HasBuffer (Unit {0}) (init_file_number (s, b))
unfolding init_file_number
init_file_number-Ends s b v =
    loop-Ends_or_fault has_number header_round HasBuffer HasBuffer readable header_round-falls
      (λ st p over. p) (suc (readable_bytes b)) (s, b) (omega arith) v

read_as_block-le :
    (b : Buffer) (n : ℕ) (r : Bytes × Buffer) → read_as_block b n ≡ some r → n ≤ length b.buffer
unfolding read_as_block peek
read_as_block-le b n r e = ground arith

buffer-retrieve : (b : Buffer) (n : ℕ) → (retrieve b n).buffer ≡ b.buffer
unfolding retrieve
buffer-retrieve b n = refl

-- A size that wraps the guard is too large to be read.
Took-fits :
    (d : Digest) (s : Server) (b : Buffer) (t : Round State)
    → IsValid b
    → (k : Took d s b t) → 8 + k.size ≤ readable_bytes b
Took-fits d s b t v k =
    let inside = read_as_block-le (retrieve (retrieve b 4) 4) k.size k.block k.read in
    ground (arith, inside, buffer-retrieve b 4, buffer-retrieve (retrieve b 4) 4, k.fits)

pub block_round-falls :
    (d : Digest) (st : State) (t : Round State)
    → HasBuffer st
    → is_receiving st ≡ true
    → block_round d st ≡ some t
    → RoundEnds HasBuffer HasBuffer (Unit {0}) readable (readable st) (some t)
block_round-falls d (s, b) t v more e = elim (block_round_inv d s b t e) [
  | inl short ↦ rw short v
  | inr k ↦
      let m = message-Rest b k.size k.block v (Took-fits d s b t v k) k.read in
      elim (check_finish_inv k.server k.block.1 t k.ends) [
        | inl on ↦ rw on (m.valid, omega (arith, m.fewer))
        | inr over ↦ rw over.after m.valid
      ]
]

-- From a valid buffer `sendBlock` returns, with a valid buffer, or faults.
pub send_block-Ends :
    (d : Digest) (s : Server) (b : Buffer)
    → IsValid b
    → Ends HasBuffer (Unit {0}) (send_block d (s, b))
unfolding send_block
send_block-Ends d s b v =
    loop-Ends_or_fault is_receiving (block_round d) HasBuffer HasBuffer readable
      (block_round-falls d) (λ st p over. p) (suc (readable_bytes b)) (s, b) (omega arith) v
