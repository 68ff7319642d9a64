-- ===== src/Buffer/Queue.antt =====
-- What a client of `Buffer` relies on: a byte queue, into which bytes go at the end (and, for a
-- message header, in front), and from which they come off the front.
use mini_distributed_storage.Base.{
  ℕ, ◌+◌, ◌≤◌, ◌<◌, ◌≡◌, refl, Option, none, some, List, [], ◌∷◌, ◌++◌, Bytes, length, take, drop,
  leb, if◌then◌else◌, ◌>>=◌, arith, >>=-eq-some,
}
use mini_distributed_storage.Buffer.{
  Buffer, retrieve, retrieve_all, read_as_string, read_as_block, make_space, ensure_writable_bytes,
  append,
}
use mini_distributed_storage.Buffer.Valid.{IsValid, max_len}
use mini_distributed_storage.Buffer.Contents.{
  Holds, append-Holds, retrieve-Holds, retrieve_all-Holds, read_as_block_lem, read_as_string_lem,
}

-- The calls by which the handlers use a buffer.
pub data Call : Type 0 where
  appends : Bytes → Call
  reads_block : ℕ → Call
  reads_string : Call

-- One call on the buffer, with the bytes that it returns.
pub call : Buffer → Call → Option (Bytes × Buffer)
call b (appends ys) = some ([], append b ys)
call b (reads_block n) = read_as_block b n
call b reads_string = read_as_string b

pub run : Buffer → List Call → Option (List Bytes)
run b [] = some []
run b (c ∷ cs) = do r ← call b c; rest ← run r.1 cs; some (r.0 ∷ rest)

-- One call on the queue. A block is only asked for when it is there.
unfoldable pub queue_call : Bytes → Call → Option (Bytes × Bytes)
queue_call xs (appends ys) = some ([], xs ++ ys)
queue_call xs (reads_block n) = if leb n (length xs) then some (take n xs, drop n xs) else none
queue_call xs reads_string = some (xs, [])

unfoldable pub queue_run : Bytes → List Call → Option (List Bytes)
queue_run xs [] = some []
queue_run xs (c ∷ cs) = do r ← queue_call xs c; rest ← queue_run r.1 cs; some (r.0 ∷ rest)

-- The bytes that a call appends.
abbrev pub size : Call → ℕ
size (appends ys) = length ys
size _ = 0

abbrev pub total : List Call → ℕ
total [] = 0
total (c ∷ cs) = size c + total cs

-- Making space never moves the writer index up.
writer-ensure :
    (b : Buffer) (len : ℕ)
    → IsValid b
    → b.writer_index + len < max_len
    → (ensure_writable_bytes b len).writer_index ≤ b.writer_index
unfolding ensure_writable_bytes make_space
writer-ensure b len v h = ground arith

pub writer-append :
    (b : Buffer) (ys : Bytes)
    → IsValid b
    → b.writer_index + length ys < max_len
    → (append b ys).writer_index ≤ b.writer_index + length ys
unfolding append
writer-append b ys v h = ground (arith, writer-ensure b (length ys) v h)

writer-retrieve : (b : Buffer) (n : ℕ) → (retrieve b n).writer_index ≤ b.writer_index + 0
unfolding retrieve
writer-retrieve b n = omega arith

writer-retrieve_all : (b : Buffer) → IsValid b → (retrieve_all b).writer_index ≤ b.writer_index + 0
unfolding retrieve_all
writer-retrieve_all b v = omega arith

-- A call on a buffer that agrees with the call on the queue.
record Agrees (b : Buffer) (c : Call) (r : Bytes × Bytes) : Type 0 where
  next : Buffer
  same : call b c ≡ some (r.0, next)
  held : Holds next r.1
  grows : next.writer_index ≤ b.writer_index + size c

call-Agrees :
    (b : Buffer) (xs : Bytes) (c : Call) (r : Bytes × Bytes)
    → Holds b xs
    → b.writer_index + size c < max_len
    → queue_call xs c ≡ some r
    → Agrees b c r
unfolding call queue_call
call-Agrees b xs (appends ys) r h k e =
    let agrees : Agrees b (appends ys) ([], xs ++ ys) = record {
      next = append b ys;
      same = refl;
      held = ground (arith, append-Holds b ys h.valid k, h.holds);
      grows = writer-append b ys h.valid k;
    } in
    ground (arith, agrees)
call-Agrees b xs (reads_block n) r h k e =
    let fits : n ≤ length xs = ground arith in
    let agrees : Agrees b (reads_block n) (take n xs, drop n xs) = record {
      next = retrieve b n;
      same = read_as_block_lem h n fits;
      held = retrieve-Holds h n fits;
      grows = writer-retrieve b n;
    } in
    ground (arith, agrees)
call-Agrees b xs reads_string r h k e =
    let agrees : Agrees b reads_string (xs, []) = record {
      next = retrieve_all b;
      same = read_as_string_lem h;
      held = retrieve_all-Holds h;
      grows = writer-retrieve_all b h.valid;
    } in
    ground (arith, agrees)

-- Any sequence of calls that the queue can serve returns the same bytes from the buffer, as long as
-- fewer than 2^63 bytes pass the writer index.
pub run_refines :
    (b : Buffer) (xs : Bytes) (cs : List Call) (out : List Bytes)
    → Holds b xs
    → b.writer_index + total cs < max_len
    → queue_run xs cs ≡ some out
    → run b cs ≡ some out
unfolding run queue_run
run_refines b xs [] out h k e = e
run_refines b xs (c ∷ cs) out h k e =
    let (r, served, e') = >>=-eq-some (queue_call xs c) _ e in
    let (rest, later, e'') = >>=-eq-some (queue_run r.1 cs) _ e' in
    let a = call-Agrees b xs c r h (omega arith) served in
    rw (a.same, run_refines a.next r.1 cs rest a.held (omega (arith, a.grows)) later) e''
