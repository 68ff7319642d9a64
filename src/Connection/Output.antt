-- ===== src/Connection/Output.antt =====
-- No byte is lost or reordered between `send` and the kernel, as long as no `write` fails.
use mini_distributed_storage.Base.{
  ℕ, zero, suc, ◌+◌, ◌-◌, ◌^◌, ◌<◌, ◌≤◌, ◌≡◌, refl, sym, ◌∙◌, ap, Bool, Bool-cases, inl, inr, true,
  false, Option, none, some, List, [], ◌∷◌, ◌++◌, append_assoc, append-nil, Bytes, length,
  length-append, length-take, length-drop, take, drop, take_all, drop_all, ltb, ◌==◌, if◌then◌else◌,
  arith, All,
}
use mini_distributed_storage.Buffer.{readable_bytes, peek, retrieve}
use mini_distributed_storage.Buffer.Valid.{max_len}
use mini_distributed_storage.Buffer.Contents.{
  Holds, Holds-append, readable-length, peek-take, retrieve-Holds,
}
use mini_distributed_storage.Buffer.Queue.{writer-append}
use mini_distributed_storage.Connection.{
  StateE, connecting, connected, disconnecting, disconnected, is_connected, is_disconnecting,
  Connection, taken, returned, is_idle, keep_rest, send_in_loop, send, run_functor, all_written,
  handle_write, Event, sends, sends_from, functor, writable, step, run,
}

abbrev pub is_nonempty : Bytes → Bool
is_nonempty [] = false
is_nonempty (x ∷ xs) = true

-- The connection is up, its output buffer holds `xs`, and it waits to write exactly when there is
-- something to write.
pub record Steady (c : Connection) (xs : Bytes) : Type 0 where
  pub is_up : is_connected c.state ≡ true
  pub output : Holds c.output_buffer xs
  pub waits : c.writing ≡ is_nonempty xs

nonempty_long : (xs : Bytes) → 0 < length xs → is_nonempty xs ≡ true
nonempty_long [] h = elim h [ ]
nonempty_long (x ∷ xs) h = refl

empty_short : (xs : Bytes) → length xs ≡ 0 → is_nonempty xs ≡ false
empty_short [] h = refl
empty_short (x ∷ xs) h = absurd (omega (arith, h))

take-drop_taken : (n : ℕ) (xs : Bytes) → take n xs ++ drop (length (take n xs)) xs ≡ xs
take-drop_taken zero xs = refl
take-drop_taken (suc n) [] = refl
take-drop_taken (suc n) (x ∷ xs) = ap (λ ys. x ∷ ys) (take-drop_taken n xs)

-- What is left of a message.
keep_rest-Steady :
    (c : Connection) (xs message : Bytes) (n : ℕ)
    → Steady c xs
    → n ≤ length message
    → c.output_buffer.writer_index + length message < max_len
    → Steady (keep_rest c message n) (xs ++ drop n message)
      × (((keep_rest c message n).wire ≡ c.wire) × ((keep_rest c message n).queued ≡ c.queued))
      × ((keep_rest c message n).output_buffer.writer_index
          ≤ c.output_buffer.writer_index + length message)
unfolding keep_rest
keep_rest-Steady c xs message n k h room = elim (Bool-cases (ltb n (length message))) [
  | inl more ↦
      let size = length-drop n message in
      rw more (
        record {
          is_up = k.is_up;
          output = Holds-append (drop n message) k.output (omega (arith, size));
          waits = sym (
              nonempty_long (xs ++ drop n message)
                (ground (arith, size, length-append xs (drop n message))));
        },
        (refl, refl),
        omega (
          arith,
          size,
          writer-append c.output_buffer (drop n message) k.output.valid (omega (arith, size)),
        ),
      )
  | inr all ↦
      rw (all, drop_all n message (ground arith), append-nil xs) (k, (refl, refl), omega arith)
]

-- What a step leaves: bytes `ys` to write, which follow on the wire, and the functors `qs`.
pub record After (c : Connection) (all : Bytes) (qs : List Bytes) (bound : ℕ) : Type 0 where
  pub rest : Bytes
  pub steady : Steady c rest
  pub kept : c.wire ++ rest ≡ all
  pub later : c.queued ≡ qs
  pub grows : c.output_buffer.writer_index ≤ bound

send_in_loop-idle :
    (c : Connection) (message : Bytes) (room : ℕ)
    → is_idle c ≡ true
    → send_in_loop c message (some room)
      ≡ keep_rest
          (record c { wire = c.wire ++ take room message })
          message
          (length (take room message))
unfolding send_in_loop taken returned
send_in_loop-idle c message room e = rw e

send_in_loop-busy :
    (c : Connection) (message : Bytes) (room : ℕ)
    → is_idle c ≡ false
    → send_in_loop c message (some room) ≡ keep_rest c message 0
unfolding send_in_loop taken returned
send_in_loop-busy c message room e = rw e

-- `sendInLoop` on a connection that is up.
send_in_loop-After :
    (c : Connection) (xs message : Bytes) (room : ℕ)
    → Steady c xs
    → c.output_buffer.writer_index + length message < max_len
    → After
        (send_in_loop c message (some room))
        (c.wire ++ (xs ++ message))
        c.queued
        (c.output_buffer.writer_index + length message)
send_in_loop-After c [] message room k h =
    let idle : is_idle c ≡ true = rw k.waits (ground (arith, readable-length k.output)) in
    let c1 = record c { wire = c.wire ++ take room message } in
    let steady1 : Steady c1 [] = record { is_up = k.is_up; output = k.output; waits = k.waits } in
    let (steady, same, grows) =
      keep_rest-Steady c1 [] message (length (take room message)) steady1
        (omega (arith, length-take room message)) h in
    rw (send_in_loop-idle c message room idle) (record {
      rest = drop (length (take room message)) message;
      steady = steady;
      kept = rw (
        same.0,
        append_assoc c.wire (take room message) (drop (length (take room message)) message),
        take-drop_taken room message,
      );
      later = same.1;
      grows = grows;
    })
send_in_loop-After c (x ∷ xs) message room k h =
    let busy : is_idle c ≡ false = rw k.waits refl in
    let (steady, same, grows) = keep_rest-Steady c (x ∷ xs) message 0 k (omega arith) h in
    rw (send_in_loop-busy c message room busy) (record {
      rest = (x ∷ xs) ++ message;
      steady = steady;
      kept = rw same.0;
      later = same.1;
      grows = grows;
    })

not_disconnecting : (state : StateE) → is_connected state ≡ true → is_disconnecting state ≡ false
not_disconnecting connecting h = refl
not_disconnecting connected h = refl
not_disconnecting disconnecting h = cc
not_disconnecting disconnected h = refl

-- The end of a write: the flag is cleared if nothing is left.
finish-After :
    (c : Connection) (ys : Bytes)
    → is_connected c.state ≡ true
    → c.writing ≡ true
    → Holds c.output_buffer ys
    → After
        (if readable_bytes c.output_buffer == 0 then all_written c else c)
        (c.wire ++ ys)
        c.queued
        c.output_buffer.writer_index
unfolding all_written
finish-After c ys up w k = elim (Bool-cases (readable_bytes c.output_buffer == 0)) [
  | inl nothing ↦
      let empty = empty_short ys (ground (arith, readable-length k)) in
      rw (nothing, not_disconnecting c.state up)
        (record {
          rest = ys;
          steady = record { is_up = up; output = k; waits = sym empty };
          kept = refl;
          later = refl;
          grows = omega arith;
        })
  | inr more ↦
      let full = nonempty_long ys (ground (arith, readable-length k)) in
      rw more (record {
        rest = ys;
        steady = record { is_up = up; output = k; waits = w ∙ sym full };
        kept = refl;
        later = refl;
        grows = omega arith;
      })
]

-- `handleWrite` on a connection that is up.
handle_write-After :
    (c : Connection) (xs : Bytes) (room : ℕ)
    → Steady c xs
    → (c' : Connection) × (handle_write c (some room) ≡ some c')
      × After c' (c.wire ++ xs) c.queued c.output_buffer.writer_index
unfolding handle_write taken returned retrieve
handle_write-After c [] room k = (
  c,
  rw k.waits,
  record { rest = []; steady = k; kept = refl; later = refl; grows = omega arith },
)
handle_write-After c (x ∷ xs) room k =
    let all = x ∷ xs in
    let bytes : peek c.output_buffer (readable_bytes c.output_buffer) ≡ some all = ground (
      arith,
      readable-length k.output,
      peek-take k.output (length all),
      take_all (length all) all,
    ) in
    let n = length (take room all) in
    let rest = retrieve-Holds k.output n (omega (arith, length-take room all)) in
    let c' = record c {
      output_buffer = retrieve c.output_buffer n;
      wire = c.wire ++ take room all;
    } in
    let a = finish-After c' (drop n all) k.is_up k.waits rest in
    (
      if readable_bytes c'.output_buffer == 0 then all_written c' else c',
      rw (k.waits, bytes) refl,
      rw (append_assoc c.wire (take room all) (drop n all), take-drop_taken room all) at a,
    )

-- What `sendInLoop` is to send, when the messages `qs` wait as functors: the messages from the loop's
-- own thread at once, and those of other threads when their functors run.
unfoldable pub all_sent : List Bytes → List Event → Bytes
all_sent qs [] = []
all_sent qs (sends message room ∷ es) = message ++ all_sent qs es
all_sent qs (sends_from message ∷ es) = all_sent (qs ++ message ∷ []) es
all_sent [] (functor room ∷ es) = all_sent [] es
all_sent (q ∷ qs) (functor room ∷ es) = q ++ all_sent qs es
all_sent qs (writable room ∷ es) = all_sent qs es

-- No `write` fails.
abbrev pub Writes : Event → Type 0
Writes (sends message none) = ⊥
Writes (functor none) = ⊥
Writes (writable none) = ⊥
Writes _ = Unit {0}

-- Later bytes follow what a step leaves.
After-later :
    {c : Connection} {before : Bytes} {qs : List Bytes} {bound : ℕ} (a : After c before qs bound)
    (later : Bytes)
    → c.wire ++ (a.rest ++ later) ≡ before ++ later
After-later {c} a later = sym (append_assoc c.wire a.rest later) ∙ rw a.kept refl

-- The end of a run: bytes `ys` are left to write, and `total` has been sent.
pub record Ended (c : Connection) (es : List Event) (total : Bytes) : Type 0 where
  pub final : Connection
  pub left : Bytes
  pub goes : run c es ≡ some final
  pub steady : Steady final left
  pub sums : final.wire ++ left ≡ total

-- A step that leaves the connection steady, before the others.
After-Ended :
    (c c1 : Connection) (e : Event) (es : List Event) (before later : Bytes) (qs : List Bytes)
    (bound : ℕ) (a : After c1 before qs bound)
    → step c e ≡ some c1
    → Ended c1 es (c1.wire ++ (a.rest ++ later))
    → Ended c (e ∷ es) (before ++ later)
unfolding run
After-Ended c c1 e es before later qs bound a first n = record {
  final = n.final;
  left = n.left;
  goes = rw (first, n.goes);
  steady = n.steady;
  sums = n.sums ∙ After-later a later;
}

run_functor-none : (c : Connection) (room : Option ℕ) → c.queued ≡ [] → run_functor c room ≡ c
unfolding run_functor
run_functor-none c room e = rw e refl

run-Ended :
    (c : Connection) (xs : Bytes) (qs : List Bytes) (es : List Event)
    → Steady c xs
    → c.queued ≡ qs
    → All Writes es
    → c.output_buffer.writer_index + length (all_sent qs es) < max_len
    → Ended c es (c.wire ++ (xs ++ all_sent qs es))
unfolding run step all_sent send run_functor
run-Ended c xs qs [] k q w h = record {
  final = c;
  left = xs;
  goes = refl;
  steady = k;
  sums = rw (append-nil xs) refl;
}
run-Ended c xs qs (sends message none ∷ es) k q w h = elim w.0 [ ]
run-Ended c xs qs (functor none ∷ es) k q w h = elim w.0 [ ]
run-Ended c xs qs (writable none ∷ es) k q w h = elim w.0 [ ]
run-Ended c xs qs (sends message (some room) ∷ es) k q w h =
    let size = length-append message (all_sent qs es) in
    let a = send_in_loop-After c xs message room k (omega (arith, size)) in
    rw
      (
        append_assoc c.wire (xs ++ message) (all_sent qs es),
        append_assoc xs message (all_sent qs es),
      )
      at
      (After-Ended c (send_in_loop c message (some room)) (sends message (some room)) es _
        (all_sent qs es) c.queued _ a (rw k.is_up refl)
        (run-Ended _ a.rest qs es a.steady (a.later ∙ q) w.1 (omega (arith, size, a.grows))))
run-Ended c xs qs (sends_from message ∷ es) k q w h =
    let c1 = record c { queued = c.queued ++ message ∷ [] } in
    let k1 : Steady c1 xs = record { is_up = k.is_up; output = k.output; waits = k.waits } in
    let n = run-Ended c1 xs (qs ++ message ∷ []) es k1 (rw q refl) w.1 h in
    record {
      final = n.final;
      left = n.left;
      goes = rw (k.is_up, n.goes);
      steady = n.steady;
      sums = n.sums;
    }
run-Ended c xs [] (functor (some room) ∷ es) k q w h =
    let n = run-Ended c xs [] es k q w.1 h in
    record {
      final = n.final;
      left = n.left;
      goes = ap (λ c'. run c' es) (run_functor-none c (some room) q) ∙ n.goes;
      steady = n.steady;
      sums = n.sums;
    }
run-Ended c xs (m ∷ qs) (functor (some room) ∷ es) k q w h =
    let size = length-append m (all_sent qs es) in
    let c1 = record c { queued = qs } in
    let k1 : Steady c1 xs = record { is_up = k.is_up; output = k.output; waits = k.waits } in
    let a = send_in_loop-After c1 xs m room k1 (omega (arith, size)) in
    rw (append_assoc c.wire (xs ++ m) (all_sent qs es), append_assoc xs m (all_sent qs es)) at
      (After-Ended c (send_in_loop c1 m (some room)) (functor (some room)) es _ (all_sent qs es) qs
        _ a (rw q refl)
        (run-Ended _ a.rest qs es a.steady a.later w.1 (omega (arith, size, a.grows))))
run-Ended c xs qs (writable (some room) ∷ es) k q w h =
    let (c1, wrote, a) = handle_write-After c xs room k in
    rw (append_assoc c.wire xs (all_sent qs es)) at (
      After-Ended c c1 (writable (some room)) es _ (all_sent qs es) c.queued _ a wrote
        (run-Ended c1 a.rest qs es a.steady (a.later ∙ q) w.1 (omega (arith, a.grows))))

-- A connection that is up, with `xs` to write, goes through any calls of `send`, from the loop's thread
-- and from others, any functors, and any times at which the socket can be written, and no `write`
-- fails, however little it takes; fewer than 2^63 bytes pass the writer index of the output buffer.
-- Then no step faults, the connection stays up, waits to write exactly when it has something to write,
-- and what the kernel has taken, followed by what is left in the buffer, is what was there before,
-- followed by the messages in the order in which the loop's thread sends them: its own at once, and
-- those of other threads, in order, when their functors run.
pub run-Steady :
    (c : Connection) (xs : Bytes) (es : List Event)
    → Steady c xs
    → All Writes es
    → c.output_buffer.writer_index + length (all_sent c.queued es) < max_len
    → Ended c es (c.wire ++ (xs ++ all_sent c.queued es))
run-Steady c xs es k w h = run-Ended c xs c.queued es k refl w h

-- A `write` that fails on a connection that is up and has nothing to write: -1, as a `size_t`, is not
-- less than the size of the message, and the connection is as if `send` had not been called in the
-- loop's thread.
pub send-none :
    (c : Connection) (message : Bytes)
    → is_connected c.state ≡ true
    → is_idle c ≡ true
    → length message < 2 ^ 64
    → send c true message none ≡ c
unfolding send send_in_loop keep_rest taken returned
send-none c message up idle h =
    let whole : ltb (2 ^ 64 - 1) (length message) ≡ false = ground arith in
    rw (up, idle, whole, append-nil c.wire)
