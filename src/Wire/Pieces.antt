-- ===== src/Wire/Pieces.antt =====
-- Messages that arrive in pieces: a loop that takes whole messages off a buffer, and waits when the
-- one in front is not all there, handles a stream of messages however it is cut.
use mini_distributed_storage.Base.{
  ℕ, zero, suc, ◌+◌, ◌≤◌, ◌<◌, ◌^◌, ◌≡◌, refl, sym, ap, ◌∙◌, ◌⊎◌, inl, inr, Bool, true, false,
  Option, some, List, [], ◌∷◌, ◌++◌, append_assoc, append-nil, Bytes, length, length-append, leb,
  dec_lt, arith,
}
use mini_distributed_storage.Base.Loop.{
  Round, next, stop, loop, done, loop-next, loop-stop, loop_done,
}
use mini_distributed_storage.Buffer
use mini_distributed_storage.Buffer.{Buffer, readable_bytes}
use mini_distributed_storage.Buffer.Valid.{max_len}
use mini_distributed_storage.Buffer.Contents.{Holds, readable-length, read_fd-Holds}
use mini_distributed_storage.Wire.{htonl, length-htonl}
use mini_distributed_storage.Wire.Frame.{Number, number_lem}
use mini_distributed_storage.Buffer.Growth.{length-read_fd}

-- What the pieces are cut from.
abbrev pub joined : List Bytes → Bytes
joined [] = []
joined (p ∷ ps) = p ++ joined ps

-- Two ways to cut the same bytes: the first cut is inside the message, or behind it.
inside :
    (held r m t : Bytes)
    → held ++ r ≡ m ++ t
    → length held < length m
    → (q : Bytes) × (held ++ q ≡ m) × (r ≡ q ++ t)
inside held r [] t e h = absurd (omega (arith, h))
inside [] r (y ∷ m) t e h = (y ∷ m, refl, e)
inside (x ∷ held) r (y ∷ m) t e h =
    let tails : held ++ r ≡ m ++ t = cc e in
    let heads : x ≡ y = cc e in
    let (q, e1, e2) = inside held r m t tails (omega (arith, h)) in (q, cc (heads, e1), e2)

behind :
    (held r m t : Bytes)
    → held ++ r ≡ m ++ t
    → length m ≤ length held
    → (q : Bytes) × (held ≡ m ++ q) × (q ++ r ≡ t)
behind held r [] t e h = (held, refl, e)
behind [] r (y ∷ m) t e h = absurd (omega (arith, h))
behind (x ∷ held) r (y ∷ m) t e h =
    let tails : held ++ r ≡ m ++ t = cc e in
    let heads : x ≡ y = cc e in
    let (q, e1, e2) = behind held r m t tails (omega (arith, h)) in (q, cc (heads, e1), e2)

pub cut_end : (held r m : Bytes) → held ++ r ≡ m → length m ≤ length held → (held ≡ m) × (r ≡ [])
cut_end held [] m e h = (sym (append-nil held) ∙ e, refl)
cut_end held (x ∷ r) m e h = absurd (omega (arith, ap length e, length-append held (x ∷ r), h))

-- Four bytes of a message that begins with a number are that number.
pub front-Number :
    (b : Buffer) (n : ℕ) (held q body : Bytes)
    → n < 2 ^ 32
    → Holds b held
    → held ++ q ≡ htonl n ++ body
    → 4 ≤ length held
    → (rest : Bytes) × Number b n rest
front-Number b n held q body h k e four =
    let (rest, front, later) =
      behind held q (htonl n) body e (omega (arith, length-htonl n, four)) in
    (rest, number_lem b n rest h (rw front at k))

-- What a round has made of the message in front: it goes on, or it ends the loop behind the last
-- message.
pub record Took {S X : Type 0} (buf : S → Buffer) (body : S → Option (Round S))
    (Inv : List X → S → Type 0) (xs : List X) (s : S) (rest : Bytes) : Type 0 where
  pub after : S
  pub round : (body s ≡ some (next after)) ⊎ ((body s ≡ some (stop after)) × (xs ≡ []))
  pub kept : Inv xs after
  pub behind : Holds (buf after) rest
  pub same_size : length (buf after).buffer ≡ length (buf s).buffer

-- A loop over messages. `Inv xs s` says that in the state `s` the messages `xs` are still expected.
pub record Protocol (S X : Type 0) : Type 1 where
  pub buf : S → Buffer
  pub put : S → Buffer → S
  pub test : S → Bool
  pub body : S → Option (Round S)
  pub msg : X → Bytes
  pub Inv : List X → S → Type 0
  pub buf-put : (s : S) (b : Buffer) → buf (put s b) ≡ b
  pub Inv-put : (xs : List X) (s : S) (b : Buffer) → Inv xs s → Inv xs (put s b)
  pub long : (x : X) → 4 ≤ length (msg x)
  pub asks :
      (x : X) (xs : List X) (s : S) → Inv (x ∷ xs) s → test s ≡ leb 4 (readable_bytes (buf s))
  pub over : (s : S) → Inv [] s → Holds (buf s) [] → test s ≡ false
  pub waits :
      (x : X) (xs : List X) (s : S) (held q : Bytes)
      → Inv (x ∷ xs) s
      → Holds (buf s) held
      → held ++ q ≡ msg x
      → 4 ≤ length held
      → length held < length (msg x)
      → body s ≡ some (stop s)
  pub takes :
      (x : X) (xs : List X) (s : S) (rest : Bytes)
      → Inv (x ∷ xs) s
      → Holds (buf s) (msg x ++ rest)
      → Took buf body Inv xs s rest

module _ {S X : Type 0} (p : Protocol S X) where
  open p use {buf, put, test, body, msg, Inv}

  -- The messages, one behind the other.
  unfoldable pub flat : List X → Bytes
  flat [] = []
  flat (x ∷ xs) = msg x ++ flat xs

  -- The state after the loop, when `r` has still to arrive.
  pub record Left (fuel : ℕ) (s : S) (r : Bytes) : Type 0 where
    pub state : S
    pub expected : List X
    pub held : Bytes
    pub run : loop test body fuel s ≡ done state
    pub kept : Inv expected state
    pub holds : Holds (buf state) held
    pub cut : held ++ r ≡ flat expected
    pub ends : r ≡ [] → expected ≡ []
    pub same_size : length (buf state).buffer ≡ length (buf s).buffer

  nothing_held : (held r : Bytes) → held ++ r ≡ [] → held ≡ []
  nothing_held [] r e = refl
  nothing_held (x ∷ held) r e = cc e

  -- The message in front is not all there.
  waiting :
      (x : X) (xs : List X) (fuel : ℕ) (s : S) (held q : Bytes)
      → Inv (x ∷ xs) s
      → Holds (buf s) held
      → held ++ q ≡ msg x
      → length held < length (msg x)
      → loop test body (suc fuel) s ≡ done s
  waiting x xs fuel s held q i k e short = elim (dec_lt (length held) 4) [
    | yes few ↦
        let over : leb 4 (readable_bytes (buf s)) ≡ false = ground (arith, readable-length k) in
        loop_done test body (suc fuel) s (omega arith) (p.asks x xs s i ∙ over)
    | no some_more ↦
        let here : leb 4 (readable_bytes (buf s)) ≡ true = ground (arith, readable-length k) in
        loop-stop test body fuel s (p.asks x xs s i ∙ here)
          (p.waits x xs s held q i k e (omega (arith, some_more)) short)
  ]

  whole_lem :
      (x : X) (s : S) (q : Bytes)
      → Holds (buf s) (msg x ++ q)
      → (leb 4 (readable_bytes (buf s)) ≡ true) × (length q < readable_bytes (buf s))
  whole_lem x s q k = ground (arith, readable-length k, length-append (msg x) q, p.long x)

  -- The loop over what is in the buffer.
  loop-Left :
      (xs : List X) (fuel : ℕ) (s : S) (held r : Bytes)
      → Inv xs s
      → Holds (buf s) held
      → held ++ r ≡ flat xs
      → readable_bytes (buf s) < fuel
      → Left fuel s r
  unfolding flat
  loop-Left [] fuel s held r i k e enough =
      let none : held ≡ [] = nothing_held held r e in
      record {
        state = s;
        expected = [];
        held = held;
        run = loop_done test body fuel s (omega (arith, enough)) (p.over s i (rw none at k));
        kept = i;
        holds = k;
        cut = e;
        ends = λ _. refl;
        same_size = refl;
      }
  loop-Left (x ∷ xs) zero s held r i k e enough = absurd (omega (arith, enough))
  loop-Left (x ∷ xs) (suc fuel) s held r i k e enough =
      elim (dec_lt (length held) (length (msg x))) [
        | yes short ↦
            let (q, whole, later) = inside held r (msg x) (flat xs) e short in
            record {
              state = s;
              expected = x ∷ xs;
              held = held;
              run = waiting x xs fuel s held q i k whole short;
              kept = i;
              holds = k;
              cut = e;
              ends = λ none.
                  let all = rw (none, append-nil held) at e in
                  absurd (omega (arith, ap length all, length-append (msg x) (flat xs), short));
              same_size = refl;
            }
        | no all ↦
            let (q, front, later) = behind held r (msg x) (flat xs) e (omega (arith, all)) in
            let k' = rw front at k in
            let (here, less) = whole_lem x s q k' in
            let t = p.takes x xs s q i k' in
            let more = p.asks x xs s i ∙ here in
            elim t.round [
              | inl goes_on ↦
                  let l =
                    loop-Left xs fuel t.after q r t.kept t.behind later
                      (omega (arith, less, enough, readable-length t.behind)) in
                  record {
                    state = l.state;
                    expected = l.expected;
                    held = l.held;
                    run = loop-next test body fuel s more goes_on ∙ l.run;
                    kept = l.kept;
                    holds = l.holds;
                    cut = l.cut;
                    ends = l.ends;
                    same_size = l.same_size ∙ t.same_size;
                  }
              | inr (ended, last) ↦ record {
                state = t.after;
                expected = xs;
                held = q;
                run = loop-stop test body fuel s more ended;
                kept = t.kept;
                holds = t.behind;
                cut = later;
                ends = λ _. last;
                same_size = t.same_size;
              }
            ]
      ]

  -- The state between two pieces: `held` is in the buffer, and `r` has still to arrive.
  pub record Between (s : S) (r : Bytes) : Type 0 where
    pub expected : List X
    pub held : Bytes
    pub kept : Inv expected s
    pub holds : Holds (buf s) held
    pub cut : held ++ r ≡ flat expected
    pub ends : r ≡ [] → expected ≡ []
    pub room : length (buf s).buffer + length r < max_len

  none_expected : (xs : List X) → [] ≡ flat xs → xs ≡ []
  unfolding flat
  none_expected [] e = refl
  none_expected (x ∷ xs) e =
      absurd (omega (arith, ap length e, length-append (msg x) (flat xs), p.long x))

  -- Nothing has arrived yet.
  pub begin_lem :
      (xs : List X) (s : S) (r : Bytes)
      → Inv xs s
      → Holds (buf s) []
      → r ≡ flat xs
      → length (buf s).buffer + length r < max_len
      → Between s r
  begin_lem xs s r i k cut room = record {
    expected = xs;
    held = [];
    kept = i;
    holds = k;
    cut = cut;
    ends = λ none. none_expected xs (rw none at cut);
    room = room;
  }

  -- One more piece.
  pub piece_lem :
      (s : S) (piece r : Bytes)
      → Between s (piece ++ r)
      → let filled = put s (Buffer.read_fd (buf s) (some piece)) in
        (s' : S) × (loop test body (suc (readable_bytes (buf filled))) filled ≡ done s')
        × Between s' r
  piece_lem s piece r m =
      let size = length-append piece r in
      let filled = put s (Buffer.read_fd (buf s) (some piece)) in
      let fits : length (buf s).buffer + length piece < max_len = omega (arith, size, m.room) in
      let got = rw m.holds.holds at (read_fd-Holds (buf s) piece m.holds.valid fits) in
      let k : Holds (buf filled) (m.held ++ piece) =
        rw (p.buf-put s (Buffer.read_fd (buf s) (some piece))) got in
      let cut : (m.held ++ piece) ++ r ≡ flat m.expected = append_assoc m.held piece r ∙ m.cut in
      let l =
        loop-Left m.expected (suc (readable_bytes (buf filled))) filled (m.held ++ piece) r
          (p.Inv-put m.expected s _ m.kept) k cut (omega arith) in
      let grown = length-read_fd (buf s) piece m.holds.valid fits in
      let same =
        ap (λ (b : Buffer). length b.buffer) (p.buf-put s (Buffer.read_fd (buf s) (some piece))) in
      (
        l.state,
        l.run,
        record {
          expected = l.expected;
          held = l.held;
          kept = l.kept;
          holds = l.holds;
          cut = l.cut;
          ends = l.ends;
          room = omega (arith, l.same_size, same, grown, size, m.room);
        },
      )

  -- When all has arrived, all messages are taken and the buffer is empty.
  pub all_taken : (s : S) → Between s [] → Inv [] s × Holds (buf s) []
  unfolding flat
  all_taken s m =
      let none = m.ends refl in
      let empty : m.held ≡ [] = nothing_held m.held [] (m.cut ∙ rw none refl) in
      (rw none at m.kept, rw empty at m.holds)
