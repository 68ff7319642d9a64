-- ===== src/Download/Race.antt =====
-- The global `Bloc` of ReactorService/src/downLoad.h, which the three threads of a download share
-- without a lock. What a thread does with it for a block are three calls; the calls of different
-- threads come in any order, each of them taken as one step.
pub mod Crowded
use mini_distributed_storage.Base.{
  ℕ, ◌+◌, ◌-◌, ◌^◌, ◌≤◌, ◌<◌, ◌≡◌, ◌≢◌, refl, ap, sym, ◌∙◌, inl, inr, true, false, Option, none,
  some, List, [], ◌∷◌, ◌++◌, ◌>>=◌, append-nil, append_assoc, Bytes, length, length-append, leb,
  sub_size, Option-cases, arith,
}
use mathlib.Core.Option
use mini_distributed_storage.Buffer
use mini_distributed_storage.Buffer.{Buffer, read_as_string, retrieve_all, cheap_prepend}
use mini_distributed_storage.Buffer.Contents.{
  Holds, Holds-append, reader-append, prepend_lem, read_as_string_lem,
}
use mini_distributed_storage.Buffer.Queue.{writer-append}
use mini_distributed_storage.Wire.{htonl, length-htonl}
use mini_distributed_storage.Upload.{Effect, reply}
use mini_distributed_storage.Download.{Download, pass_on}
use mini_distributed_storage.Download.Blocks.{Empty, retrieve_all-Empty}

pub record Shared : Type 0 where
  pub bloc : Buffer
  pub sent : List Effect

-- `Bloc->append`, `Bloc->prepend` of the size, and `conn->send(Bloc->readAsString())`.
pub data BlocCall : Type 0 where
  puts sizes : Bytes → BlocCall
  gives : BlocCall

unfoldable pub make_call : BlocCall → Shared → Option Shared
make_call (puts content) s = some (record s { bloc = Buffer.append s.bloc content })
make_call (sizes content) s = do
  bloc ← Buffer.prepend s.bloc (htonl (length content))
  some (record s { bloc = bloc })
make_call gives s = do
  str ← read_as_string s.bloc
  some (record { bloc = str.1; sent = s.sent ++ reply str.0 ∷ [] })

unfoldable pub make_calls : List BlocCall → Shared → Option Shared
make_calls [] s = some s
make_calls (a ∷ as') s = do s' ← make_call a s; make_calls as' s'

-- What a thread does for one block.
abbrev pub calls_of : Bytes → List BlocCall
calls_of content = puts content ∷ sizes content ∷ gives ∷ []

-- `zs` takes the actions of `xs` and of `ys` each in order.
pub data Merge : List BlocCall → List BlocCall → List BlocCall → Type 0 where
  empty : Merge [] [] []
  left : (a : BlocCall) {xs ys zs : List BlocCall} → Merge xs ys zs → Merge (a ∷ xs) ys (a ∷ zs)
  right : (a : BlocCall) {xs ys zs : List BlocCall} → Merge xs ys zs → Merge xs (a ∷ ys) (a ∷ zs)

-- The message that the client should get for a block.
abbrev pub frame : Bytes → Effect
frame content = reply (htonl (length content) ++ content)

-- One of the orders in which two threads may run.
abbrev pub mixed : Bytes → Bytes → List BlocCall
mixed x y = puts x ∷ puts y ∷ sizes x ∷ gives ∷ sizes y ∷ gives ∷ []

mixed-Merge : (x y : Bytes) → Merge (calls_of x) (calls_of y) (mixed x y)
mixed-Merge x y =
    left (puts x)
      (right (puts y) (left (sizes x) (left gives (right (sizes y) (right gives empty)))))

mixed-make_calls :
    (x y : Bytes) (s : Shared)
    → Empty s.bloc
    → length x + length y < 2 ^ 62
    → (s' : Shared) × (make_calls (mixed x y) s ≡ some s')
      × (s'.sent ≡ s.sent ++ reply (htonl (length x) ++ (x ++ y)) ∷ reply (htonl (length y)) ∷ [])
      × Empty s'.bloc
unfolding make_calls make_call
mixed-make_calls x y s m h =
    let b1 = Buffer.append s.bloc x in
    let h1 = Holds-append x m.nothing (omega (arith, m.back)) in
    let w1 = writer-append s.bloc x m.nothing.valid (omega (arith, m.back)) in
    let h2 = Holds-append y h1 (omega (arith, w1, m.back)) in
    let r2 = reader-append b1 y (reader-append s.bloc x m.front) in
    let (c, e, h3) =
      prepend_lem h2 (htonl (length x)) (omega (arith, r2, length-htonl (length x))) in
    let m3 = retrieve_all-Empty h3 in
    let (c', e', h4) =
      prepend_lem m3.nothing (htonl (length y))
        (omega (arith, m3.front, length-htonl (length y))) in
    (
      record {
        bloc = retrieve_all c';
        sent =
            (s.sent ++ reply (htonl (length x) ++ (x ++ y)) ∷ [])
            ++ reply (htonl (length y) ++ []) ∷ [];
      },
      rw (e, read_as_string_lem h3, e', read_as_string_lem h4) refl,
      rw (append-nil (htonl (length y))) (
          append_assoc s.sent (reply (htonl (length x) ++ (x ++ y)) ∷ [])
            (reply (htonl (length y)) ∷ [])),
      retrieve_all-Empty h4,
    )

-- The same as `pass_on`, which the handlers of a single thread are modelled with.
pass_on-calls_of :
    (w : Download) (content : Bytes)
    → pass_on w content
      ≡ Option.map
          (λ s. record w { bloc = s.bloc; sent = s.sent })
          (make_calls (calls_of content) (record { bloc = w.bloc; sent = w.sent }))
unfolding pass_on make_calls make_call
pass_on-calls_of w content =
    elim (Option-cases (Buffer.prepend (Buffer.append w.bloc content) (htonl (length content)))) [
      | inl e ↦ rw e refl
      | inr (b, e) ↦ elim (Option-cases (read_as_string b)) [
        | inl e' ↦ rw (e, e') refl
        | inr (str, e') ↦ rw (e, e') refl
      ]
    ]

sent-ends : (es fs gs : List Effect) → es ++ fs ≡ es ++ gs → fs ≡ gs
sent-ends [] fs gs e = e
sent-ends (x ∷ es) fs gs e = let tails : es ++ fs ≡ es ++ gs = cc e in sent-ends es fs gs tails

-- No order of the right messages is that of the mixed ones.
mixed-wrong :
    (x y x' y' : Bytes) (es : List Effect)
    → 0 < length y'
    → es ++ reply (htonl (length x) ++ (x ++ y)) ∷ reply (htonl (length y)) ∷ []
      ≢ es ++ frame x' ∷ frame y' ∷ []
mixed-wrong x y x' y' es h e =
    let same = sent-ends es _ _ e in
    let last : htonl (length y) ≡ htonl (length y') ++ y' = cc same in
    omega (
      arith,
      ap length last,
      length-append (htonl (length y')) y',
      length-htonl (length y),
      length-htonl (length y'),
      h,
    )

-- Two threads pass on the blocks `x` and `y`, neither of them empty and together of fewer than 2^62
-- bytes, and `Bloc` is empty. There is an order of their calls in which the client is sent neither of
-- the two messages as it should be, in either order: it gets the size of `x` with the bytes of both,
-- and then the size of `y` with no byte behind it.
pub threads-Merge :
    (x y : Bytes) (s : Shared)
    → Empty s.bloc
    → 0 < length x
    → 0 < length y
    → length x + length y < 2 ^ 62
    → (zs : List BlocCall) × Merge (calls_of x) (calls_of y) zs
      × (s' : Shared) × (make_calls zs s ≡ some s')
      × (s'.sent ≡ s.sent ++ reply (htonl (length x) ++ (x ++ y)) ∷ reply (htonl (length y)) ∷ [])
      × (s'.sent ≢ s.sent ++ frame x ∷ frame y ∷ [])
      × (s'.sent ≢ s.sent ++ frame y ∷ frame x ∷ [])
threads-Merge x y s m hx hy h =
    let (s', e, sent, _) = mixed-make_calls x y s m h in
    (
      mixed x y,
      mixed-Merge x y,
      s',
      e,
      sent,
      λ right. mixed-wrong x y x y s.sent hy (sym sent ∙ right),
      λ right. mixed-wrong x y y x s.sent hx (sym sent ∙ right),
    )
