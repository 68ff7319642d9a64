-- ===== src/Base/Loop.antt =====
-- `while (test) { … break … }` as a loop on fuel, its outcome, and the rules for it.
use Prim.Native.Nat.{ℕ, zero, suc, ◌<◌}
use mathlib.Core.Path.{◌≡◌, refl}
use mathlib.Core.Logic.{inl, inr}
use mathlib.Core.Bool.{Bool, true, false}
use mathlib.Core.Option.{Option, none, some}
use native.Mathlib.Omega.{arith}
use mini_distributed_storage.Base.Tests.{Bool-cases}

-- `fault` is an undefined access or an exception that nothing catches.
pub data Outcome {ℓ} (A : Type ℓ) : Type ℓ where
  done : A → Outcome A
  fault : Outcome A
  out_of_fuel : Outcome A

-- Straight code, which can only fault.
abbrev pub outcome {ℓ} : {A : Type ℓ} → Option A → Outcome A
outcome none = fault
outcome (some a) = done a

-- How a round of a loop ends: `next` goes on to the test, `stop` is `break`.
pub data Round {ℓ} (S : Type ℓ) : Type ℓ where
  next stop : S → Round S

module _ {ℓ} {S : Type ℓ} (test : S → Bool) (body : S → Option (Round S)) where
  unfoldable pub loop : ℕ → S → Outcome S
  loop zero s = out_of_fuel
  loop (suc fuel) s = elim (test s) [
    | false ↦ done s
    | true ↦ elim (body s) [
      | none ↦ fault
      | some r ↦ elim r [ next s' ↦ loop fuel s' | stop s' ↦ done s' ]
    ]
  ]

-- One turn of a loop.
module _ {ℓ} {S : Type ℓ} (test : S → Bool) (body : S → Option (Round S)) (fuel : ℕ) (s : S) where
  pub loop-over : test s ≡ false → loop test body (suc fuel) s ≡ done s
  unfolding loop
  loop-over e = rw (e, loop)

  pub loop-next :
      {s' : S}
      → test s ≡ true
      → body s ≡ some (next s')
      → loop test body (suc fuel) s ≡ loop test body fuel s'
  unfolding loop
  loop-next e f = rw (e, loop, f)

  pub loop-stop :
      {s' : S} → test s ≡ true → body s ≡ some (stop s') → loop test body (suc fuel) s ≡ done s'
  unfolding loop
  loop-stop e f = rw (e, loop, f)

  pub loop-fault : test s ≡ true → body s ≡ none → loop test body (suc fuel) s ≡ fault
  unfolding loop
  loop-fault e f = rw (e, loop, f)

-- The test fails, and there is fuel to find that out.
pub loop_done {ℓ} :
    {S : Type ℓ} (test : S → Bool) (body : S → Option (Round S)) (fuel : ℕ) (s : S)
    → 0 < fuel
    → test s ≡ false
    → loop test body fuel s ≡ done s
loop_done test body zero s h e = elim h [ ]
loop_done test body (suc fuel) s h e = loop-over test body fuel s e

-- The loop has ended in a state with `Q`, or faulted where `F` allows it; it did not run out of fuel.
abbrev pub Ends {ℓ} : {S : Type ℓ} → (S → Type 0) → Type 0 → Outcome S → Type 0
Ends Q F (done s) = Q s
Ends Q F fault = F
Ends Q F out_of_fuel = ⊥

-- One round from a state whose measure is `n`.
abbrev pub RoundEnds {ℓ} :
    {S : Type ℓ} → (S → Type 0) → (S → Type 0) → Type 0 → (S → ℕ) → ℕ → Option (Round S) → Type 0
RoundEnds P Q F measure n none = F
RoundEnds P Q F measure n (some (next s)) = P s × (measure s < n)
RoundEnds P Q F measure n (some (stop s)) = Q s

module _ {ℓ} {S : Type ℓ} (test : S → Bool) (body : S → Option (Round S)) (P Q : S → Type 0)
    (F : Type 0) (measure : S → ℕ) where
  round-Ends :
      (fuel n : ℕ) (r : Option (Round S))
      → n < suc fuel
      → RoundEnds P Q F measure n r
      → ((s : S) → P s → measure s < fuel → Ends Q F (loop test body fuel s))
      → Ends Q F (elim r [
        | none ↦ fault
        | some r ↦ elim r [ next s' ↦ loop test body fuel s' | stop s' ↦ done s' ]
      ])
  round-Ends fuel n none h r rec = r
  round-Ends fuel n (some (next s)) h r rec = rec s r.0 (omega arith)
  round-Ends fuel n (some (stop s)) h r rec = r

  -- The rule for a loop: an invariant that every round keeps, and a measure that every round which
  -- goes on lowers. Fuel above the measure is enough.
  pub loop-Ends :
      ((s : S) → P s → test s ≡ true → RoundEnds P Q F measure (measure s) (body s))
      → ((s : S) → P s → test s ≡ false → Q s)
      → (fuel : ℕ) (s : S) → measure s < fuel
      → P s
      → Ends Q F (loop test body fuel s)
  unfolding loop
  loop-Ends step finish zero s h p = elim h [ ]
  loop-Ends step finish (suc fuel) s h p = elim (Bool-cases (test s)) [
    | inl more ↦
        rw (more, loop)
          (round-Ends fuel (measure s) (body s) h (step s p more)
            (λ s' p' h'. loop-Ends step finish fuel s' h' p'))
    | inr over ↦ rw (over, loop) (finish s p over)
  ]

-- The same for a body that may fault: only what its successful rounds do has to be shown.
module _ {ℓ} {S : Type ℓ} (test : S → Bool) (body : S → Option (Round S)) (P Q : S → Type 0)
    (measure : S → ℕ) where
  round_or_fault :
      (n : ℕ) (r : Option (Round S))
      → ((t : Round S) → r ≡ some t → RoundEnds P Q (Unit {0}) measure n (some t))
      → RoundEnds P Q (Unit {0}) measure n r
  round_or_fault n none h = tt
  round_or_fault n (some t) h = h t refl

  pub loop-Ends_or_fault :
      ((s : S) (t : Round S)
        → P s
        → test s ≡ true
        → body s ≡ some t
        → RoundEnds P Q (Unit {0}) measure (measure s) (some t))
      → ((s : S) → P s → test s ≡ false → Q s)
      → (fuel : ℕ) (s : S) → measure s < fuel
      → P s
      → Ends Q (Unit {0}) (loop test body fuel s)
  loop-Ends_or_fault step finish =
      loop-Ends test body P Q (Unit {0}) measure
        (λ s p e. round_or_fault (measure s) (body s) (λ t e'. step s t p e e')) finish
