-- ===== src/ThreadPool/Turns.antt =====
-- The loops take turns.
use mini_distributed_storage.Base.{
  ℕ, zero, suc, ◌+◌, ◌%◌, ◌<◌, ◌≡◌, refl, sym, ◌∙◌, ap, Bool-cases, inl, inr, false, some, List, [],
  ◌∷◌, ◌++◌, Option, length, length-append, get_elem?, get_elem?_below, leb, if◌then◌else◌, arith,
}
use native.Mathlib.Nat.{mod-add-mod, mod-lt, mod-eq_of_lt, mod_self}
use mini_distributed_storage.ThreadPool
use mini_distributed_storage.ThreadPool.{
  ThreadPool, start_rounds, is_empty, get_next_loop, get_loops,
}

-- A vector with an index is not empty.
is_empty_below {ℓ} : {A : Type ℓ} (xs : List A) (i : ℕ) → i < length xs → is_empty xs ≡ false
unfolding is_empty
is_empty_below [] i h = elim h [ ]
is_empty_below (x ∷ xs) i h = refl

-- The index after `i`.
wrapped : (i n : ℕ) → i < n → (if leb n (suc i) then 0 else suc i) ≡ suc i % n
wrapped i n h = elim (Bool-cases (leb n (suc i))) [
  | inl last ↦ let same : suc i ≡ n = ground (arith, last) in rw (last, same, mod_self n)
  | inr inner ↦ rw inner (sym (mod-eq_of_lt (ground (arith, inner))))
]

-- A call on a pool with loops.
get_next_loop_lem {ℓ} :
    {A : Type ℓ} (p : ThreadPool A)
    → p.next < length p.loops
    → (loop : A) × (get_elem? p.loops p.next ≡ some loop)
      × (get_next_loop p ≡ some (loop, record p { next = suc p.next % length p.loops }))
unfolding get_next_loop
get_next_loop_lem p h =
    let (loop, here) = get_elem?_below p.loops p.next h in
    (loop, here, rw (is_empty_below p.loops p.next h, here, wrapped p.next (length p.loops) h))

-- The calls after the first.
later_turn {ℓ} :
    {A : Type ℓ} (p : ThreadPool A) (loop : A) (out : List A) (k : ℕ)
    → p.next < length p.loops
    → get_elem? p.loops p.next ≡ some loop
    → ((i : ℕ)
        → i < k
        → get_elem? out i ≡ get_elem? p.loops ((suc p.next % length p.loops + i) % length p.loops))
    → (i : ℕ) → i < suc k
    → get_elem? (loop ∷ out) i ≡ get_elem? p.loops ((p.next + i) % length p.loops)
later_turn p loop out k h here turns zero lt =
    let same : (p.next + 0) % length p.loops ≡ p.next =
      ap (λ j. j % length p.loops) (omega arith) ∙ mod-eq_of_lt h in
    rw same (sym here)
later_turn p loop out k h here turns (suc i) lt =
    let same : (suc p.next % length p.loops + i) % length p.loops
        ≡ (p.next + suc i) % length p.loops =
      mod-add-mod (suc p.next) (length p.loops) i ∙ ap (λ j. j % length p.loops) (omega arith) in
    turns i (omega arith) ∙ ap (λ j. get_elem? p.loops j) same

-- In a pool that has loops, with `next_` in range, `k` calls of `getNextLoop` give `k` loops, and the
-- call with the number `i` gives the loop `i` places behind `next_`, from the last on to the first.
pub get_loops-turns {ℓ} :
    {A : Type ℓ} (k : ℕ) (p : ThreadPool A)
    → p.next < length p.loops
    → (out : List A) × (get_loops k p ≡ some out)
      × (length out ≡ k)
      × ((i : ℕ) → i < k → get_elem? out i ≡ get_elem? p.loops ((p.next + i) % length p.loops))
unfolding get_loops
get_loops-turns zero p h = ([], refl, refl, λ i lt. elim lt [ ])
get_loops-turns (suc k) p h =
    let (loop, here, call) = get_next_loop_lem p h in
    let n = length p.loops in
    let (out, rest, count, turns) =
      get_loops-turns k (record p { next = suc p.next % n }) (mod-lt (suc p.next) (omega arith)) in
    let turn : (i : ℕ)
        → i < suc k
        → get_elem? (loop ∷ out) i ≡ get_elem? p.loops ((p.next + i) % n) =
      λ i lt. later_turn p loop out k h here turns i lt in
    (loop ∷ out, rw (call, rest), ap suc count, turn)

get_elem?_grown {ℓ} :
    {A : Type ℓ} (xs : List A) (x : A) (i : ℕ) (loop_of : ℕ → A)
    → length xs ≡ i
    → ((j : ℕ) → j < i → get_elem? xs j ≡ some (loop_of j))
    → x ≡ loop_of i
    → (j : ℕ) → j < suc i
    → get_elem? (xs ++ x ∷ []) j ≡ some (loop_of j)
get_elem?_grown [] x zero loop_of count before here zero lt = ap some here
get_elem?_grown [] x zero loop_of count before here (suc j) lt = absurd (omega (arith, lt))
get_elem?_grown [] x (suc i) loop_of count before here j lt = absurd (omega (arith, count))
get_elem?_grown (y ∷ xs) x zero loop_of count before here j lt = absurd (omega (arith, count))
get_elem?_grown (y ∷ xs) x (suc i) loop_of count before here zero lt = before 0 (omega arith)
get_elem?_grown (y ∷ xs) x (suc i) loop_of count before here (suc j) lt =
    get_elem?_grown xs x i (λ m. loop_of (suc m)) (omega (arith, count))
      (λ m h. before (suc m) (omega (arith, h))) here j (omega (arith, lt))

-- The loops of threads that have been started.
started_rounds {ℓ} :
    {A : Type ℓ} (start_loop : ℕ → Option A) (loop_of : ℕ → A) (k i : ℕ) (p : ThreadPool A)
    → ((j : ℕ) → j < i + k → start_loop j ≡ some (loop_of j))
    → length p.loops ≡ i
    → ((j : ℕ) → j < i → get_elem? p.loops j ≡ some (loop_of j))
    → (q : ThreadPool A) × (start_rounds start_loop k i p ≡ some q)
      × (q.next ≡ p.next)
      × (length q.loops ≡ i + k)
      × ((j : ℕ) → j < i + k → get_elem? q.loops j ≡ some (loop_of j))
unfolding start_rounds
started_rounds start_loop loop_of zero i p returns count before =
    (p, refl, refl, omega (arith, count), λ j lt. before j (omega arith))
started_rounds start_loop loop_of (suc k) i p returns count before =
    let p' = record p { loops = p.loops ++ loop_of i ∷ [] } in
    let (q, run, next, size, all) =
      started_rounds start_loop loop_of k (suc i) p' (λ j lt. returns j (omega arith))
        (omega (arith, length-append p.loops (loop_of i ∷ []), count))
        (get_elem?_grown p.loops (loop_of i) i loop_of count before refl) in
    (q, rw (returns i (omega arith)) run, next, omega (arith, size), λ j lt. all j (omega arith))

-- A new pool is given a number of threads above 0 and started, and `startLoop` returns in each of the
-- threads. Then `start` returns, and of `k` calls of `getNextLoop` the call with the number `i` gives
-- the loop of the thread `i` modulo the number of threads; the base loop is not used.
pub start-turns {ℓ} :
    {A : Type ℓ} (start_loop : ℕ → Option A) (loop_of : ℕ → A) (base_loop : A) (n k : ℕ)
    → 0 < n
    → ((j : ℕ) → j < n → start_loop j ≡ some (loop_of j))
    → (p : ThreadPool A) × (ThreadPool.start start_loop
          (ThreadPool.set_thread_num n (ThreadPool.new base_loop))
        ≡ some p)
      × (out : List A) × (get_loops k p ≡ some out)
      × (length out ≡ k)
      × ((i : ℕ) → i < k → get_elem? out i ≡ some (loop_of (i % n)))
start-turns start_loop loop_of base_loop n k some_thread returns =
    let (p, run, next, size, all) =
      started_rounds start_loop loop_of n 0 (ThreadPool.set_thread_num n (ThreadPool.new base_loop))
        (λ j lt. returns j (omega arith)) refl (λ j lt. elim lt [ ]) in
    let size' : length p.loops ≡ n = omega (arith, size) in
    let (out, calls, count, turns) =
      get_loops-turns k p (omega (arith, size', next, some_thread)) in
    (
      p,
      run,
      out,
      calls,
      count,
      λ i lt.
          let first : (p.next + i) % length p.loops ≡ i % n =
            rw (next, size') (ap (λ j. j % n) (omega arith)) in
          turns i lt
          ∙ ap (λ j. get_elem? p.loops j) first
          ∙ all (i % n) (omega (arith, mod-lt i some_thread)),
    )
