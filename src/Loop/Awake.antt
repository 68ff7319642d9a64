-- ===== src/Loop/Awake.antt =====
-- A turn of the loop runs all that is in the list, in order, and the loop does not sleep on a list
-- that is not empty.
use mini_distributed_storage.Base.{
  ℕ, zero, suc, ◌+◌, ◌<◌, ◌≡◌, refl, ◌∙◌, ◌⊎◌, inl, inr, true, false, List, [], ◌∷◌, ◌++◌,
  append_assoc, append-nil, length, length-append, ltb, if◌then◌else◌, arith,
}
use mini_distributed_storage.Loop.{
  Loop, wakeup, handle_read, queue_in_loop, queue_all, execute, execute_all, do_functors, turn,
  run_in_loop, Action, queues, turns, act, act_all,
}

-- The loop's list is empty, or `epoll_wait` will not block.
abbrev pub IsAwake {ℓ} : {F : Type ℓ} → Loop F → Type ℓ
IsAwake l = (l.functors ≡ []) ⊎ (0 < l.wakeups)

plus_zero : (n : ℕ) → n + 0 ≡ n
plus_zero n = omega arith

zero_plus : (n : ℕ) → 0 + n ≡ n
zero_plus n = omega arith

plus_suc : (n m : ℕ) → n + 1 + m ≡ n + suc m
plus_suc n m = omega arith

plus_assoc : (a b c : ℕ) → a + b + c ≡ a + (b + c)
plus_assoc a b c = omega arith

module _ {ℓ} {F : Type ℓ} where
  -- What handlers put into the list outside `doFunctors`.
  queue_all_outside :
      (fs : List F) (functors executed : List F) (wakeups : ℕ)
      → queue_all fs (record {
        functors = functors;
        call_functors = false;
        wakeups = wakeups;
        executed = executed;
      })
        ≡ record {
          functors = functors ++ fs;
          call_functors = false;
          wakeups = wakeups;
          executed = executed;
        }
  unfolding queue_all queue_in_loop
  queue_all_outside [] functors executed wakeups = rw (append-nil functors)
  queue_all_outside (f ∷ fs) functors executed wakeups =
      queue_all_outside fs (functors ++ f ∷ []) executed wakeups
      ∙ rw (append_assoc functors (f ∷ []) fs)

  -- What functors put into the list that run in `doFunctors`.
  queue_all_inside :
      (fs : List F) (functors executed : List F) (wakeups : ℕ)
      → queue_all fs (record {
        functors = functors;
        call_functors = true;
        wakeups = wakeups;
        executed = executed;
      })
        ≡ record {
          functors = functors ++ fs;
          call_functors = true;
          wakeups = wakeups + length fs;
          executed = executed;
        }
  unfolding queue_all queue_in_loop wakeup
  queue_all_inside [] functors executed wakeups = rw (append-nil functors, plus_zero wakeups)
  queue_all_inside (f ∷ fs) functors executed wakeups =
      queue_all_inside fs (functors ++ f ∷ []) executed (wakeups + 1)
      ∙ rw (append_assoc functors (f ∷ []) fs, plus_suc wakeups (length fs))

  -- What the functors `fs` put into the list.
  pub bodies : (F → List F) → List F → List F
  bodies body [] = []
  bodies body (f ∷ fs) = body f ++ bodies body fs

  execute_all_lem :
      (body : F → List F) (fs functors executed : List F) (wakeups : ℕ)
      → execute_all body fs (record {
        functors = functors;
        call_functors = true;
        wakeups = wakeups;
        executed = executed;
      })
        ≡ record {
          functors = functors ++ bodies body fs;
          call_functors = true;
          wakeups = wakeups + length (bodies body fs);
          executed = executed ++ fs;
        }
  unfolding execute_all execute bodies
  execute_all_lem body [] functors executed wakeups =
      rw (append-nil functors, append-nil executed, plus_zero wakeups)
  execute_all_lem body (f ∷ fs) functors executed wakeups =
      rw (queue_all_inside (body f) functors (executed ++ f ∷ []) wakeups) (
        execute_all_lem body fs (functors ++ body f) (executed ++ f ∷ [])
          (wakeups + length (body f))
        ∙ rw (
          append_assoc functors (body f) (bodies body fs),
          append_assoc executed (f ∷ []) fs,
          plus_assoc wakeups (length (body f)) (length (bodies body fs)),
          length-append (body f) (bodies body fs),
        ))

  -- A loop that is not in `doFunctors`.
  abbrev pub outside : List F → List F → ℕ → Loop F
  outside functors executed wakeups = record {
    functors = functors;
    call_functors = false;
    wakeups = wakeups;
    executed = executed;
  }

  -- The counter that `doFunctors` starts from.
  read_lem :
      (functors executed : List F) (wakeups : ℕ)
      → (if ltb 0 wakeups
          then handle_read (outside functors executed wakeups)
          else outside functors executed wakeups)
        ≡ outside functors executed 0
  unfolding handle_read
  read_lem functors executed zero = refl
  read_lem functors executed (suc n) =
      let some_wakeup : ltb 0 (suc n) ≡ true = ground arith in rw some_wakeup

  -- A turn of the loop, in which the handlers queue `fs`, runs every functor that was in the list and
  -- every one of `fs` once, in the order in which they were queued, and leaves in the list just what
  -- these functors have queued meanwhile; the counter of the eventfd is then the number of functors
  -- in the list.
  pub turn_lem :
      (body : F → List F) (fs functors executed : List F) (wakeups : ℕ)
      → turn body fs (outside functors executed wakeups) ≡ (
          let queued = bodies body (functors ++ fs) in
          outside queued (executed ++ (functors ++ fs)) (length queued))
  unfolding turn do_functors
  turn_lem body fs functors executed wakeups = rw (
    read_lem functors executed wakeups,
    queue_all_outside fs functors executed 0,
    execute_all_lem body (functors ++ fs) [] executed 0,
    zero_plus (length (bodies body (functors ++ fs))),
  )

  -- What the loop is after an action: it is not in `doFunctors`, and awake.
  abbrev Awake : Loop F → Type ℓ
  Awake l =
      (functors executed : List F) × (wakeups : ℕ) × (l ≡ outside functors executed wakeups)
      × ((functors ≡ []) ⊎ (0 < wakeups))

  counted : (fs : List F) → (fs ≡ []) ⊎ (0 < length fs)
  counted [] = inl refl
  counted (f ∷ fs) = inr (omega arith)

  act-Awake :
      (body : F → List F) (a : Action F) (functors executed : List F) (wakeups : ℕ)
      → Awake (act body a (outside functors executed wakeups))
  unfolding act run_in_loop queue_in_loop wakeup
  act-Awake body (queues f) functors executed wakeups =
      (functors ++ f ∷ [], executed, wakeups + 1, refl, inr (omega arith))
  act-Awake body (turns fs) functors executed wakeups = (
    bodies body (functors ++ fs),
    executed ++ (functors ++ fs),
    length (bodies body (functors ++ fs)),
    turn_lem body fs functors executed wakeups,
    counted (bodies body (functors ++ fs)),
  )

  act_all-Awake :
      (body : F → List F) (actions : List (Action F)) (functors executed : List F) (wakeups : ℕ)
      → (functors ≡ []) ⊎ (0 < wakeups)
      → Awake (act_all body actions (outside functors executed wakeups))
  unfolding act_all
  act_all-Awake body [] functors executed wakeups h = (functors, executed, wakeups, refl, h)
  act_all-Awake body (a ∷ rest) functors executed wakeups h =
      let (functors1, executed1, wakeups1, e, h1) = act-Awake body a functors executed wakeups in
      rw e (act_all-Awake body rest functors1 executed1 wakeups1 h1)

  -- A loop that has not begun is awake after any sequence of turns and of functors that other threads
  -- queue between them: its list is empty, or `epoll_wait` will return at once.
  pub act_all-IsAwake :
      (body : F → List F) (actions : List (Action F))
      → IsAwake (act_all body actions (outside [] [] 0))
  act_all-IsAwake body actions =
      let (functors, executed, wakeups, e, h) = act_all-Awake body actions [] [] 0 (inl refl) in
      rw e h
