-- ===== src/Loop.antt =====
-- `Loop` of ReactorService/src/Loop.cc: the functors that other threads and handlers put into the
-- loop's list, and its eventfd. A functor is of any type `F`; `body f` are the functors that `f` puts
-- into the list of the same loop when it runs. `executed` lists what has run, and `wakeups` is the
-- counter of the eventfd: as long as it is not 0, `epoll_wait` returns at once.
pub mod Awake
mod Tests
use mini_distributed_storage.Base.{
  ℕ, ◌+◌, Bool, true, false, List, [], ◌∷◌, ◌++◌, ltb, if◌then◌else◌,
}

pub record Loop {ℓ} (F : Type ℓ) : Type ℓ where
  pub functors : List F
  pub call_functors : Bool
  pub wakeups : ℕ
  pub executed : List F

unfoldable pub wakeup {ℓ} : {F : Type ℓ} → Loop F → Loop F
wakeup l = record l { wakeups = l.wakeups + 1 }

-- `handleRead`: reading an eventfd sets its counter to 0.
unfoldable pub handle_read {ℓ} : {F : Type ℓ} → Loop F → Loop F
handle_read l = record l { wakeups = 0 }

-- `queueInLoop`; `is_in_loop_thread` tells which thread calls it.
unfoldable pub queue_in_loop {ℓ} : {F : Type ℓ} → Bool → F → Loop F → Loop F
queue_in_loop is_in_loop_thread cb l =
    let pushed = record l { functors = l.functors ++ cb ∷ [] } in
    if is_in_loop_thread then (if l.call_functors then wakeup pushed else pushed) else wakeup pushed

unfoldable pub queue_all {ℓ} : {F : Type ℓ} → List F → Loop F → Loop F
queue_all [] l = l
queue_all (f ∷ fs) l = queue_all fs (queue_in_loop true f l)

module _ {ℓ} {F : Type ℓ} (body : F → List F) where
  -- A functor runs in the thread of the loop.
  unfoldable pub execute : F → Loop F → Loop F
  execute f l = queue_all (body f) (record l { executed = l.executed ++ f ∷ [] })

  -- `runInLoop`.
  unfoldable pub run_in_loop : Bool → F → Loop F → Loop F
  run_in_loop is_in_loop_thread cb l =
      if is_in_loop_thread then execute cb l else queue_in_loop false cb l

  unfoldable pub execute_all : List F → Loop F → Loop F
  execute_all [] l = l
  execute_all (f ∷ fs) l = execute_all fs (execute f l)

  -- `doFunctors`: the list is swapped against an empty one, and then the functors run.
  unfoldable pub do_functors : Loop F → Loop F
  do_functors l =
      let l' = execute_all l.functors (record l { functors = []; call_functors = true }) in
      record l' { call_functors = false }

  -- One turn of `loop`: the eventfd is read if it can be, the handlers of the other events put `fs`
  -- into the list, and `doFunctors` runs.
  unfoldable pub turn : List F → Loop F → Loop F
  turn fs l = do_functors (queue_all fs (if ltb 0 l.wakeups then handle_read l else l))

-- What happens to a loop: another thread queues a functor while the loop is not in `doFunctors`, or the
-- loop takes a turn in which the handlers queue some.
pub data Action {ℓ} (F : Type ℓ) : Type ℓ where
  queues : F → Action F
  turns : List F → Action F

unfoldable pub act {ℓ} : {F : Type ℓ} → (F → List F) → Action F → Loop F → Loop F
act body (queues f) l = run_in_loop body false f l
act body (turns fs) l = turn body fs l

unfoldable pub act_all {ℓ} : {F : Type ℓ} → (F → List F) → List (Action F) → Loop F → Loop F
act_all body [] l = l
act_all body (a ∷ rest) l = act_all body rest (act body a l)
