-- ===== src/LoopThread.antt =====
-- ReactorService/src/LoopThread.cc: the thread that calls `startLoop` and the new thread in
-- `threadFunc`, step by step. A step that holds the mutex is one step. `notify_one` wakes a thread
-- that waits and is lost otherwise. `Wakes` is a wakeup without a reason, which C++ allows.
pub mod Wakeup
mod Tests
use mini_distributed_storage.Base.{Bool, true, false, ◌≡◌}

-- Where the caller of `startLoop` stands: before the mutex, in `cond_.wait`, woken, or back.
pub data Caller : Type 0 where
  calls waits woken back : Caller

-- Where the new thread stands: before it has set `loop_`, or in `loop.loop()`.
pub data Worker : Type 0 where
  starts loops : Worker

-- `has_loop` tells whether `loop_` is set.
pub record LoopThread : Type 0 where
  pub caller : Caller
  pub worker : Worker
  pub has_loop : Bool

-- After the constructor.
abbrev pub constructed : LoopThread
constructed = record { caller = calls; worker = starts; has_loop = false }

abbrev pub notify_one : Caller → Caller
notify_one waits = woken
notify_one c = c

-- A step of `startLoop` or of `threadFunc`.
pub data Step (t : LoopThread) : LoopThread → Type 0 where
  wait : t.caller ≡ calls → Step t (record t { caller = waits })
  return : t.caller ≡ woken → Step t (record t { caller = back })
  publish :
      t.worker ≡ starts
      → Step t (record { caller = notify_one t.caller; worker = loops; has_loop = true })

-- The end of `cond_.wait` without a notification.
pub data Wakes (t : LoopThread) : LoopThread → Type 0 where
  spurious : t.caller ≡ waits → Wakes t (record t { caller = woken })

-- Any number of steps and of wakeups.
pub data Reach (t : LoopThread) : LoopThread → Type 0 where
  stay : Reach t t
  later : {u v : LoopThread} → Reach t u → Step u v → Reach t v
  wakes : {u v : LoopThread} → Reach t u → Wakes u v → Reach t v
