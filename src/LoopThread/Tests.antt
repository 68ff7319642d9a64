-- ===== src/LoopThread/Tests.antt =====
-- The two orders of `startLoop` and the new thread.
use mini_distributed_storage.Base.{true, false, ◌≡◌, refl, ◌⊎◌}
use mini_distributed_storage.LoopThread.{calls, waits, back, starts, loops, LoopThread, Step, stay}
use mini_distributed_storage.LoopThread.Wakeup.{start_loop-progress}

abbrev too_early : LoopThread
too_early = record { caller = calls; worker = loops; has_loop = true }

abbrev stuck : LoopThread
stuck = record { caller = waits; worker = loops; has_loop = true }

abbrev returned : LoopThread
returned = record stuck { caller = back }

abbrev in_time : LoopThread
in_time = record { caller = waits; worker = starts; has_loop = false }

start_loop-progress_example : (in_time.caller ≡ back) ⊎ ((v : LoopThread) × Step in_time v)
start_loop-progress_example = start_loop-progress in_time in_time refl refl stay
