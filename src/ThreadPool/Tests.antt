-- ===== src/ThreadPool/Tests.antt =====
-- The witness of ThreadPool.
use mini_distributed_storage.Base.{
  ℕ, ◌+◌, ◌%◌, ◌<◌, ◌≡◌, refl, Option, some, List, length, get_elem?, arith,
}
use mini_distributed_storage.ThreadPool
use mini_distributed_storage.ThreadPool.{ThreadPool, get_loops}
use mini_distributed_storage.ThreadPool.Turns.{start-turns}

abbrev start_loop : ℕ → Option ℕ
start_loop i = some (10 + i)

start-turns_example :
    (p : ThreadPool ℕ) × (ThreadPool.start start_loop
        (ThreadPool.set_thread_num 3 (ThreadPool.new 0))
      ≡ some p)
    × (out : List ℕ) × (get_loops 5 p ≡ some out)
    × (length out ≡ 5)
    × ((i : ℕ) → i < 5 → get_elem? out i ≡ some (10 + i % 3))
start-turns_example = start-turns start_loop (λ i. 10 + i) 0 3 5 (omega arith) (λ j lt. refl)
