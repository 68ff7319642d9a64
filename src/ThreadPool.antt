-- ===== src/ThreadPool.antt =====
-- ReactorService/src/ThreadPool.cc: the start of the threads, and `getNextLoop`, which gives each new
-- connection a loop. A loop is of any type, and `next` an `int` that stays below the number of loops.
-- `threads_`, which only keeps the threads alive, is left out.
pub mod Turns
mod Tests
use mini_distributed_storage.Base.{
  ℕ, zero, suc, ◌+◌, ◌<◌, Bool, true, false, Option, none, some, List, [], ◌∷◌, ◌++◌, ◌>>=◌, length,
  get_elem?, leb, if◌then◌else◌,
}

pub record ThreadPool {ℓ} (A : Type ℓ) : Type ℓ where
  pub base_loop : A
  pub num_threads : ℕ
  pub next : ℕ
  pub loops : List A

-- The constructor.
abbrev pub new {ℓ} : {A : Type ℓ} → A → ThreadPool A
new base_loop = record { base_loop = base_loop; num_threads = 0; next = 0; loops = [] }

abbrev pub set_thread_num {ℓ} : {A : Type ℓ} → ℕ → ThreadPool A → ThreadPool A
set_thread_num num_threads p = record p { num_threads = num_threads }

-- `k` rounds of the loop of `start`, from the thread `i` on. `start_loop i` is what `startLoop` of
-- that thread returns, `none` when it does not return.
unfoldable pub start_rounds {ℓ} :
    {A : Type ℓ} → (ℕ → Option A) → ℕ → ℕ → ThreadPool A → Option (ThreadPool A)
start_rounds start_loop zero i p = some p
start_rounds start_loop (suc k) i p = do
  loop ← start_loop i
  start_rounds start_loop k (suc i) (record p { loops = p.loops ++ loop ∷ [] })

-- `start`.
abbrev pub start {ℓ} : {A : Type ℓ} → (ℕ → Option A) → ThreadPool A → Option (ThreadPool A)
start start_loop p = start_rounds start_loop p.num_threads 0 p

unfoldable pub is_empty {ℓ} : {A : Type ℓ} → List A → Bool
is_empty [] = true
is_empty (x ∷ xs) = false

-- `getNextLoop`; `none` is an index outside the vector.
unfoldable pub get_next_loop {ℓ} : {A : Type ℓ} → ThreadPool A → Option (A × ThreadPool A)
get_next_loop p = if is_empty p.loops then some (p.base_loop, p) else (do
  loop ← get_elem? p.loops p.next
  let next = suc p.next
  some (loop, record p { next = (if leb (length p.loops) next then 0 else next) }))

-- The loops that `k` calls give.
unfoldable pub get_loops {ℓ} : {A : Type ℓ} → ℕ → ThreadPool A → Option (List A)
get_loops zero p = some []
get_loops (suc k) p = do r ← get_next_loop p; rest ← get_loops k r.1; some (r.0 ∷ rest)
