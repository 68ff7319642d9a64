-- ===== src/Loop/Tests.antt =====
-- The witnesses of Loop.
use mini_distributed_storage.Base.{ℕ, zero, suc, ◌≡◌, List, [], ◌∷◌, length}
use mini_distributed_storage.Loop.{turn, act_all, queues, turns}
use mini_distributed_storage.Loop.Awake.{IsAwake, bodies, outside, turn_lem, act_all-IsAwake}

-- The functor with the number n + 1 queues the one with the number n.
abbrev count_down : ℕ → List ℕ
count_down zero = []
count_down (suc n) = n ∷ []

turn_lem_example :
    turn count_down (7 ∷ []) (outside (2 ∷ 0 ∷ []) [] 1)
    ≡ outside
        (bodies count_down (2 ∷ 0 ∷ 7 ∷ []))
        (2 ∷ 0 ∷ 7 ∷ [])
        (length (bodies count_down (2 ∷ 0 ∷ 7 ∷ [])))
turn_lem_example = turn_lem count_down (7 ∷ []) (2 ∷ 0 ∷ []) [] 1

act_all-IsAwake_example :
    IsAwake (act_all count_down (queues 2 ∷ turns (5 ∷ []) ∷ []) (outside [] [] 0))
act_all-IsAwake_example = act_all-IsAwake count_down (queues 2 ∷ turns (5 ∷ []) ∷ [])
