-- ===== src/Buffer/Tests.antt =====
-- The witnesses of Buffer.
use mini_distributed_storage.Base.{◌≡◌, refl, some, List, [], ◌∷◌, codes, arith}
use mini_distributed_storage.Buffer.{new}
use mini_distributed_storage.Buffer.Contents.{new-Holds}
use mini_distributed_storage.Buffer.Queue.{
  Call, appends, reads_block, reads_string, run, queue_run, queue_call, run_refines,
}

-- Two messages arrive, a block is read, and then the rest.
abbrev calls : List Call
calls =
    appends (codes "abc")
    ∷ appends (codes "de")
    ∷ reads_block 4
    ∷ appends (codes "f")
    ∷ reads_string
    ∷ []

served : queue_run [] calls ≡ some ([] ∷ [] ∷ codes "abcd" ∷ [] ∷ codes "ef" ∷ [])
unfolding queue_run queue_call
served = refl

run_refines_example : run new calls ≡ some ([] ∷ [] ∷ codes "abcd" ∷ [] ∷ codes "ef" ∷ [])
run_refines_example = run_refines new [] calls _ new-Holds (omega arith) served
