-- ===== src/EPoller/Tests.antt =====
-- The witness of EPoller.
use mini_distributed_storage.Base.{◌≡◌, Bool, false, some, [], ◌∷◌}
use mini_distributed_storage.EPoller.{
  Statu, k_new, enable_reading, enable_writing, disable_all, remove, calls,
}
use mini_distributed_storage.EPoller.Registered.{in_step, calls-in_step}

-- The life of a connection: `disableAll` is called at its close and again when it is destroyed.
calls-in_step_example :
    (statu' : Statu) × (r' w' : Bool) × (calls
        (in_step k_new false false)
        (enable_reading ∷ enable_writing ∷ disable_all ∷ disable_all ∷ remove ∷ [])
      ≡ some (in_step statu' r' w'))
calls-in_step_example =
    calls-in_step k_new false false
      (enable_reading ∷ enable_writing ∷ disable_all ∷ disable_all ∷ remove ∷ [])
