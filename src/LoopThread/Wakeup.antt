-- ===== src/LoopThread/Wakeup.antt =====
-- Whether `startLoop` returns, by the order of the two threads.
use mini_distributed_storage.Base.{Bool, true, false, ◌≡◌, ◌≢◌, refl, ◌⊎◌, inl, inr}
use mini_distributed_storage.LoopThread.{
  Caller, calls, waits, woken, back, Worker, starts, loops, LoopThread, constructed, notify_one,
  Step, wait, return, publish, spurious, Reach, stay, later, wakes,
}

abbrev is_loops : Worker → Bool
is_loops starts = false
is_loops loops = true

abbrev is_waits : Caller → Bool
is_waits calls = false
is_waits waits = true
is_waits woken = false
is_waits back = false

-- The caller does not wait when the loop has been set, nor has it still to begin.
abbrev in_order : Caller → Worker → Bool
in_order calls w = false
in_order waits starts = true
in_order waits loops = false
in_order woken w = true
in_order back w = true

abbrev IsGoing : LoopThread → Type 0
IsGoing t = in_order t.caller t.worker ≡ true

woken_next : (c : Caller) → in_order c starts ≡ true → in_order (notify_one c) loops ≡ true
woken_next calls h = cc
woken_next waits h = refl
woken_next woken h = refl
woken_next back h = refl

not_calls : (w : Worker) → in_order calls w ≢ true
not_calls w h = cc

Step-IsGoing : {t u : LoopThread} → IsGoing t → Step t u → IsGoing u
Step-IsGoing {t = t} h (wait e) = absurd (not_calls t.worker (rw e at h))
Step-IsGoing h (return e) = refl
Step-IsGoing {t = t} h (publish e) = woken_next t.caller (rw e at h)

Reach-IsGoing : {t u : LoopThread} → IsGoing t → Reach t u → IsGoing u
Reach-IsGoing h stay = h
Reach-IsGoing h (later r s) = Step-IsGoing (Reach-IsGoing h r) s
Reach-IsGoing h (wakes r (spurious e)) = refl

next-Step :
    (c : Caller) (w : Worker) (set : Bool)
    → in_order c w ≡ true
    → (c ≡ back) ⊎ ((v : LoopThread) × Step (record { caller = c; worker = w; has_loop = set }) v)
next-Step calls w set h = absurd (not_calls w h)
next-Step waits starts set h = inr (_, publish refl)
next-Step waits loops set h = cc
next-Step woken w set h = inr (_, return refl)
next-Step back w set h = inl refl

-- If the caller of `startLoop` waits before the new thread has set `loop_`, then in every state that
-- follows, with wakeups without a reason or not, `startLoop` has returned, or a thread has a step: it
-- does not depend on such a wakeup.
pub start_loop-progress :
    (t u : LoopThread)
    → t.worker ≡ starts
    → t.caller ≡ waits
    → Reach t u
    → (u.caller ≡ back) ⊎ ((v : LoopThread) × Step u v)
start_loop-progress t u e f r =
    next-Step u.caller u.worker u.has_loop (Reach-IsGoing (rw (e, f) refl) r)

-- A wakeup without a reason can end `startLoop` before the new thread has set `loop_`: then it
-- returns NULL.
pub start_loop-null :
    (u : LoopThread) × Reach constructed u × (u.caller ≡ back) × (u.has_loop ≡ false)
start_loop-null =
    (_, later (wakes (later stay (wait refl)) (spurious refl)) (return refl), refl, refl)
