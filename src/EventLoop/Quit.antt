-- ===== src/EventLoop/Quit.antt =====
-- When `quit` ends a loop.
use mini_distributed_storage.Base.{Bool, true, false, ◌≡◌, ◌≢◌, refl}
use mini_distributed_storage.EventLoop.{
  Place, outside, inside, behind, Looping, set_quit, Step, enter, turn, leave, Reach, stay, later,
}

-- Outside, or inside without a request to quit.
abbrev stays_on : Place → Bool → Bool
stays_on outside q = true
stays_on inside false = true
stays_on inside true = false
stays_on behind q = false

Step-stays_on :
    {l m : Looping} → stays_on l.place l.quit ≡ true → Step l m → stays_on m.place m.quit ≡ true
Step-stays_on h (enter e) = refl
Step-stays_on h (turn e f) = h
Step-stays_on h (leave e f) = let contra : false ≡ true = rw (e, f) at h in cc contra

Reach-stays_on :
    {l m : Looping} → stays_on l.place l.quit ≡ true → Reach l m → stays_on m.place m.quit ≡ true
Reach-stays_on h stay = h
Reach-stays_on h (later r s) = Step-stays_on (Reach-stays_on h r) s

-- A call of `quit` before the thread has entered `loop` is lost: without another call the loop is not
-- left, whatever steps the thread takes.
pub set_quit-lost : (l m : Looping) → l.place ≡ outside → Reach (set_quit l) m → m.place ≢ behind
unfolding set_quit
set_quit-lost l m e r b =
    let on = Reach-stays_on (rw e refl) r in let contra : false ≡ true = rw b at on in cc contra

-- Inside with a request to quit, or behind.
abbrev is_ending : Place → Bool → Bool
is_ending outside q = false
is_ending inside q = q
is_ending behind q = true

Step-leaves : {l m : Looping} → is_ending l.place l.quit ≡ true → Step l m → m.place ≡ behind
Step-leaves h (enter e) = let contra : false ≡ true = rw e at h in cc contra
Step-leaves h (turn e f) = let contra : false ≡ true = rw (e, f) at h in cc contra
Step-leaves h (leave e f) = refl

-- A call of `quit` while the thread is inside: the next step of the thread leaves the loop.
pub set_quit-leaves : (l m : Looping) → l.place ≡ inside → Step (set_quit l) m → m.place ≡ behind
unfolding set_quit
set_quit-leaves l m e s = Step-leaves (rw e refl) s
