-- ===== src/EPoller/Registered.antt =====
-- The status of an event agrees with the kernel.
use mini_distributed_storage.Base.{◌≡◌, refl, Bool, true, false, Option, none, some, List, [], ◌∷◌}
use mini_distributed_storage.EPoller.{
  Statu, k_new, k_added, k_deleted, Mask, EpollEvent, ctl, update_event, remove_event, Call,
  enable_reading, enable_writing, disable_writing, disable_all, remove, call, calls,
}

-- The kernel has the descriptor, with the mask `m`, exactly when the status is `kAdded`.
unfoldable pub registered : Statu → Mask → Option Mask
registered k_added m = some m
registered _ m = none

-- An event whose status agrees with the kernel.
abbrev pub in_step : Statu → Bool → Bool → EpollEvent
in_step statu r w =
    let m : Mask = record { reading = r; writing = w } in
    record { events = m; statu = statu; kernel = registered statu m }

-- The call is not refused, and the status agrees with the kernel again.
abbrev Goes : Option EpollEvent → Type 0
Goes result = (statu : Statu) × (r w : Bool) × (result ≡ some (in_step statu r w))

update_event-Goes :
    (statu : Statu) (old : Mask) (r w : Bool)
    → Goes (
        update_event (record {
          events = record { reading = r; writing = w };
          statu = statu;
          kernel = registered statu old;
        }))
unfolding update_event ctl registered
update_event-Goes k_new old r w = (k_added, r, w, refl)
update_event-Goes k_deleted old r w = (k_added, r, w, refl)
update_event-Goes k_added old true w = (k_added, true, w, refl)
update_event-Goes k_added old false true = (k_added, false, true, refl)
update_event-Goes k_added old false false = (k_deleted, false, false, refl)

remove_event-Goes : (statu : Statu) (r w : Bool) → Goes (remove_event (in_step statu r w))
unfolding remove_event ctl registered
remove_event-Goes k_new r w = (k_new, r, w, refl)
remove_event-Goes k_added r w = (k_new, r, w, refl)
remove_event-Goes k_deleted r w = (k_new, r, w, refl)

call-Goes : (statu : Statu) (r w : Bool) (c : Call) → Goes (call (in_step statu r w) c)
unfolding call
call-Goes statu r w enable_reading = update_event-Goes statu _ true w
call-Goes statu r w enable_writing = update_event-Goes statu _ r true
call-Goes statu r w disable_writing = update_event-Goes statu _ r false
call-Goes statu r w disable_all = update_event-Goes statu _ false false
call-Goes statu r w remove = remove_event-Goes statu r w

-- Whatever the owner of an event calls, and in whatever order, from a state in which the kernel has
-- the descriptor with the event's mask exactly when the status is `kAdded`: the kernel refuses no
-- `epoll_ctl`, and the state at the end is of the same kind.
pub calls-in_step :
    (statu : Statu) (r w : Bool) (cs : List Call)
    → (statu' : Statu) × (r' w' : Bool) × (calls (in_step statu r w) cs
        ≡ some (in_step statu' r' w'))
unfolding calls
calls-in_step statu r w [] = (statu, r, w, refl)
calls-in_step statu r w (c ∷ cs) =
    let (statu1, r1, w1, once) = call-Goes statu r w c in
    let (statu', r', w', rest) = calls-in_step statu1 r1 w1 cs in (statu', r', w', rw (once, rest))
