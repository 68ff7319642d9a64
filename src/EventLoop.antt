-- ===== src/EventLoop.antt =====
-- The loop of events: `EPoller::epoll` and `pushActiveEvents` of ReactorService/src/EPoller.cc,
-- `EpollEvent::handleEvent` of src/EpollEvent.cc, and `loop` and `quit` of src/Loop.cc. The handlers
-- change a state of any type `S`. What `epoll_wait` finds ready is an argument; it does not fail.
pub mod Quit
pub mod Room
mod Tests
use mini_distributed_storage.Base.{
  ℕ, zero, suc, ◌+◌, ◌*◌, Bool, true, false, Option, none, some, List, [], ◌∷◌, ◌++◌, ◌≡◌, ◌&&◌,
  ◌||◌, ◌==◌, length, take, if◌then◌else◌,
}

-- The bits of `revents_` that are looked at.
pub record Revents : Type 0 where
  pub pollin : Bool
  pub pollpri : Bool
  pub pollout : Bool
  pub pollerr : Bool
  pub pollhup : Bool
  pub pollnval : Bool
  pub pollrdhup : Bool

-- The callbacks of an event, which may be empty.
pub record Callbacks {ℓ} (S : Type ℓ) : Type ℓ where
  pub read_callback : Option (S → S)
  pub write_callback : Option (S → S)
  pub error_callback : Option (S → S)
  pub close_callback : Option (S → S)

-- `if (test) { if (callback) callback(); }`.
abbrev pub call_if {ℓ} : {S : Type ℓ} → Bool → Option (S → S) → S → S
call_if false f s = s
call_if true none s = s
call_if true (some f) s = f s

unfoldable pub handle_event {ℓ} : {S : Type ℓ} → Callbacks S → Revents → S → S
handle_event c r s =
    let s1 = call_if (if r.pollin then false else r.pollhup) c.close_callback s in
    let s2 = call_if (r.pollerr || r.pollnval) c.error_callback s1 in
    let s3 = call_if (r.pollin || (r.pollpri || r.pollrdhup)) c.read_callback s2 in
    call_if r.pollout c.write_callback s3

-- The active events in their order.
unfoldable pub handle_events {ℓ} : {S : Type ℓ} → List (Callbacks S × Revents) → S → S
handle_events [] s = s
handle_events ((c, r) ∷ events) s = handle_events events (handle_event c r s)

-- `epoll`: at most as many of the ready events as `events_` has room for, and the new room.
unfoldable pub epoll {ℓ} : {E : Type ℓ} → ℕ → List E → List E × ℕ
epoll size ready =
    let active = take size ready in (active, if length active == size then size * 2 else size)

-- The room after `k` calls that find the same events ready.
unfoldable pub room_after {ℓ} : {E : Type ℓ} → ℕ → ℕ → List E → ℕ
room_after zero size ready = size
room_after (suc k) size ready = room_after k (epoll size ready).1 ready

-- Where the thread of a loop is: before `loop`, in its `while`, or behind it.
pub data Place : Type 0 where
  outside inside behind : Place

-- `looping_` is true just inside.
pub record Looping : Type 0 where
  pub place : Place
  pub quit : Bool

-- `quit`, from any thread. Its wakeup makes `epoll_wait` return, which here it may do at any time.
unfoldable pub set_quit : Looping → Looping
set_quit l = record l { quit = true }

-- What the thread of the loop does: it enters, takes a turn, or leaves.
pub data Step (l : Looping) : Looping → Type 0 where
  enter : l.place ≡ outside → Step l (record { place = inside; quit = false })
  turn : l.place ≡ inside → l.quit ≡ false → Step l l
  leave : l.place ≡ inside → l.quit ≡ true → Step l (record l { place = behind })

pub data Reach (l : Looping) : Looping → Type 0 where
  stay : Reach l l
  later : {u v : Looping} → Reach l u → Step u v → Reach l v
