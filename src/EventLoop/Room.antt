-- ===== src/EventLoop/Room.antt =====
-- How many events a call of `epoll` hands on.
use mini_distributed_storage.Base.{
  ℕ, zero, suc, ◌+◌, ◌*◌, ◌<◌, ◌≤◌, ◌≡◌, List, length, length-take, take_all, arith, dec_lt,
}
use mini_distributed_storage.EventLoop.{epoll, room_after}

module _ {ℓ} {E : Type ℓ} (ready : List E) where
  -- A call that does not have room for all doubles the room, and no call lowers it.
  epoll-room :
      (size : ℕ)
      → (size ≤ (epoll size ready).1) × (size ≤ length ready → (epoll size ready).1 ≡ size * 2)
  unfolding epoll
  epoll-room size =
      (ground (arith, length-take size ready), λ h. ground (arith, length-take size ready))

  room_after-grows :
      (k size : ℕ) → 0 < size → length ready < size + k → length ready < room_after k size ready
  unfolding room_after
  room_after-grows zero size pos h = omega (arith, h)
  room_after-grows (suc k) size pos h =
      let step = epoll-room size in
      room_after-grows k (epoll size ready).1 (omega (arith, pos, step.0))
        (elim (dec_lt (length ready) size) [
          | yes roomy ↦ omega (arith, roomy, step.0)
          | no full ↦ omega (arith, full, pos, h, step.1 (omega (arith, full)))
        ])

  -- With room for one event at least, and the same events ready each time, as many calls of `epoll` as
  -- there are events make the room so large that the next call hands all of them on, in order.
  pub room_after-all :
      (size : ℕ) → 0 < size → (epoll (room_after (length ready) size ready) ready).0 ≡ ready
  unfolding epoll
  room_after-all size pos =
      take_all (room_after (length ready) size ready) ready
        (omega (arith, room_after-grows (length ready) size pos (omega (arith, pos))))
