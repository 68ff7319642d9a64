-- ===== src/EPoller.antt =====
-- One `EpollEvent` and its registration: ReactorService/inc/EpollEvent.h and src/EPoller.cc. The mask
-- `events_` only ever has the bits of `kReadEvent` and `kWriteEvent`, and is two flags here. `kernel`
-- is the mask under which the kernel has the descriptor, `none` where it does not have it; a call of
-- `epoll_ctl` that the kernel refuses is `none`.
pub mod Registered
mod Tests
use mini_distributed_storage.Base.{
  Bool, true, false, Option, none, some, List, [], ◌∷◌, ◌>>=◌, ◌||◌, if◌then◌else◌,
}

pub data Statu : Type 0 where
  k_new k_added k_deleted : Statu

pub record Mask : Type 0 where
  pub reading : Bool
  pub writing : Bool

pub record EpollEvent : Type 0 where
  pub events : Mask
  pub statu : Statu
  pub kernel : Option Mask

pub data Operation : Type 0 where
  epoll_ctl_add epoll_ctl_mod epoll_ctl_del : Operation

-- `update(operation, epollEvent)`, which calls `epoll_ctl`: `EPOLL_CTL_ADD` wants a descriptor that is
-- not registered, the others one that is.
unfoldable pub ctl : Operation → EpollEvent → Option EpollEvent
ctl epoll_ctl_add e = elim e.kernel [
  | none ↦ some (record e { kernel = some e.events })
  | some m ↦ none
]
ctl epoll_ctl_mod e = elim e.kernel [
  | none ↦ none
  | some m ↦ some (record e { kernel = some e.events })
]
ctl epoll_ctl_del e = elim e.kernel [ none ↦ none | some m ↦ some (record e { kernel = none }) ]

abbrev pub is_none_event : EpollEvent → Bool
is_none_event e = if e.events.reading then false else if e.events.writing then false else true

-- `EPoller::updateEvent`, by the status of the event.
unfoldable pub update_event : EpollEvent → Option EpollEvent
update_event e = elim e.statu [
  | k_added ↦
      if is_none_event e
      then (do removed ← ctl epoll_ctl_del e; some (record removed { statu = k_deleted }))
      else ctl epoll_ctl_mod e
  | _ ↦ ctl epoll_ctl_add (record e { statu = k_added })
]

-- `EPoller::removeEvent`.
unfoldable pub remove_event : EpollEvent → Option EpollEvent
remove_event e = elim e.statu [
  | k_added ↦ (do removed ← ctl epoll_ctl_del e; some (record removed { statu = k_new }))
  | _ ↦ some (record e { statu = k_new })
]

-- What the owner of the event calls.
pub data Call : Type 0 where
  enable_reading enable_writing disable_writing disable_all remove : Call

unfoldable pub call : EpollEvent → Call → Option EpollEvent
call e enable_reading = update_event (record e { events = record e.events { reading = true } })
call e enable_writing = update_event (record e { events = record e.events { writing = true } })
call e disable_writing = update_event (record e { events = record e.events { writing = false } })
call e disable_all =
    update_event (record e { events = record { reading = false; writing = false } })
call e remove = remove_event e

unfoldable pub calls : EpollEvent → List Call → Option EpollEvent
calls e [] = some e
calls e (c ∷ cs) = do e' ← call e c; calls e' cs
