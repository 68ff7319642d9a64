-- ===== src/Coordinator.antt =====
-- ReactorService/src/main.cc: what the coordinator does with a connection and with a message. The
-- global `Operate` and the globals of the upload are one state; a call of `downLoad`, which starts a
-- thread for each storage server, is counted in `downloads`. Log output is left out.
pub mod Begin
pub mod Pieces
pub mod Whole
pub mod Stalled
mod Tests
mod WholeTests
use mini_distributed_storage.Base.{
  ℕ, ◌+◌, Bool, Option, some, none, List, [], ◌∷◌, ◌>>=◌, Bytes, codes, bytes_eq, if◌then◌else◌,
}
use mini_distributed_storage.Base.Loop.{Outcome, done, fault, out_of_fuel, outcome}
use mini_distributed_storage.Buffer
use mini_distributed_storage.Buffer.{Buffer, read_as_block, read_as_string}
use mini_distributed_storage.Md5.{Digest}
use mini_distributed_storage.Upload
use mini_distributed_storage.Upload.{Server, upstatu1, up_load_file}

pub data Operate : Type 0 where
  sw up down gg : Operate

pub record Coordinator : Type 0 where
  pub operate : Operate
  pub server : Server
  pub downloads : ℕ

abbrev pub State : Type 0
State = Coordinator × Buffer

-- `switchOperate`: eight bytes are read, whether or not they have arrived.
unfoldable pub switch_operate : State → Option State
switch_operate (c, b) = do
  str ← read_as_block b 8
  some (
      if bytes_eq str.0 (codes "upppload")
      then (record c { operate = up }, str.1)
      else if bytes_eq str.0 (codes "download")
      then (record c { operate = down }, str.1)
      else (c, str.1))

-- `onConnection`: `connected` tells a new connection from one that has gone down.
unfoldable pub on_connection : Bool → Coordinator → Coordinator
on_connection connected c =
    if connected
    then record c { server = record c.server { up_statu = upstatu1 }; operate = sw }
    else c

-- The upload's part of the state goes through `upLoadFile`.
unfoldable pub with_server : Coordinator → Outcome Upload.State → Outcome State
with_server c (done (s, b)) = done (record c { server = s }, b)
with_server c fault = fault
with_server c out_of_fuel = out_of_fuel

unfoldable pub on_message : Digest → State → Outcome State
on_message d (c, b) = elim c.operate [
  | sw ↦ outcome (switch_operate (c, b))
  | up ↦ with_server c (up_load_file d (c.server, b) c.server.up_statu)
  | down ↦ done (record c { downloads = c.downloads + 1; operate = gg }, b)
  | gg ↦ outcome (do str ← read_as_string b; some (c, str.1))
]

-- Messages that arrive one after the other on one connection: each is read into its buffer, and
-- `onMessage` called (`TcpConnection::handleRead`).
unfoldable pub on_messages : Digest → State → List Bytes → Outcome State
on_messages d st [] = done st
on_messages d (c, b) (m ∷ ms) = elim (on_message d (c, Buffer.read_fd b (some m))) [
  | done st ↦ on_messages d st ms
  | fault ↦ fault
  | out_of_fuel ↦ out_of_fuel
]
