-- ===== src/Connection.antt =====
-- `TcpConnection` of ReactorService/src/TcpConnection.cc: its state, its output buffer, and the two
-- flags that it sets in its `EpollEvent`. `wire` is what the kernel has taken, and `room` how much the
-- kernel takes at a `write`, `none` where `write` fails. `queued` are the messages of the calls of
-- `send` from other threads, which wait as functors in the loop's list.
pub mod Output
mod Tests
use mini_distributed_storage.Base.{
  ℕ, ◌+◌, Bool, true, false, Option, none, some, List, [], ◌∷◌, ◌++◌, ◌>>=◌, ◌&&◌, Bytes, length,
  take, drop, ltb, ◌==◌, if◌then◌else◌, size_mod, ◌-◌,
}
use mini_distributed_storage.Buffer
use mini_distributed_storage.Buffer.{Buffer, readable_bytes, peek, retrieve, append}

pub data StateE : Type 0 where
  connecting connected disconnecting disconnected : StateE

abbrev pub is_connected : StateE → Bool
is_connected connected = true
is_connected _ = false

abbrev pub is_disconnecting : StateE → Bool
is_disconnecting disconnecting = true
is_disconnecting _ = false

pub record Connection : Type 0 where
  pub state : StateE
  pub reading : Bool
  pub writing : Bool
  pub output_buffer : Buffer
  pub wire : Bytes
  pub queued : List Bytes
  pub write_shut : Bool

-- What `write` takes of `bytes`, and what it returns, as a `size_t`.
unfoldable pub taken : Option ℕ → Bytes → Bytes
taken none bytes = []
taken (some room) bytes = take room bytes

unfoldable pub returned : Option ℕ → Bytes → ℕ
returned none bytes = size_mod - 1
returned (some room) bytes = length (take room bytes)

abbrev pub is_idle : Connection → Bool
is_idle c = if c.writing then false else readable_bytes c.output_buffer == 0

-- The second half of `sendInLoop`, with `nwrote` as a `size_t`.
unfoldable pub keep_rest : Connection → Bytes → ℕ → Connection
keep_rest c message nwrote =
    if ltb nwrote (length message)
    then record c { output_buffer = append c.output_buffer (drop nwrote message); writing = true }
    else c

unfoldable pub send_in_loop : Connection → Bytes → Option ℕ → Connection
send_in_loop c message room =
    if is_idle c
    then keep_rest (record c { wire = c.wire ++ taken room message }) message
        (returned room message)
    else keep_rest c message 0

-- `send`, in the thread of the loop or in another one, which leaves `sendInLoop` to the loop.
unfoldable pub send : Connection → Bool → Bytes → Option ℕ → Connection
send c in_loop message room =
    if is_connected c.state
    then (if in_loop
        then send_in_loop c message room
        else record c { queued = c.queued ++ message ∷ [] })
    else c

-- The loop runs the oldest functor; the state of the connection is not tested again.
unfoldable pub run_functor : Connection → Option ℕ → Connection
run_functor c room = elim c.queued [
  | [] ↦ c
  | message ∷ rest ↦ send_in_loop (record c { queued = rest }) message room
]

unfoldable pub shutdown_in_loop : Connection → Connection
shutdown_in_loop c = if c.writing then c else record c { write_shut = true }

-- The end of `handleWrite`, when nothing is left.
unfoldable pub all_written : Connection → Connection
all_written c =
    let c' = record c { writing = false } in
    if is_disconnecting c.state then shutdown_in_loop c' else c'

-- `handleWrite`.
unfoldable pub handle_write : Connection → Option ℕ → Option Connection
handle_write c room =
    if c.writing
    then (do
      bytes ← peek c.output_buffer (readable_bytes c.output_buffer)
      let rest = retrieve c.output_buffer (returned room bytes)
      let c' = record c { output_buffer = rest; wire = c.wire ++ taken room bytes }
      some (if readable_bytes rest == 0 then all_written c' else c'))
    else some c

-- `connectEstablished` and `connectDestroyed`, without the callbacks.
unfoldable pub connect_established : Connection → Connection
connect_established c = record c { state = connected; reading = true }

unfoldable pub connect_destroyed : Connection → Connection
connect_destroyed c = record c { state = disconnected; reading = false; writing = false }

-- What happens to the output of a connection: a call of `send` in the loop's thread or in another
-- one, a functor of the loop, or the socket can be written.
pub data Event : Type 0 where
  sends : Bytes → Option ℕ → Event
  sends_from : Bytes → Event
  functor : Option ℕ → Event
  writable : Option ℕ → Event

unfoldable pub step : Connection → Event → Option Connection
step c (sends message room) = some (send c true message room)
step c (sends_from message) = some (send c false message none)
step c (functor room) = some (run_functor c room)
step c (writable room) = handle_write c room

unfoldable pub run : Connection → List Event → Option Connection
run c [] = some c
run c (e ∷ es) = do c' ← step c e; run c' es
