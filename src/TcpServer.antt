-- ===== src/TcpServer.antt =====
-- ReactorService/src/TcpServer.cc with what `TcpConnection` and `Acceptor` do for it: connections come,
-- end, and are removed, by functors that the threads of the pool put into each other's loops. A loop
-- is a number. The connections are the list `objects`, the `k`-th one under the index `k`; the map
-- `connections_` holds indices. `posted` are the functors that wait in the loops. `reported` lists
-- what `connected()` was at each call of the connection callback. A functor runs as one step, and
-- which of those that wait runs next is left open. An event calls `handleClose` at most once.
pub mod Names
pub mod Stages
pub mod Posted
pub mod Running
pub mod Lifecycle
mod Tests
use mini_distributed_storage.Base.{
  ℕ, suc, ◌+◌, ◌-◌, ◌^◌, ◌<◌, ◌≡◌, Bool, true, false, Option, none, some, List, [], ◌∷◌, ◌++◌,
  ◌>>=◌, Bytes, codes, length, get_elem?, set, bytes_eq, ltb, ◌==◌, if◌then◌else◌,
}
use mini_distributed_storage.Decimal.{to_string}
use mini_distributed_storage.Fileproxy.{find, insert}
use mini_distributed_storage.Connection.{StateE, connecting, connected, disconnected}
use mini_distributed_storage.ThreadPool.{ThreadPool, get_next_loop}

pub record Conn : Type 0 where
  pub name : Bytes
  pub io_loop : ℕ
  pub state : StateE
  pub reading : Bool
  pub reported : List Bool

-- `connectEstablished`, `connectDestroyed` and `removeConnectionInLoop`.
pub data Kind : Type 0 where
  establish destroy remove : Kind

pub record Functor : Type 0 where
  pub loop : ℕ
  pub kind : Kind
  pub conn : ℕ

pub record TcpServer : Type 0 where
  pub name : Bytes
  pub started : Bool
  pub listening : Bool
  pub thread_pool : ThreadPool ℕ
  pub next_conn_id : ℕ
  pub objects : List Conn
  pub connections : List (Bytes × ℕ)
  pub posted : List Functor

-- `name_` with "#%d".
unfoldable pub conn_name : Bytes → ℕ → Bytes
conn_name name k = name ++ (codes "#" ++ to_string k)

-- `connections_.erase(name)`.
unfoldable pub erase {ℓ} : {V : Type ℓ} → List (Bytes × V) → Bytes → List (Bytes × V)
erase [] k = []
erase ((j, v) ∷ m) k = let rest = erase m k in if bytes_eq j k then rest else (j, v) ∷ rest

abbrev pub post : Functor → TcpServer → TcpServer
post f s = record s { posted = s.posted ++ f ∷ [] }

abbrev pub set_conn : ℕ → Conn → TcpServer → TcpServer
set_conn i c s = record s { objects = set s.objects i c }

-- `connectEstablished` and `connectDestroyed`.
abbrev pub established : Conn → Conn
established c = record c { state = connected; reading = true; reported = c.reported ++ true ∷ [] }

abbrev pub destroyed : Conn → Conn
destroyed c = record c {
  state = disconnected;
  reading = false;
  reported = c.reported ++ false ∷ [];
}

-- A functor runs for the connection `c` with the index `i`.
unfoldable pub execute : Kind → ℕ → Conn → TcpServer → TcpServer
execute establish i c s = set_conn i (established c) s
execute destroy i c s = set_conn i (destroyed c) s
execute remove i c s =
    post (record { loop = c.io_loop; kind = destroy; conn = i })
      (record s { connections = erase s.connections c.name })

-- `runInLoop`, called in the thread of the loop `here`.
unfoldable pub run_in_loop : ℕ → ℕ → Kind → ℕ → Conn → TcpServer → TcpServer
run_in_loop here loop kind i c s =
    if loop == here
    then execute kind i c s
    else post (record { loop = loop; kind = kind; conn = i }) s

-- `start`, where the new threads have the loops `fresh`.
unfoldable pub start : List ℕ → TcpServer → TcpServer
start fresh s =
    let s1 = if s.started then s else record s {
      started = true;
      thread_pool = record s.thread_pool { loops = s.thread_pool.loops ++ fresh };
    } in
    if s1.listening then s1 else record s1 { listening = true }

-- `newConnection`; `none` is the overflow of `nextConnId_`.
unfoldable pub new_connection : TcpServer → Option TcpServer
new_connection s = do
  next ← if ltb (s.next_conn_id + 1) (2 ^ 31) then some (s.next_conn_id + 1) else none
  io_loop ← get_next_loop s.thread_pool
  let conn_name = conn_name s.name s.next_conn_id
  let i = length s.objects
  let conn : Conn = record {
    name = conn_name;
    io_loop = io_loop.0;
    state = connecting;
    reading = false;
    reported = [];
  }
  some (
      run_in_loop s.thread_pool.base_loop io_loop.0 establish i conn (record s {
        next_conn_id = next;
        thread_pool = io_loop.1;
        objects = s.objects ++ conn ∷ [];
        connections = insert s.connections conn_name i;
      }))

-- `handleRead` at the end of the input, or `handleClose`: no more events, and `removeConnection`.
unfoldable pub handle_close : ℕ → Conn → TcpServer → TcpServer
handle_close i c s =
    let c' = record c { reading = false } in
    run_in_loop c.io_loop s.thread_pool.base_loop remove i c' (set_conn i c' s)

-- A connection is accepted, a connection whose events are on ends, or a functor that waits runs.
pub data Step (s : TcpServer) : TcpServer → Type 0 where
  accepts : (s' : TcpServer) → new_connection s ≡ some s' → Step s s'
  ends :
      (i : ℕ) (c : Conn)
      → get_elem? s.objects i ≡ some c
      → c.reading ≡ true
      → Step s (handle_close i c s)
  runs :
      (before after : List Functor) (f : Functor) (c : Conn)
      → s.posted ≡ before ++ f ∷ after
      → get_elem? s.objects f.conn ≡ some c
      → Step s (execute f.kind f.conn c (record s { posted = before ++ after }))

pub data Reach (s : TcpServer) : TcpServer → Type 0 where
  stay : Reach s s
  later : {t u : TcpServer} → Reach s t → Step t u → Reach s u
