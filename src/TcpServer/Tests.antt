-- ===== src/TcpServer/Tests.antt =====
-- A connection that comes, ends and goes, in a server with one thread.
use mini_distributed_storage.Base.{ℕ, ◌≡◌, refl, true, some, [], ◌∷◌, codes}
use mini_distributed_storage.Fileproxy.{insert}
use mini_distributed_storage.Connection.{connected}
use mini_distributed_storage.ThreadPool.{ThreadPool, get_next_loop, is_empty}
use mini_distributed_storage.TcpServer.{
  Conn, TcpServer, conn_name, new_connection, run_in_loop, execute, accepts, stay, later,
}
use mini_distributed_storage.TcpServer.Stages.{Fits}
use mini_distributed_storage.TcpServer.Lifecycle.{constructed, Reach-Fits}

abbrev alone : ThreadPool ℕ
alone = record { base_loop = 0; num_threads = 0; next = 0; loops = [] }

abbrev start_state : TcpServer
start_state = constructed (codes "0.0.0.0:9981") alone

abbrev first : Conn
first = record {
  name = conn_name (codes "0.0.0.0:9981") 1;
  io_loop = 0;
  state = connected;
  reading = true;
  reported = true ∷ [];
}

abbrev one_connection : TcpServer
one_connection = record start_state {
  next_conn_id = 2;
  objects = first ∷ [];
  connections = (conn_name (codes "0.0.0.0:9981") 1, 0) ∷ [];
}

accepted : new_connection start_state ≡ some one_connection
unfolding new_connection run_in_loop execute insert get_next_loop is_empty
accepted = refl

Reach-Fits_example : Fits one_connection 0 first
Reach-Fits_example =
    Reach-Fits (codes "0.0.0.0:9981") alone one_connection 0 first
      (later stay (accepts one_connection accepted)) refl
