-- ===== src/Download.antt =====
-- ReactorService/src/downLoad.h: the coordinator's side of a download, as one of its three threads
-- runs it. `Buf` and the status are the thread's own, `Bloc` is a global; the client and the storage
-- server with the number `k` are sent the messages in `sent`. What `epoll_wait` and `readv` deliver,
-- and whether `send` takes all eleven bytes of the name, are arguments. Log output is left out. Here
-- a thread runs alone; Download.Race has the calls of several threads on `Bloc`.
pub mod Blocks
pub mod Files
pub mod Pieces
pub mod Race
mod Tests
use mini_distributed_storage.Base.{
  ℕ, suc, ◌+◌, Bool, true, false, Option, none, some, List, [], ◌∷◌, ◌++◌, ◌>>=◌, ◌&&◌, Bytes,
  codes, length, bytes_eq, leb, if◌then◌else◌, add_size,
}
use mini_distributed_storage.Base.Loop.{
  Outcome, done, fault, out_of_fuel, outcome, Round, next, stop, loop,
}
use mini_distributed_storage.Buffer
use mini_distributed_storage.Buffer.{
  Buffer, readable_bytes, retrieve, read_as_block, read_as_string,
}
use mini_distributed_storage.Wire.{htonl, peek_be32}
use mini_distributed_storage.Md5.{Digest, get_string_md5}
use mini_distributed_storage.Fileproxy.{Fileproxy, ls_file}
use mini_distributed_storage.Upload.{Effect, reply, forward, substr}

pub data DownStatu : Type 0 where
  downstatu1 downstatu2 downstatu3 downstatu4 : DownStatu

pub record Download : Type 0 where
  pub down_statu : DownStatu
  pub buf : Buffer
  pub bloc : Buffer
  pub sent : List Effect

abbrev pub has_number : Download → Bool
has_number w = leb 4 (readable_bytes w.buf)

-- The name that is asked for, whatever file the client wants.
abbrev pub file_name : Bytes
file_name = codes "kvmap_2.txt"

-- `senddownload`.
unfoldable pub send_download : ℕ → Download → Download
send_download k w = record w {
  sent = w.sent ++ forward k (codes "download") ∷ [];
  down_statu = downstatu2;
}

-- `sendFileName`; `taken` tells whether the second `send` returns 11.
unfoldable pub send_file_name : ℕ → Bool → Download → Option Download
send_file_name k taken w =
    let answer = read_as_block w.buf 8 in
    if leb 8 (readable_bytes w.buf)
    then (do
      str ← answer
      some (record w {
        buf = str.1;
        sent = w.sent ++ forward k (htonl 11) ∷ forward k file_name ∷ [];
        down_statu = (if taken then downstatu3 else w.down_statu);
      }))
    else some w

-- A block goes to the client through `Bloc`.
unfoldable pub pass_on : Download → Bytes → Option Download
pass_on w content = do
  bloc ← Buffer.prepend (Buffer.append w.bloc content) (htonl (length content))
  str ← read_as_string bloc
  some (record w { bloc = str.1; sent = w.sent ++ reply str.0 ∷ [] })

module _ (d : Digest) (files : Fileproxy) where
  -- What is done with the 36 characters of a name and the bytes behind them.
  unfoldable pub check_block : Download → Bytes → Option Download
  check_block w file_content = do
    content ← substr file_content 36 (length file_content)
    md5 ← substr file_content 0 32
    if ls_file files file_name && bytes_eq (get_string_md5 d content) md5
        then pass_on w content
        else some w

  -- One round of `resvBlockFile`.
  unfoldable pub resv_round : Download → Option (Round Download)
  resv_round w = do
    block_file_size ← peek_be32 w.buf
    if leb (add_size 40 block_file_size) (readable_bytes w.buf)
        then (do
          file_content ← read_as_block (retrieve w.buf 4) (add_size 36 block_file_size)
          w' ← check_block (record w { buf = file_content.1 }) file_content.0
          some (next w'))
        else some (stop w)

  unfoldable pub resv_block_file : Download → Outcome Download
  resv_block_file w = loop has_number resv_round (suc (readable_bytes w.buf)) w

  -- `call_backfunc`.
  unfoldable pub call_backfunc : ℕ → Bool → Download → Outcome Download
  call_backfunc k taken w =
      if leb 1 (readable_bytes w.buf)
      then elim w.down_statu [
        | downstatu1 ↦ done (send_download k w)
        | downstatu2 ↦ outcome (send_file_name k taken w)
        | downstatu3 ↦ resv_block_file w
        | downstatu4 ↦ done w
      ]
      else done w

  -- One turn of the endless loop of `downLoadFileFromStorage`, when the socket can be read.
  unfoldable pub on_readable : ℕ → Bool → Option Bytes → Download → Outcome Download
  on_readable k taken delivered w =
      call_backfunc k taken (record w { buf = Buffer.read_fd w.buf delivered })

  -- The turns of that loop, each with whether the name is taken whole and what `readv` delivers.
  unfoldable pub thread_turns : ℕ → List (Bool × Option Bytes) → Download → Outcome Download
  thread_turns k [] w = done w
  thread_turns k ((taken, delivered) ∷ rest) w = elim (on_readable k taken delivered w) [
    | done w' ↦ thread_turns k rest w'
    | fault ↦ fault
    | out_of_fuel ↦ out_of_fuel
  ]

  -- `downLoadFileFromStorage`, which returns at no time: its state after the given turns.
  unfoldable pub download_file_from_storage :
      ℕ → List (Bool × Option Bytes) → Download → Outcome Download
  download_file_from_storage k inputs w = thread_turns k inputs (send_download k w)
