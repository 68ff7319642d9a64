-- ===== src/Upload.antt =====
-- ReactorService/src/upLoad.h: the coordinator's side of an upload. The globals `upStatu`, `g_File`
-- and `g_FileName` are the fields of `Server`; what the handlers send, to the client (`conn->send`)
-- and to the three storage servers (`::send(conndfd[k], …)`), is the list `sent`, oldest first. Each
-- handler takes the state and the connection's input buffer. Log output is left out.
pub mod Names
pub mod Header
pub mod Block
pub mod Steps
pub mod Safety
pub mod Ending
pub mod Received
pub mod Whole
pub mod Marks
pub mod Blocks
pub mod Stream
pub mod Session
mod Tests
use mini_distributed_storage.Base.{
  ℕ, zero, suc, ◌+◌, ◌-◌, ◌*◌, ◌%◌, ◌^◌, Bool, true, false, Option, none, some, List, [], ◌∷◌, ◌++◌,
  ◌>>=◌, Bytes, codes, length, take, drop, get_elem?, bytes_eq, leb, ltb, ◌&&◌, ◌==◌, if◌then◌else◌,
  add_size, sub_size, size_of_int,
}
use mini_distributed_storage.Base.Loop.{Outcome, done, outcome, Round, next, stop, loop}
use mini_distributed_storage.Buffer
use mini_distributed_storage.Buffer.{
  Buffer, readable_bytes, retrieve, read_as_block, read_as_string,
}
use mini_distributed_storage.Wire.{htonl, ntohl, peek_be32}
use mini_distributed_storage.Md5.{Digest, get_string_md5, convert_md5_to_int}
use mini_distributed_storage.Fileproxy
use mini_distributed_storage.Fileproxy.{Fileproxy, ls_file, add_file}

pub data UpStatu : Type 0 where
  upstatu1 upstatu2 upstatu3 upstatu4 : UpStatu

pub data Effect : Type 0 where
  reply : Bytes → Effect
  forward : ℕ → Bytes → Effect

pub record Server : Type 0 where
  pub up_statu : UpStatu
  pub g_file : Fileproxy
  pub g_file_name : Bytes
  pub sent : List Effect

abbrev pub State : Type 0
State = Server × Buffer

-- The same message to the three storage servers.
abbrev pub to_all : Bytes → List Effect
to_all bytes = forward 0 bytes ∷ forward 1 bytes ∷ forward 2 bytes ∷ []

abbrev pub emit : Server → List Effect → Server
emit s es = record s { sent = s.sent ++ es }

-- `xs.substr(pos, n)`; a start behind the end throws.
abbrev pub substr : Bytes → ℕ → ℕ → Option Bytes
substr xs pos n = if leb pos (length xs) then some (take n (drop pos xs)) else none

-- The start of the part behind the last '/' among the first `i` characters.
pub name_start : ℕ → Bytes → ℕ
name_start zero s = 0
name_start (suc i) s =
    let before = name_start i s in
    elim (get_elem? s i) [ none ↦ before | some c ↦ if c == b'/' then suc i else before ]

-- What is behind the last '/' among the first `m` characters.
abbrev pub name_behind : ℕ → Bytes → Bytes
name_behind m s = let start = name_start m s in take (length s - start) (drop start s)

-- The name in a path whose characters an `int` can number.
unfoldable pub base_name : Bytes → Bytes
base_name s = name_behind (length s) s

-- `getFileName`: `i` is an `int`, one less than the size modulo 2^32; below -1 it makes a start behind
-- the end, and `substr` throws.
unfoldable pub get_file_name : Bytes → Option Bytes
get_file_name s =
    let m = length s % 2 ^ 32 in if leb m (2 ^ 31) then some (name_behind m s) else none

-- The branch of `initFileNumber` for a name that is not in the map.
unfoldable pub new_file : Server → ℕ → Bytes → ℕ → Option Server
new_file s block_num file_name_md5 len = do
  md5 ← substr file_name_md5 (sub_size len 32) (length file_name_md5)
  some (record s {
    g_file = add_file s.g_file s.g_file_name block_num md5;
    sent =
        s.sent
        ++ (to_all (htonl (length s.g_file_name))
            ++ (to_all s.g_file_name ++ reply (codes "ACK") ∷ []));
    up_statu = upstatu2;
  })

-- The branch for a name that is there. In both cases the status ends as `upstatu3`.
unfoldable pub known_file : Server → Option Server
known_file s = do
  finished ← Fileproxy.ls_file_finish s.g_file s.g_file_name
  ids ← Fileproxy.get_file_id_string s.g_file s.g_file_name
  some (record s {
    sent = s.sent ++ reply (if finished then codes "success" else ids) ∷ [];
    up_statu = upstatu3;
  })

unfoldable pub open_file : Server → ℕ → Bytes → ℕ → Option Server
open_file s block_num file_name_md5 len =
    if ls_file s.g_file s.g_file_name then known_file s else new_file s block_num file_name_md5 len

-- The part of a round that runs when the whole header is there; `len` is the length of path and
-- digest together.
unfoldable pub take_header : Server → Buffer → ℕ → Option (Round State)
take_header s b len = do
  let b1 = retrieve b 4
  block_num ← peek_be32 b1
  let b2 = retrieve b1 4
  block ← read_as_block b2 len
  name ← substr block.0 0 (sub_size len 32)
  base ← get_file_name name
  let s1 = record s { g_file_name = base }
  s2 ← open_file s1 block_num block.0 len
  some (next (s2, block.1))

-- One round of the loop of `initFileNumber`.
unfoldable pub header_round : State → Option (Round State)
header_round (s0, b) = do
  let s = emit s0 (to_all (codes "upppload"))
  len ← peek_be32 b
  if leb (add_size 8 len) (readable_bytes b) then take_header s b len else some (stop (s, b))

abbrev pub has_number : State → Bool
has_number (s, b) = leb 4 (readable_bytes b)

-- `initFileNumber`: a round takes at least eight bytes off the buffer.
unfoldable pub init_file_number : State → Outcome State
init_file_number (s, b) = loop has_number header_round (suc (readable_bytes b)) (s, b)

-- The digests of all blocks have arrived.
unfoldable pub take_md5s : Server → Buffer → ℕ → Option State
take_md5s s b size = do
  block ← read_as_block b size
  files ← Fileproxy.set_block_file_md5 s.g_file s.g_file_name block.0
  some (record s { g_file = files; up_statu = upstatu3 }, block.1)

-- `32*g_File.getFileNum(g_FileName)` is an `unsigned long`, and the number has 32 bits.
unfoldable pub init_file_md5 : State → Outcome State
init_file_md5 (s, b) = outcome (do
  num ← Fileproxy.get_file_num s.g_file s.g_file_name
  if leb (32 * num) (readable_bytes b) then take_md5s s b (32 * num) else some (s, b))

abbrev pub is_receiving : State → Bool
is_receiving (s, b) = elim s.up_statu [ upstatu3 ↦ leb 4 (readable_bytes b) | _ ↦ false ]

-- The end of a round of `sendBlock`: is the file complete?
unfoldable pub check_finish : Server → Buffer → Option (Round State)
check_finish s b = do
  finished ← Fileproxy.ls_file_finish s.g_file s.g_file_name
  some (
      if finished
      then stop (
        record s {
          up_statu = upstatu4;
          sent = s.sent ++ reply (codes "success") ∷ [];
          g_file_name = [];
        },
        b,
      )
      else next (s, b))

-- `Buf`: the message to a storage server, which goes out in a length computed apart, in `int`s.
unfoldable pub storage_frame : Bytes → Bytes → Bytes → ℕ → Option Bytes
storage_frame be32 md5 block blocksize = do
  buf ← Buffer.prepend (Buffer.append (Buffer.append Buffer.new md5) block) be32
  data' ← read_as_string buf
  if ltb (4 + 32 + blocksize) (2 ^ 31) then some (take (4 + 32 + blocksize) data'.0) else none

-- A block whose digest is the announced one: its message goes to one storage server, and it is
-- marked.
unfoldable pub store_block : Server → Bytes → ℕ → ℕ → Bytes → Bytes → Option Server
store_block s be32 blocksize blockid block md5 = do
  frame ← storage_frame be32 md5 block blocksize
  files ← Fileproxy.set_file_upload_id s.g_file s.g_file_name blockid
  some (record s {
    g_file = files;
    sent = s.sent ++ forward (convert_md5_to_int md5 % 3) frame ∷ [];
  })

module _ (d : Digest) where
  -- What `sendBlock` does with a block that has arrived.
  unfoldable pub accept_block : Server → Bytes → ℕ → ℕ → Bytes → Option Server
  accept_block s be32 blocksize blockid block = do
    let md5 = get_string_md5 d block
    expected ← Fileproxy.get_block_file_md5 s.g_file blockid s.g_file_name
    if bytes_eq md5 expected then store_block s be32 blocksize blockid block md5 else some s

  -- The part of a round that runs when the whole block is there.
  unfoldable pub take_block : Server → Buffer → Bytes → ℕ → Option (Round State)
  take_block s b be32 blocksize = do
    let b1 = retrieve b 4
    blockid ← peek_be32 b1
    let b2 = retrieve b1 4
    block ← read_as_block b2 blocksize
    s' ← accept_block s be32 blocksize blockid block.0
    check_finish s' block.1

  -- One round of the loop of `sendBlock`. The block size is an `int32_t`, and so is the id.
  unfoldable pub block_round : State → Option (Round State)
  block_round (s, b) = do
    be32 ← Buffer.peek b 4
    let blocksize = size_of_int (ntohl be32)
    if leb (add_size 8 blocksize) (readable_bytes b)
        then take_block s b be32 blocksize
        else some (stop (s, b))

  unfoldable pub send_block : State → Outcome State
  send_block (s, b) = loop is_receiving block_round (suc (readable_bytes b)) (s, b)

  unfoldable pub up_load_file : State → UpStatu → Outcome State
  up_load_file st upstatu1 = init_file_number st
  up_load_file st upstatu2 = init_file_md5 st
  up_load_file st upstatu3 = send_block st
  up_load_file st upstatu4 = done st
