-- ===== src/Storage.antt =====
-- The storage servers: storageServer/saveFile_0 (src/upLoad.h, src/downLoad.h, src/main.cc), and the
-- message handler of saveFile_1/src/main.cc and saveFile_2/src/main.cc. The globals are the fields of
-- `Storage`; `files` is what is on disk under a path, and a file or directory that is opened or made
-- is taken to open or be made. Log output is left out.
pub mod Save
pub mod Names
pub mod Listing
mod Tests
use mini_distributed_storage.Base.{
  ℕ, suc, ◌+◌, ◌^◌, Bool, true, false, Option, none, some, List, [], ◌∷◌, ◌++◌, ◌>>=◌, Bytes, codes,
  length, take, bytes_eq, leb, ◌==◌, if◌then◌else◌, add_size, size_of_int,
}
use mini_distributed_storage.Base.Loop.{Outcome, done, fault, outcome, Round, next, stop, loop}
use mini_distributed_storage.Buffer
use mini_distributed_storage.Buffer.{
  Buffer, readable_bytes, retrieve, read_as_block, read_as_string,
}
use mini_distributed_storage.Wire.{htonl, ntohl, peek_be32}
use mini_distributed_storage.Md5.{Digest, get_string_md5}

pub data Statu : Type 0 where
  statu1 statu2 statu3 statu4 : Statu

pub data Operate : Type 0 where
  sw up down : Operate

abbrev pub Disk : Type 0
Disk = List (Bytes × Bytes)

pub record Storage : Type 0 where
  pub operate : Operate
  pub statu : Statu
  pub g_upfile_name : Bytes
  pub g_downfile_name : Bytes
  pub conter : ℕ
  pub files : Disk
  pub dirs : List Bytes
  pub replies : List Bytes

abbrev pub State : Type 0
State = Storage × Buffer

-- The bytes of a file, none if it is not there.
unfoldable pub contents_of : Disk → Bytes → Bytes
contents_of [] path = []
contents_of ((p, c) ∷ disk) path = if bytes_eq p path then c else contents_of disk path

-- Opening a file with `std::ios::out | std::ios::app` and writing to it.
unfoldable pub append_to : Disk → Bytes → Bytes → Disk
append_to [] path bytes = (path, bytes) ∷ []
append_to ((p, c) ∷ disk) path bytes =
    if bytes_eq p path then (p, c ++ bytes) ∷ disk else (p, c) ∷ append_to disk path bytes

abbrev pub has_number : State → Bool
has_number (s, b) = leb 4 (readable_bytes b)

-- One round of `mkfile`.
unfoldable pub mkfile_round : State → Option (Round State)
mkfile_round (s, b) = do
  file_len ← peek_be32 b
  if leb (add_size 4 file_len) (readable_bytes b)
      then (do
        block ← read_as_block (retrieve b 4) file_len
        let dir = s.g_upfile_name ++ (block.0 ++ codes "/")
        some (
            next (
              record s { g_upfile_name = dir; dirs = s.dirs ++ dir ∷ []; statu = statu2 },
              block.1,
            )))
      else some (stop (s, b))

unfoldable pub mkfile : State → Outcome State
mkfile (s, b) = loop has_number mkfile_round (suc (readable_bytes b)) (s, b)

module _ (d : Digest) where
  -- A block that has arrived, for the directory `dir`.
  unfoldable pub store : Storage → Bytes → Bytes → Bytes → Storage
  store s dir block_md5 input =
      let md5 = get_string_md5 d input in
      if bytes_eq block_md5 md5
      then record s {
        conter = s.conter + 1;
        files = append_to s.files (dir ++ (md5 ++ codes ".txt")) input;
      }
      else s

  -- One round of the loop that reads blocks. The size is an `int32_t`.
  unfoldable pub save_round : Bytes → State → Option (Round State)
  save_round dir (s, b) = do
    be32 ← peek_be32 b
    let blocksize = size_of_int be32
    if leb (add_size 36 blocksize) (readable_bytes b)
        then (do
          block_md5 ← read_as_block (retrieve b 4) 32
          input ← read_as_block block_md5.1 blocksize
          some (next (store s dir block_md5.0 input.0, input.1)))
        else some (stop (s, b))

  -- `saveBlockFile` of saveFile_0.
  unfoldable pub save_block_file : State → Outcome State
  save_block_file (s, b) =
      loop has_number (save_round s.g_upfile_name) (suc (readable_bytes b)) (s, b)

  -- `onMessage` of saveFile_1 and saveFile_2: every byte belongs to a block, and the directory is fixed.
  unfoldable pub on_message_flat : State → Outcome State
  on_message_flat (s, b) =
      loop has_number (save_round (codes "./File/")) (suc (readable_bytes b)) (s, b)

  unfoldable pub up_load : State → Outcome State
  up_load (s, b) = elim s.statu [
    | statu1 ↦ mkfile (s, b)
    | statu2 ↦ save_block_file (s, b)
    | _ ↦ done (s, b)
  ]

-- A directory entry: its name, type and bytes. Type 8 is a regular file.
pub record Entry : Type 0 where
  pub name : Bytes
  pub d_type : ℕ
  pub bytes : Bytes

-- The message of one file: its size, its name and what one `read` of at most 1024*1024 bytes gives.
-- (The test that the `read` gave the whole file has a ';' behind it, and decides nothing.)
unfoldable pub file_message : Entry → Option Bytes
file_message e = do
  sendbuf ← Buffer.prepend (Buffer.append Buffer.new e.name) (htonl (length e.bytes))
  str ← read_as_string (Buffer.append sendbuf (take (2 ^ 20) e.bytes))
  some str.0

-- `readFileList`, over the entries that `readdir` returns.
unfoldable pub read_file_list : List Entry → List Bytes → Option (List Bytes)
read_file_list [] sent = some sent
read_file_list (e ∷ es) sent =
    let skip = read_file_list es sent in
    let rest = λ (m : Bytes). read_file_list es (sent ++ m ∷ []) in
    if bytes_eq e.name (codes ".")
    then skip
    else if bytes_eq e.name (codes "..")
    then skip
    else if e.d_type == 8
    then (do m ← file_message e; rest m)
    else skip

-- `opendir` and `readdir`: the entries of a directory, `none` where it cannot be opened, on which the
-- server exits.
module _ (list_dir : Bytes → Option (List Entry)) where
  unfoldable pub down_round : State → Option (Round State)
  down_round (s, b) = do
    file_len ← peek_be32 b
    if leb (add_size 4 file_len) (readable_bytes b)
        then (do
          block ← read_as_block (retrieve b 4) file_len
          entries ← list_dir (s.g_downfile_name ++ (block.0 ++ codes "/"))
          sent ← read_file_list entries s.replies
          some (next (record s { replies = sent; g_downfile_name = codes "./File/" }, block.1)))
        else some (stop (s, b))

  unfoldable pub down_load : State → Outcome State
  down_load (s, b) = loop has_number down_round (suc (readable_bytes b)) (s, b)

-- `switchOperate`: eight bytes are read, whether or not they have arrived.
unfoldable pub switch_operate : State → Option State
switch_operate (s, b) = do
  str ← read_as_block b 8
  some (
      if bytes_eq str.0 (codes "upppload")
      then (record s { operate = up }, str.1)
      else if bytes_eq str.0 (codes "download")
      then (record s { operate = down; replies = s.replies ++ codes "down ack" ∷ [] }, str.1)
      else (s, str.1))

-- `onConnection`: `connected` tells a new connection from one that has gone down.
unfoldable pub on_connection : Storage → Bool → Storage
on_connection s connected = if connected then record s { statu = statu1; operate = sw } else s

unfoldable pub on_message : Digest → (Bytes → Option (List Entry)) → State → Outcome State
on_message d list_dir (s, b) = elim s.operate [
  | sw ↦ outcome (switch_operate (s, b))
  | up ↦ up_load d (s, b)
  | down ↦ down_load list_dir (s, b)
]
