-- ===== src/Receiver.antt =====
-- The client's side of a download: ClientSystem/downLoad.h, with its globals as the fields of
-- `Receiver`, and `main` of ClientSystem/main.cc. `written` is the content of the file that is being
-- made, whose `write` takes all bytes. What `readv` delivers is an argument. Log output is left out.
pub mod Written
mod Tests
use mini_distributed_storage.Base.{
  ℕ, suc, ◌+◌, Bool, true, false, Option, none, some, List, [], ◌∷◌, ◌++◌, ◌>>=◌, Bytes, codes,
  length, take, replicate, bytes_eq, leb, if◌then◌else◌, add_size,
}
use mini_distributed_storage.Base.Loop.{Outcome, done, Round, next, stop, loop}
use mini_distributed_storage.Buffer
use mini_distributed_storage.Buffer.{
  Buffer, readable_bytes, retrieve, read_as_block, read_as_string,
}
use mini_distributed_storage.Wire.{peek_be32}
use mini_distributed_storage.Md5.{Digest}
use mini_distributed_storage.Fileproxy
use mini_distributed_storage.Conversation.{Talk, upload_file}

pub data DownStatuFile : Type 0 where
  downstatu1 downstatu2 downstatu3 downstatu4 : DownStatuFile

pub record Receiver : Type 0 where
  pub block_content : List Bytes
  pub down_status : DownStatuFile
  pub id_md5 : List (Bytes × ℕ)
  pub buf : Buffer
  pub written : Bytes

abbrev pub has_number : Receiver → Bool
has_number w = leb 4 (readable_bytes w.buf)

-- A round of `recvMD5Block`, which drops the block.
unfoldable pub md5_block_round : Receiver → Option (Round Receiver)
md5_block_round w = do
  block_size ← peek_be32 w.buf
  if leb (add_size 4 block_size) (readable_bytes w.buf)
      then (do
        read_content ← read_as_block (retrieve w.buf 4) block_size
        some (next (record w { buf = read_content.1 })))
      else some (stop w)

unfoldable pub recv_md5_block : Receiver → Outcome Receiver
recv_md5_block w = loop has_number md5_block_round (suc (readable_bytes w.buf)) w

-- The digest behind an id: the mark of the end, or an entry of the map.
unfoldable pub take_md5 : Receiver → ℕ → Bytes → Round Receiver
take_md5 w id md5 =
    if bytes_eq md5 (codes "GGGGGGGGGGGGGGGGGGGGGGGGGGGGGGGG")
    then stop
        (record w { block_content = replicate (length w.id_md5) []; down_status = downstatu2 })
    else next (record w { id_md5 = Fileproxy.insert w.id_md5 md5 id })

-- A round of `recvidMD5`.
unfoldable pub id_md5_round : Receiver → Option (Round Receiver)
id_md5_round w = do
  id ← peek_be32 w.buf
  if leb 36 (readable_bytes w.buf)
      then (do
        md5 ← read_as_block (retrieve w.buf 4) 32
        some (take_md5 (record w { buf = md5.1 }) id md5.0))
      else some (stop w)

unfoldable pub recvid_md5 : Receiver → Outcome Receiver
recvid_md5 w = loop has_number id_md5_round (suc (readable_bytes w.buf)) w

-- `call_backfunc`, of which the only call is commented out.
unfoldable pub dispatch : Receiver → Outcome Receiver
dispatch w =
    if leb 1 (readable_bytes w.buf)
    then elim w.down_status [
      | downstatu1 ↦ recvid_md5 w
      | downstatu2 ↦ recv_md5_block w
      | _ ↦ done w
    ]
    else done w

-- A turn of the endless loop of `downLoadFile`, when the socket can be read.
unfoldable pub on_input : Option Bytes → Receiver → Option Receiver
on_input delivered w = do
  let b = Buffer.read_fd w.buf delivered
  let n = readable_bytes b
  str ← read_as_string b
  some (record w { buf = str.1; written = w.written ++ take n str.0 })

unfoldable pub on_inputs : List (Option Bytes) → Receiver → Option Receiver
on_inputs [] w = some w
on_inputs (x ∷ xs) w = do w' ← on_input x w; on_inputs xs w'

-- `downLoad`, with an empty file: what it sends, and the state after the given input.
unfoldable pub download : List (Option Bytes) → Receiver → Option (List Bytes × Receiver)
download inputs w = do
  w' ← on_inputs inputs (record w { down_status = downstatu1 })
  some (codes "1" ∷ [], w')

-- What `main` of main.cc does: an upload, a download, or `exit(-1)`.
pub data Operation : Type 0 where
  uploaded : Talk → Operation
  downloaded : List Bytes → Receiver → Operation
  refused : Operation

-- The arguments behind the program's name, the bytes of the file, the replies to an upload and the
-- input of a download.
unfoldable pub client_main :
    Digest → List Bytes → Bytes → List Bytes → List (Option Bytes) → Receiver → Option Operation
client_main d (file_name ∷ opr ∷ []) content replies inputs w =
    if bytes_eq opr (codes "upload")
    then (do
      t ← upload_file d file_name content replies
      some (uploaded (record t { sent = codes "upppload" ∷ t.sent })))
    else if bytes_eq opr (codes "download")
    then (do r ← download inputs w; some (downloaded (codes "download" ∷ r.0) r.1))
    else some refused
client_main d _ content replies inputs w = some refused
