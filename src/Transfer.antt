-- ===== src/Transfer.antt =====
-- A block on its way from the client to the disk: ReactorService/src/upLoad.h sends it on, and
-- storageServer/saveFile_0/src/main.cc receives it.
pub mod Batch
pub mod Stored
pub mod Returned
pub mod Directory
pub mod Again
pub mod RoundTrip
pub mod Refused
pub mod Split
mod Tests
mod ReturnTests
mod RoundTripTests
mod AgainTests
use mini_distributed_storage.Base.{
  ℕ, ◌+◌, ◌%◌, ◌^◌, ◌<◌, ◌≤◌, ◌≡◌, refl, ◌∙◌, true, false, Bool, some, Option, List, [], ◌∷◌, ◌++◌,
  append-nil, append_assoc, Bytes, codes, length, length-append, get_elem?, bytes_eq-length, arith,
}
use mini_distributed_storage.Base.Loop.{done}
use mini_distributed_storage.Buffer
use mini_distributed_storage.Buffer.{Buffer}
use mini_distributed_storage.Buffer.Valid.{max_len}
use mini_distributed_storage.Buffer.Contents.{Holds, Holds-append}
use mini_distributed_storage.Wire.{htonl, length-htonl}
use mini_distributed_storage.Md5.{Digest, get_string_md5, length-get_string_md5, convert_md5_to_int}
use mini_distributed_storage.FileValue
use mini_distributed_storage.FileValue.{FileValue}
use mini_distributed_storage.FileValue.Flags.{IsUploaded}
use mini_distributed_storage.Upload
use mini_distributed_storage.Upload.{Server, Effect, reply, forward, upstatu3, send_block}
use mini_distributed_storage.Upload.Block.{block_message, Known, accepted}
use mini_distributed_storage.Upload.Whole.{after_finish, send_block-accepted}
use mini_distributed_storage.Storage
use mini_distributed_storage.Storage.{
  Storage, Entry, contents_of, on_message, up_load, save_block_file, statu2, up,
}
use mini_distributed_storage.Storage.Save.{
  saved, block_path, contents_of-append_to_self, save_block_file_lem,
}
use mini_distributed_storage.Storage.Listing.{listed_message, messages}

get_elem?-end {ℓ} :
    {A : Type ℓ} (xs : List A) (y : A) (ys : List A) → get_elem? (xs ++ y ∷ ys) (length xs) ≡ some y
get_elem?-end [] y ys = refl
get_elem?-end (x ∷ xs) y ys = ground (arith, get_elem?-end xs y ys)

get_elem?-after_finish :
    (finished : Bool) (s : Server) (xs : List Effect) (y : Effect)
    → get_elem? (after_finish finished (record s { sent = xs ++ y ∷ [] })).sent (length xs) ≡ some y
get_elem?-after_finish true s xs y =
    rw (append_assoc xs (y ∷ []) (reply (codes "success") ∷ []))
      (get_elem?-end xs y (reply (codes "success") ∷ []))
get_elem?-after_finish false s xs y = get_elem?-end xs y []

-- The handler of a connection that has opened a directory.
pub on_message-up :
    (d : Digest) (list_dir : Bytes → Option (List Entry)) (st : Storage) (b : Buffer)
    → st.operate ≡ up
    → st.statu ≡ statu2
    → on_message d list_dir (st, b) ≡ save_block_file d (st, b)
unfolding on_message up_load
on_message-up d list_dir st b e1 e2 = simp (e1, e2)

-- The coordinator knows the file that is being uploaded and waits for blocks; its buffer holds the
-- block `id`, of less than 2^31 - 36 bytes, whose digest is the one announced for `id`. A storage server
-- has opened the directory of the file, and its buffer is empty. Then the coordinator's handler
-- returns, marks the id as uploaded, and sends one storage message; and a storage server that
-- receives this message in one piece appends just that block to the file of its digest, and takes the
-- message off its buffer.
pub forwarded_block-saved :
    (d : Digest)
    → (s : Server) (f : FileValue) (known : Known s f) (id : ℕ) (block : Bytes) (b : Buffer)
    → s.up_statu ≡ upstatu3
    → id < f.block_num
    → 36 + length block < 2 ^ 31
    → FileValue.get_block_file_md5 f id ≡ some (get_string_md5 d block)
    → Holds b (htonl (length block) ++ (htonl id ++ block))
    → (list_dir : Bytes → Option (List Entry)) (st : Storage) (bs : Buffer) → st.operate ≡ up
    → st.statu ≡ statu2
    → Holds bs []
    → bs.writer_index + 36 + length block < max_len
    → (g : FileValue) × (s' : Server) × (m : Bytes) × (c cs : Buffer) × (st' : Storage)
      × (send_block d (s, b) ≡ done (s', c))
      × IsUploaded g id
      × (get_elem? s'.sent (length s.sent)
          ≡ some (forward (convert_md5_to_int (get_string_md5 d block) % 3) m))
      × (on_message d list_dir (st, Buffer.append bs m) ≡ done (st', cs))
      × Holds cs []
      × (let path = block_path st.g_upfile_name (get_string_md5 d block) in
          contents_of st'.files path ≡ contents_of st.files path ++ block)
forwarded_block-saved d s f known id block b status h l e k list_dir st bs e1 e2 empty room =
    let md5 = get_string_md5 d block in
    let m = block_message md5 block in
    let (g, c, returns, marked, rest) =
      send_block-accepted d s f known id block b status h l e [] (omega arith)
        (rw (append-nil block) k) in
    let size : length m ≡ 36 + length block = omega (
      arith,
      length-append (htonl (length block)) (md5 ++ block),
      length-append md5 block,
      length-htonl (length block),
      length-get_string_md5 d block,
    ) in
    let arrived : Holds (Buffer.append bs m) (m ++ []) =
      rw (append-nil m) (Holds-append m empty (omega (arith, size))) in
    let (cs, saves, over) =
      save_block_file_lem d st (Buffer.append bs m) block [] (omega (arith, l)) (omega arith)
        arrived in
    let finished = FileValue.ls_file_finish g in
    (
      g,
      after_finish finished (accepted d s f known id block g),
      m,
      c,
      cs,
      saved st st.g_upfile_name md5 block,
      returns,
      marked.marked,
      get_elem?-after_finish finished (accepted d s f known id block g) s.sent _,
      on_message-up d list_dir st (Buffer.append bs m) e1 e2 ∙ saves,
      over,
      contents_of-append_to_self st.files (block_path st.g_upfile_name md5) block,
    )

-- The file in which a storage server keeps a block.
abbrev pub block_entry : Digest → Bytes → Entry
block_entry d block = record {
  name = get_string_md5 d block ++ codes ".txt";
  d_type = 8;
  bytes = block;
}
