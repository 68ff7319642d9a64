-- ===== src/Client.antt =====
-- The client's view of a file: ClientSystem/File.h and ClientSystem/BlockFile.h. A file is its bytes,
-- of which `mmap` gives a part; what is sent to the coordinator is a list of byte strings, one for
-- each call of `send`. An `int` that overflows is `none`.
pub mod Ids
pub mod Tiles
pub mod Messages
pub mod Numbered
mod Tests
use mini_distributed_storage.Base.{
  ℕ, zero, suc, ◌+◌, ◌-◌, ◌*◌, ◌/◌, ◌%◌, ◌^◌, Bool, true, false, Option, none, some, List, [], ◌∷◌,
  ◌++◌, ◌>>=◌, Bytes, length, replicate, set_at, take, int_rounds, ltb, ◌==◌, if◌then◌else◌,
}
use mini_distributed_storage.Base.Slices.{slice}
use mini_distributed_storage.Wire.{htonl}
use mini_distributed_storage.Md5.{Digest, get_string_md5}
use mini_distributed_storage.Decimal.{atoi}

abbrev pub page_size : ℕ
page_size = 4096 * 256

pub record BlockFile : Type 0 where
  pub block_size : ℕ
  pub id : ℕ
  pub offset : ℕ

pub record File : Type 0 where
  pub content : Bytes
  pub block_num : ℕ
  pub block_file_list : List BlockFile
  pub upload_id : List Bool

-- The number of blocks that the constructor computes from the size.
unfoldable pub block_count : ℕ → ℕ
block_count file_size =
    if file_size % page_size == 0 then file_size / page_size else file_size / page_size + 1

-- `i*PAGE_SIZE` of two `int`s.
abbrev pub block_offset : ℕ → Option ℕ
block_offset i = if ltb (i * page_size) (2 ^ 31) then some (i * page_size) else none

-- `initFile`, with `k` rounds left.
unfoldable pub init_file : ℕ → ℕ → ℕ → ℕ → Option (List BlockFile)
init_file file_size block_num zero i = some []
init_file file_size block_num (suc k) i = do
  offset ← block_offset i
  rest ← init_file file_size block_num k (suc i)
  let block_size = if i == block_num - 1 then file_size % page_size else page_size
  some (record { block_size = block_size; id = i; offset = offset } ∷ rest)

-- The constructor.
unfoldable pub file : Bytes → Option File
file content = do
  let n = block_count (length content)
  blocks ← init_file (length content) n n 0
  some (record {
    content = content;
    block_num = n;
    block_file_list = blocks;
    upload_id = replicate n false;
  })

-- What `mmap` gives of a block.
abbrev pub mapped : Bytes → BlockFile → Bytes
mapped content b = slice b.offset b.block_size content

-- `sendBlockFile`.
unfoldable pub send_block_file : Bytes → BlockFile → List Bytes
send_block_file content b = htonl b.block_size ∷ htonl b.id ∷ mapped content b ∷ []

-- `sendFileBlock`: the blocks whose flag is not set.
unfoldable pub send_file_block : Bytes → List BlockFile → List Bool → List Bytes
send_file_block content [] flags = []
send_file_block content (b ∷ bs) [] = []
send_file_block content (b ∷ bs) (flag ∷ flags) =
    let rest = send_file_block content bs flags in
    if flag then rest else send_block_file content b ++ rest

-- `uploadId_[atoi(…)] = true`, for a number that is an `int`.
abbrev pub set_id : List Bool → ℕ → Option (List Bool)
set_id flags n = if ltb n (2 ^ 31) then set_at flags n true else none

-- The loop of `updateuploadId`, over the characters that `i` reaches; `tmp` is the text from `start`
-- to the index.
unfoldable pub mark_ids : Bytes → Bytes → List Bool → Option (List Bool)
mark_ids tmp [] flags = some flags
mark_ids tmp (c ∷ idstr) flags = elim (c == b':') [
  | true ↦ elim (set_id flags (atoi tmp)) [ none ↦ none | some marked ↦ mark_ids [] idstr marked ]
  | false ↦ mark_ids (tmp ++ c ∷ []) idstr flags
]

-- `i` goes up to `(int)idstr.size()`.
abbrev pub update_ids : Bytes → List Bool → Option (List Bool)
update_ids idstr flags = mark_ids [] (take (int_rounds (length idstr)) idstr) flags

unfoldable pub update_upload_id : File → Bytes → Option File
update_upload_id f idstr = do
  flags ← update_ids idstr f.upload_id
  some (record f { upload_id = flags })

module _ (d : Digest) where
  -- `Md5::getMD5` of the part that `mmap` gives.
  abbrev pub get_md5 : Bytes → BlockFile → Bytes
  get_md5 content b = get_string_md5 d (mapped content b)

  -- `sendFileinfo`.
  unfoldable pub send_fileinfo : File → Bytes → List Bytes
  send_fileinfo f file_name =
      let name = file_name ++ get_string_md5 d f.content in
      htonl (length name) ∷ htonl f.block_num ∷ name ∷ []

  -- `sendFileBlockMD5info`.
  unfoldable pub send_file_block_md5info : Bytes → List BlockFile → List Bytes
  send_file_block_md5info content [] = []
  send_file_block_md5info content (b ∷ bs) = get_md5 content b ∷ send_file_block_md5info content bs
