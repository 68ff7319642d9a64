-- ===== src/Conversation.antt =====
-- The client's side of an upload: `upLoadFile` of ClientSystem/upLoad.h, the same conversation in
-- `main` of ClientSystem/test.cc, and the choice of the operation in `main` of ClientSystem/main.cc.
-- A reply is what one `recv` gives, of which the code reads the C string; the list of replies ends
-- where `recv` gives nothing any more. `none` is a fault. Log output is left out.
pub mod Text
pub mod Resume
mod Tests
use mini_distributed_storage.Base.{
  Bool, true, false, Option, none, some, List, [], ◌∷◌, ◌++◌, ◌>>=◌, Bytes, codes, bytes_eq, ◌==◌,
  ◌||◌, if◌then◌else◌,
}
use mini_distributed_storage.Md5.{Digest}
use mini_distributed_storage.Client.{
  File, file, send_fileinfo, send_file_block, send_file_block_md5info, update_upload_id,
}

-- What the client has sent when it is through, the file with its marks, and whether it has been told
-- "success".
pub record Talk : Type 0 where
  pub sent : List Bytes
  pub file : File
  pub finished : Bool

-- A `std::string` from a buffer that is 0 behind what has been received.
unfoldable pub c_string : Bytes → Bytes
c_string [] = []
c_string (c ∷ s) = let rest = c_string s in if c == 0 then [] else c ∷ rest

-- `idstr.find(':') != idstr.npos`.
unfoldable pub has_colon : Bytes → Bool
has_colon [] = false
has_colon (c ∷ s) = (c == b':') || has_colon s

abbrev pub is_success : Bytes → Bool
is_success idstr = bytes_eq idstr (codes "success")

abbrev pub send_blocks : File → List Bytes
send_blocks f = send_file_block f.content f.block_file_list f.upload_id

-- The loop at the end: "success", or ids and the missing blocks once more.
unfoldable pub repeat_blocks : File → List Bytes → Option Talk
repeat_blocks f [] = some (record { sent = []; file = f; finished = false })
repeat_blocks f (reply ∷ replies) = elim (is_success (c_string reply)) [
  | true ↦ some (record { sent = []; file = f; finished = true })
  | false ↦ elim (update_upload_id f (c_string reply)) [
    | none ↦ none
    | some g ↦ elim (repeat_blocks g replies) [
      | none ↦ none
      | some t ↦ some (record t { sent = send_blocks g ++ t.sent })
    ]
  ]
]

-- `sendFileBlock` and the loop.
unfoldable pub blocks_then : List Bytes → File → List Bytes → Option Talk
blocks_then before f replies = do
  t ← repeat_blocks f replies
  some (record t { sent = before ++ (send_blocks f ++ t.sent) })

module _ (d : Digest) where
  -- The first reply: ids, or anything else for the digests.
  unfoldable pub first_reply : File → Bytes → Option (List Bytes × File)
  first_reply f idstr =
      if has_colon idstr
      then (do g ← update_upload_id f idstr; some ([], g))
      else some (send_file_block_md5info d f.content f.block_file_list, f)

  unfoldable pub talk : List Bytes → File → List Bytes → Option Talk
  talk info f [] = blocks_then info f []
  talk info f (reply ∷ replies) =
      if is_success (c_string reply)
      then some (record { sent = info; file = f; finished = true })
      else (do a ← first_reply f (c_string reply); blocks_then (info ++ a.0) a.1 replies)

  -- `upLoadFile` for a path and the file's bytes.
  unfoldable pub upload_file : Bytes → Bytes → List Bytes → Option Talk
  upload_file file_name content replies = do
    f ← file content
    talk (send_fileinfo d f file_name) f replies

  -- `main` of test.cc, which does not send "upppload".
  unfoldable pub test_main : List Bytes → Bytes → List Bytes → Option Talk
  test_main (file_name ∷ []) content replies = upload_file file_name content replies
  test_main _ content replies = none
