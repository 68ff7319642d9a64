-- ===== src/Transfer/Batch.antt =====
-- The blocks of an upload on a storage server: the messages that the coordinator sends it, however
-- many of them arrive together.
use mini_distributed_storage.Base.{
  ℕ, zero, suc, ◌%◌, ◌^◌, ◌<◌, ◌≡◌, refl, ◌∙◌, Bool, true, false, Option, List, [], ◌∷◌, ◌++◌,
  append-nil, append_assoc, Bytes, length, All, Bool-cases, inl, inr, bytes_eq, leb, ◌==◌,
  if◌then◌else◌, arith,
}
use mini_distributed_storage.Base.Loop.{done, loop, loop-next, loop_done}
use mini_distributed_storage.Buffer.{Buffer, readable_bytes}
use mini_distributed_storage.Buffer.Contents.{Holds, readable-length}
use mini_distributed_storage.Md5.{Digest, get_string_md5, convert_md5_to_int}
use mini_distributed_storage.Client.{BlockFile, mapped}
use mini_distributed_storage.Upload.{Effect, reply, forward}
use mini_distributed_storage.Upload.Block.{block_message}
use mini_distributed_storage.Upload.Marks.{forwards}
use mini_distributed_storage.Storage.{
  Storage, Disk, append_to, Entry, contents_of, has_number, save_round, save_block_file, on_message,
  statu2, up,
}
use mini_distributed_storage.Storage.Save.{saved, block_path, contents_of-append_to, save_round_lem}
use mini_distributed_storage.Transfer.{on_message-up}

-- What the storage server `k` is sent.
unfoldable pub sent_to : ℕ → List Effect → Bytes
sent_to k [] = []
sent_to k (reply bytes ∷ es) = sent_to k es
sent_to k (forward j bytes ∷ es) = let rest = sent_to k es in if j == k then bytes ++ rest else rest

-- The blocks, of those whose flag is not set, that their digest sends to `k`.
unfoldable pub blocks_for : Digest → ℕ → Bytes → List BlockFile → List Bool → List Bytes
blocks_for d k content [] flags = []
blocks_for d k content (b ∷ bs) [] = []
blocks_for d k content (b ∷ bs) (true ∷ flags) = blocks_for d k content bs flags
blocks_for d k content (b ∷ bs) (false ∷ flags) =
    let rest = blocks_for d k content bs flags in
    if convert_md5_to_int (get_string_md5 d (mapped content b)) % 3 == k
    then mapped content b ∷ rest
    else rest

module _ (d : Digest) where
  -- The messages of blocks, one after the other.
  unfoldable pub messages_of : List Bytes → Bytes
  messages_of [] = []
  messages_of (x ∷ xs) = block_message (get_string_md5 d x) x ++ messages_of xs

  sent_to-forwards :
      (k : ℕ) (content : Bytes) (bs : List BlockFile) (flags : List Bool)
      → sent_to k (forwards d content bs flags) ≡ messages_of (blocks_for d k content bs flags)
  unfolding sent_to forwards messages_of blocks_for
  sent_to-forwards k content [] flags = refl
  sent_to-forwards k content (b ∷ bs) [] = refl
  sent_to-forwards k content (b ∷ bs) (true ∷ flags) = sent_to-forwards k content bs flags
  sent_to-forwards k content (b ∷ bs) (false ∷ flags) =
      ground (arith, sent_to-forwards k content bs flags)

  -- The state after several blocks.
  unfoldable pub saved_all : Storage → Bytes → List Bytes → Storage
  saved_all st dir [] = st
  saved_all st dir (x ∷ xs) = saved_all (saved st dir (get_string_md5 d x) x) dir xs

  -- The blocks that are kept under a path, one after the other.
  unfoldable pub kept_under : Bytes → Bytes → List Bytes → Bytes
  kept_under dir path [] = []
  kept_under dir path (x ∷ xs) =
      let rest = kept_under dir path xs in
      if bytes_eq (block_path dir (get_string_md5 d x)) path then x ++ rest else rest

  contents_of-saved_all :
      (st : Storage) (dir path : Bytes) (xs : List Bytes)
      → contents_of (saved_all st dir xs).files path
        ≡ contents_of st.files path ++ kept_under dir path xs
  unfolding saved_all kept_under
  contents_of-saved_all st dir path [] = rw (append-nil (contents_of st.files path)) refl
  contents_of-saved_all st dir path (x ∷ xs) =
      let own = block_path dir (get_string_md5 d x) in
      let later = contents_of-saved_all (saved st dir (get_string_md5 d x) x) dir path xs in
      let now = contents_of-append_to st.files own path x in
      elim (Bool-cases (bytes_eq own path)) [
        | inl same ↦
            let here = rw same at now in
            rw same (
              later ∙ rw here (append_assoc (contents_of st.files path) x (kept_under dir path xs)))
        | inr other ↦ let here = rw other at now in rw other (later ∙ rw here refl)
      ]

  -- The disk after several blocks.
  unfoldable pub disk_after : Bytes → List Bytes → Disk → Disk
  disk_after dir [] disk = disk
  disk_after dir (x ∷ xs) disk =
      disk_after dir xs (append_to disk (block_path dir (get_string_md5 d x)) x)

  saved_all-disk :
      (st : Storage) (dir : Bytes) (xs : List Bytes)
      → (saved_all st dir xs).files ≡ disk_after dir xs st.files
  unfolding saved_all disk_after
  saved_all-disk st dir [] = refl
  saved_all-disk st dir (x ∷ xs) = saved_all-disk (saved st dir (get_string_md5 d x) x) dir xs

  saved_all-still :
      (st : Storage) (dir : Bytes) (xs : List Bytes)
      → st.operate ≡ up
      → st.statu ≡ statu2
      → ((saved_all st dir xs).operate ≡ up) × ((saved_all st dir xs).statu ≡ statu2)
  unfolding saved_all
  saved_all-still st dir [] e1 e2 = (e1, e2)
  saved_all-still st dir (x ∷ xs) e1 e2 =
      saved_all-still (saved st dir (get_string_md5 d x) x) dir xs e1 e2

  saved_all-source :
      (st : Storage) (dir : Bytes) (xs : List Bytes)
      → (saved_all st dir xs).g_downfile_name ≡ st.g_downfile_name
  unfolding saved_all
  saved_all-source st dir [] = refl
  saved_all-source st dir (x ∷ xs) = saved_all-source (saved st dir (get_string_md5 d x) x) dir xs

  save_loop :
      (dir : Bytes) (xs : List Bytes) (fuel : ℕ) (st : Storage) (b : Buffer)
      → All (λ x. length x < 2 ^ 31) xs
      → Holds b (messages_of xs)
      → readable_bytes b < fuel
      → (c : Buffer) × (loop has_number (save_round d dir) fuel (st, b)
          ≡ done (saved_all st dir xs, c))
        × Holds c []
  unfolding messages_of saved_all
  save_loop dir [] fuel st b short k enough =
      let over : leb 4 (readable_bytes b) ≡ false = ground (arith, readable-length k) in
      (b, loop_done has_number (save_round d dir) fuel (st, b) (omega (arith, enough)) over, k)
  save_loop dir (x ∷ xs) zero st b short k enough = absurd (omega (arith, enough))
  save_loop dir (x ∷ xs) (suc fuel) st b short k enough =
      let (c, e, behind, all) = save_round_lem d st b dir x (messages_of xs) short.0 k in
      let more : has_number (st, b) ≡ true = ground (arith, all) in
      let (c', run, over) =
        save_loop dir xs fuel (saved st dir (get_string_md5 d x) x) c short.1 behind
          (omega (arith, all, enough, readable-length behind)) in
      (c', loop-next has_number (save_round d dir) fuel (st, b) more e ∙ run, over)

-- A storage server has opened the directory of a file; what the coordinator sends it for the blocks
-- of a client whose flags are not set, each of fewer than 2^31 bytes, is in its buffer. Then its
-- handler returns with an empty buffer, and every path has got just those of the blocks that are kept
-- under it, behind what it held, in order: the blocks whose digests select this server and name this
-- path in the directory.
pub forwards-saved :
    (d : Digest) (k : ℕ) (content : Bytes) (bs : List BlockFile) (flags : List Bool)
    (list_dir : Bytes → Option (List Entry)) (st : Storage) (b : Buffer) (path : Bytes)
    → st.operate ≡ up
    → st.statu ≡ statu2
    → All (λ x. length x < 2 ^ 31) (blocks_for d k content bs flags)
    → Holds b (sent_to k (forwards d content bs flags))
    → (st' : Storage) × (c : Buffer) × (on_message d list_dir (st, b) ≡ done (st', c))
      × Holds c []
      × ((st'.files ≡ disk_after d st.g_upfile_name (blocks_for d k content bs flags) st.files)
          × (st'.g_downfile_name ≡ st.g_downfile_name)
          × (st'.operate ≡ up)
          × (st'.statu ≡ statu2))
      × (contents_of st'.files path
          ≡ contents_of st.files path
            ++ kept_under d st.g_upfile_name path (blocks_for d k content bs flags))
unfolding save_block_file
forwards-saved d k content bs flags list_dir st b path e1 e2 short held =
    let xs = blocks_for d k content bs flags in
    let messages = rw (sent_to-forwards d k content bs flags) at held in
    let (c, run, over) =
      save_loop d st.g_upfile_name xs (suc (readable_bytes b)) st b short messages (omega arith) in
    (
      saved_all d st st.g_upfile_name xs,
      c,
      on_message-up d list_dir st b e1 e2 ∙ run,
      over,
      (
        saved_all-disk d st st.g_upfile_name xs,
        saved_all-source d st st.g_upfile_name xs,
        (saved_all-still d st st.g_upfile_name xs e1 e2).0,
        (saved_all-still d st st.g_upfile_name xs e1 e2).1,
      ),
      contents_of-saved_all d st st.g_upfile_name path xs,
    )
