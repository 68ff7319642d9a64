-- ===== src/Transfer/Returned.antt =====
-- A download as a storage server sees it: its handler (storageServer/saveFile_0/src/main.cc and
-- downLoad.h) on a new connection.
use mathlib.Core.List.{map}
use mini_distributed_storage.Base.{
  ap, ◌+◌, ◌^◌, ◌≤◌, ◌<◌, ◌≡◌, refl, ◌∙◌, true, false, Option, some, List, [], ◌∷◌, ◌++◌,
  append_assoc, append-nil, All, Bytes, codes, length, take_all, bytes_eq, bytes_eq_refl,
  bytes_eq_first, leb, add_size, if◌then◌else◌, Bool-cases, inl, inr, arith,
}
use mini_distributed_storage.Base.Loop.{done, next, loop-next, loop_done}
use mini_distributed_storage.Buffer.{Buffer, readable_bytes, retrieve}
use mini_distributed_storage.Buffer.Contents.{Holds, readable-length}
use mini_distributed_storage.Wire.{htonl}
use mini_distributed_storage.Wire.Frame.{number_lem, body_lem}
use mini_distributed_storage.Md5.{Digest}
use mini_distributed_storage.Storage.{
  Storage, Entry, sw, down, on_connection, on_message, switch_operate, down_load, down_round,
  has_number,
}
use mini_distributed_storage.Storage.Listing.{
  is_sent, messages, ShortNames, read_file_list-messages,
}
use mini_distributed_storage.Download.Files.{Stored, stored_message}

-- The files of a directory that are sent.
unfoldable pub files_of : List Entry → List Stored
files_of [] = []
files_of (e ∷ es) = if is_sent e then (e.name, e.bytes) ∷ files_of es else files_of es

-- One `read` is enough for each file that is sent.
abbrev pub Readable : List Entry → Type 0
Readable = All λ e. is_sent e ≡ true → length e.bytes ≤ 2 ^ 20

-- What the coordinator takes for messages of files is what the storage server sends.
pub messages-files_of :
    (es : List Entry) → Readable es → messages es ≡ map stored_message (files_of es)
unfolding files_of messages
messages-files_of [] h = refl
messages-files_of (e ∷ es) h = elim (Bool-cases (is_sent e)) [
  | inl yes_sent ↦
      rw (yes_sent, take_all (2 ^ 20) e.bytes (h.0 yes_sent))
        (ap (λ ms. stored_message (e.name, e.bytes) ∷ ms) (messages-files_of es h.1))
  | inr not_sent ↦ rw not_sent (messages-files_of es h.1)
]

module _ (d : Digest) (list_dir : Bytes → Option (List Entry)) (st : Storage) where
  on_message-download :
      (b : Buffer)
      → st.operate ≡ sw
      → Holds b (codes "download")
      → (on_message d list_dir (st, b)
          ≡ done (
            record st { operate = down; replies = st.replies ++ codes "down ack" ∷ [] },
            retrieve b 8,
          ))
        × Holds (retrieve b 8) []
  unfolding on_message switch_operate
  on_message-download b e k =
      let body = body_lem b (codes "download") [] (rw (append-nil (codes "download")) k) in
      let other : bytes_eq (codes "download") (codes "upppload") ≡ false =
        bytes_eq_first b'd' b'u' (codes "ownload") (codes "pppload") refl in
      (simp (e, body.taken, other, bytes_eq_refl (codes "download")), body.behind)

  -- The state when the directory `es` has been sent.
  abbrev listed : List Entry → Storage
  listed es = record st { replies = st.replies ++ messages es; g_downfile_name = codes "./File/" }

  down_round-lists :
      (b : Buffer) (name : Bytes) (es : List Entry)
      → length name < 2 ^ 32
      → Holds b (htonl (length name) ++ name)
      → list_dir (st.g_downfile_name ++ (name ++ codes "/")) ≡ some es
      → ShortNames es
      → (c : Buffer) × (down_round list_dir (st, b) ≡ some (next (listed es, c)))
        × Holds c []
        × (readable_bytes b ≡ 4 + length name)
  unfolding down_round
  down_round-lists b name es h k opened short =
      let n = number_lem b (length name) name h k in
      let body = body_lem (retrieve b 4) name [] (rw (append-nil name) n.behind) in
      let fits : leb (add_size 4 (length name)) (readable_bytes b) ≡ true =
        ground (arith, n.available, h) in
      let sent = read_file_list-messages es st.replies short in
      (
        retrieve (retrieve b 4) (length name),
        rw (n.value, fits, body.taken, opened, sent) refl,
        body.behind,
        n.available,
      )

  on_message-down :
      (b : Buffer) → st.operate ≡ down → on_message d list_dir (st, b) ≡ down_load list_dir (st, b)
  unfolding on_message
  on_message-down b e = simp e

  -- The directory of the file that is asked for is sent.
  on_message-name :
      (b : Buffer) (name : Bytes) (es : List Entry)
      → st.operate ≡ down
      → length name < 2 ^ 32
      → Holds b (htonl (length name) ++ name)
      → list_dir (st.g_downfile_name ++ (name ++ codes "/")) ≡ some es
      → ShortNames es
      → (c : Buffer) × (on_message d list_dir (st, b) ≡ done (listed es, c)) × Holds c []
  unfolding down_load
  on_message-name b name es e h k opened short =
      let (c, round, left, all) = down_round-lists b name es h k opened short in
      let more : has_number (st, b) ≡ true = ground (arith, all) in
      let over : has_number (listed es, c) ≡ false = ground (arith, readable-length left) in
      (
        c,
        on_message-down b e
            ∙ loop-next has_number (down_round list_dir) (readable_bytes b) (st, b) more round
            ∙ loop_done has_number (down_round list_dir) (readable_bytes b) (listed es, c)
                (omega (arith, all)) over,
        left,
      )

-- The calls of a storage server's handler for a download.
pub record Listed (d : Digest) (list_dir : Bytes → Option (List Entry)) (st : Storage)
    (es : List Entry) (b1 b2 : Buffer) : Type 0 where
  pub s1 : Storage
  pub s2 : Storage
  pub c1 : Buffer
  pub c2 : Buffer
  pub greeted : on_message d list_dir (on_connection st true, b1) ≡ done (s1, c1)
  pub listed : on_message d list_dir (s1, b2) ≡ done (s2, c2)
  pub replied : s2.replies ≡ st.replies ++ codes "down ack" ∷ messages es
  pub unchanged : s2.files ≡ st.files
  pub no_rest : Holds c1 [] × Holds c2 []

-- On a new connection a storage server is asked for a file: "download" and then the length and the
-- name of the file arrive in one buffer each. The directory of that name can be listed, and no name in
-- it is too long for Linux. Then both calls of the handler return with empty buffers, and the server
-- has answered "down ack" and then, for each regular file of the directory and in its order, one
-- message: its size, its name, and at most its first 2^20 bytes. Its disk is as before.
pub download-Listed :
    (d : Digest) (list_dir : Bytes → Option (List Entry)) (st : Storage) (name : Bytes)
    (es : List Entry) (b1 b2 : Buffer)
    → length name < 2 ^ 32
    → list_dir (st.g_downfile_name ++ (name ++ codes "/")) ≡ some es
    → ShortNames es
    → Holds b1 (codes "download")
    → Holds b2 (htonl (length name) ++ name)
    → Listed d list_dir st es b1 b2
unfolding on_connection
download-Listed d list_dir st name es b1 b2 h opened able k1 k2 =
    let s0 = on_connection st true in
    let s1 : Storage = record s0 {
      operate = down;
      replies = s0.replies ++ codes "down ack" ∷ [];
    } in
    let (greeted, left1) = on_message-download d list_dir s0 b1 refl k1 in
    let (c2, run, left2) = on_message-name d list_dir s1 b2 name es refl h k2 opened able in
    record {
      s1 = s1;
      s2 = record s1 { replies = s1.replies ++ messages es; g_downfile_name = codes "./File/" };
      c1 = retrieve b1 8;
      c2 = c2;
      greeted = greeted;
      listed = run;
      replied = append_assoc st.replies (codes "down ack" ∷ []) (messages es);
      unchanged = refl;
      no_rest = (left1, left2);
    }
