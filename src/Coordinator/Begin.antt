-- ===== src/Coordinator/Begin.antt =====
-- How an upload begins: "upppload", and then the header of a file.
use mini_distributed_storage.Base.{
  ℕ, ◌+◌, ◌^◌, ◌≤◌, ◌<◌, ◌≡◌, refl, ◌∙◌, true, false, some, List, [], ◌∷◌, ◌++◌, append-nil, Bytes,
  codes, length, length-append, bytes_eq_refl, leb, arith,
}
use mini_distributed_storage.Base.Slices.{length-write_at}
use mini_distributed_storage.Base.Loop.{done}
use mini_distributed_storage.Buffer
use mini_distributed_storage.Buffer.{Buffer, writable_bytes, retrieve, read_as_block}
use mini_distributed_storage.Buffer.Valid.{max_len}
use mini_distributed_storage.Buffer.Contents.{Holds, new-Holds, read_fd-Holds}
use mini_distributed_storage.Buffer.Growth.{length-read_fd as length-read_fd_all}
use mini_distributed_storage.Wire.{htonl, length-htonl}
use mini_distributed_storage.Wire.Frame.{body_lem}
use mini_distributed_storage.Md5.{Digest}
use mini_distributed_storage.Fileproxy.{ls_file}
use mini_distributed_storage.Upload.{
  Server, upstatu1, emit, to_all, base_name, init_file_number, up_load_file,
}
use mini_distributed_storage.Upload.Header.{
  header, added, after_header, length-after_header, init_file_number_lem,
}
use mini_distributed_storage.Coordinator.{
  Coordinator, State, sw, up, switch_operate, on_connection, with_server, on_message, on_messages,
}

length-read_fd :
    (b : Buffer) (bytes : Bytes)
    → leb (length bytes) (writable_bytes b) ≡ true
    → length (Buffer.read_fd b (some bytes)).buffer ≡ length b.buffer
unfolding Buffer.read_fd
length-read_fd b bytes e = rw e (length-write_at b.buffer b.writer_index _)

-- A buffer that has just received `bytes`.
pub read_fd-onto :
    (b : Buffer) (bytes : Bytes)
    → Holds b []
    → length b.buffer + length bytes < max_len
    → Holds (Buffer.read_fd b (some bytes)) bytes
read_fd-onto b bytes k h = rw k.holds at (read_fd-Holds b bytes k.valid h)

-- The first message, then the others.
pub on_messages-cons :
    (d : Digest) (c : Coordinator) (b : Buffer) (st : State) (m : Bytes) (ms : List Bytes)
    → on_message d (c, Buffer.read_fd b (some m)) ≡ done st
    → on_messages d (c, b) (m ∷ ms) ≡ on_messages d st ms
unfolding on_messages
on_messages-cons d c b st m ms e = rw (e, on_messages)

pub on_messages-nil : (d : Digest) (st : State) → on_messages d st [] ≡ done st
unfolding on_messages
on_messages-nil d st = refl

module _ (d : Digest) (c : Coordinator) where
  pub on_message-sw :
      (b : Buffer)
      → c.operate ≡ sw
      → Holds b (codes "upppload")
      → (on_message d (c, b) ≡ done (record c { operate = up }, retrieve b 8))
        × Holds (retrieve b 8) []
  unfolding on_message switch_operate
  on_message-sw b e k =
      let body = body_lem b (codes "upppload") [] (rw (append-nil (codes "upppload")) k) in
      (simp (e, body.taken, bytes_eq_refl (codes "upppload")), body.behind)

  pub on_message-header :
      (b b' : Buffer) (s : Server)
      → c.operate ≡ up
      → c.server.up_statu ≡ upstatu1
      → init_file_number (c.server, b) ≡ done (s, b')
      → on_message d (c, b) ≡ done (record c { server = s }, b')
  unfolding on_message with_server up_load_file
  on_message-header b b' s e1 e2 e3 = simp (e1, e2, e3)

-- The same with a bound for the vector of the buffer that is left.
pub upload_begins_in :
    (d : Digest) (c : Coordinator)
    → (num : ℕ) (path md5 : Bytes) → length md5 ≡ 32
    → length path ≤ 2 ^ 31
    → num < 2 ^ 32
    → ls_file c.server.g_file (base_name path) ≡ false
    → (b : Buffer) × (on_messages d
          (on_connection true c, Buffer.new)
          (codes "upppload" ∷ header num path md5 ∷ [])
        ≡ done (
          record c {
            operate = up;
            server =
                added
                  (emit (record c.server { up_statu = upstatu1 }) (to_all (codes "upppload")))
                  num
                  path
                  md5;
          },
          b,
        ))
      × Holds b []
      × (length b.buffer ≤ 1072 + length path)
unfolding on_connection
upload_begins_in d c num path md5 l h hn unknown =
    let fresh = on_connection true c in
    let hello = Buffer.read_fd Buffer.new (some (codes "upppload")) in
    let k1 = read_fd-onto Buffer.new (codes "upppload") new-Holds (omega arith) in
    let (switched, k2) = on_message-sw d fresh hello refl k1 in
    let same = length-read_fd Buffer.new (codes "upppload") refl in
    let kept : length (retrieve hello 8).buffer ≡ 1032 = unfold retrieve in same in
    let size : length (header num path md5) ≡ 40 + length path = omega (
      arith,
      length-append (htonl (length path + 32)) (htonl num ++ (path ++ md5)),
      length-append (htonl num) (path ++ md5),
      length-append path md5,
      length-htonl (length path + 32),
      length-htonl num,
    ) in
    let k3 =
      read_fd-onto (retrieve hello 8) (header num path md5) k2 (omega (arith, size, h, kept)) in
    let filled = Buffer.read_fd (retrieve hello 8) (some (header num path md5)) in
    let (opened, k4) =
      init_file_number_lem fresh.server filled num path md5 [] l h hn (omega arith) unknown
        (rw (append-nil (header num path md5)) k3) in
    let b = after_header filled (length path + 32) in
    let took = on_message-header d (record fresh { operate = up }) _ b _ refl refl opened in
    let grown =
      length-read_fd_all (retrieve hello 8) (header num path md5) k2.valid
        (omega (arith, size, h, kept)) in
    let off = length-after_header filled (length path + 32) in
    (
      b,
      on_messages-cons d fresh Buffer.new _ _ _ switched
          ∙ on_messages-cons d _ _ _ _ [] took
          ∙ on_messages-nil d _,
      k4,
      omega (arith, grown, off, kept, size),
    )

-- A client connects, and its two messages "upppload" and the header of a file that is not in the
-- map, with a path of at most 2^31 bytes, a digest of 32 characters and a number of blocks below
-- 2^32, arrive in one piece each. Then the coordinator has told the storage servers "upppload" and
-- the name of the file and the client "ACK", the file is in the map with no block uploaded, and the digests of its blocks are expected next
-- (`upstatu2`). All bytes have been read.
pub upload_begins :
    (d : Digest) (c : Coordinator)
    → (num : ℕ) (path md5 : Bytes) → length md5 ≡ 32
    → length path ≤ 2 ^ 31
    → num < 2 ^ 32
    → ls_file c.server.g_file (base_name path) ≡ false
    → (b : Buffer) × (on_messages d
          (on_connection true c, Buffer.new)
          (codes "upppload" ∷ header num path md5 ∷ [])
        ≡ done (
          record c {
            operate = up;
            server =
                added
                  (emit (record c.server { up_statu = upstatu1 }) (to_all (codes "upppload")))
                  num
                  path
                  md5;
          },
          b,
        ))
      × Holds b []
upload_begins d c num path md5 l h hn unknown =
    let (b, run, left, _) = upload_begins_in d c num path md5 l h hn unknown in (b, run, left)
