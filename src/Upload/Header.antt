-- ===== src/Upload/Header.antt =====
-- What `initFileNumber` does with the header of an upload: the length of path and digest, the number
-- of blocks, the path and the file's digest.
use mini_distributed_storage.Base.{
  ◌≤◌, ℕ, ◌+◌, ◌^◌, ◌<◌, ◌≡◌, ◌∙◌, true, false, some, [], ◌∷◌, ◌++◌, Bytes, codes, length, leb,
  length-append, take-append_self, drop-append_self, take_all, append_assoc, sub_size, add_size,
  arith,
}
use mini_distributed_storage.Base.Loop.{done, next, loop-next, loop_done}
use mini_distributed_storage.Buffer.{Buffer, readable_bytes, retrieve}
use mini_distributed_storage.Buffer.Contents.{Holds, readable-length}
use mini_distributed_storage.Buffer.Growth.{length-retrieve}
use mini_distributed_storage.Wire.{htonl}
use mini_distributed_storage.Wire.Frame.{Parts, parts_lem}
use mini_distributed_storage.Fileproxy.{ls_file, add_file}
use mini_distributed_storage.Upload.Names.{get_file_name-base_name}
use mini_distributed_storage.Upload.{
  Server, reply, upstatu2, to_all, emit, substr, base_name, new_file, open_file, take_header,
  header_round, has_number, init_file_number,
}

-- The bytes of a header.
abbrev pub header : ℕ → Bytes → Bytes → Bytes
header num path md5 = htonl (length path + 32) ++ (htonl num ++ (path ++ md5))

-- The state after the header of a file that is not known yet.
abbrev pub added : Server → ℕ → Bytes → Bytes → Server
added s num path md5 = record {
  up_statu = upstatu2;
  g_file = add_file s.g_file (base_name path) num md5;
  g_file_name = base_name path;
  sent =
      s.sent
      ++ (to_all (htonl (length (base_name path)))
          ++ (to_all (base_name path) ++ reply (codes "ACK") ∷ []));
}

substr_front :
    (path md5 : Bytes)
    → length md5 ≡ 32
    → length path ≤ 2 ^ 31
    → substr (path ++ md5) 0 (sub_size (length path + 32) 32) ≡ some path
substr_front path md5 l h =
    let e : sub_size (length path + 32) 32 ≡ length path = omega arith in
    rw e (ground (arith, take-append_self path md5))

substr_back :
    (path md5 : Bytes)
    → length md5 ≡ 32
    → length path ≤ 2 ^ 31
    → substr (path ++ md5) (sub_size (length path + 32) 32) (length (path ++ md5)) ≡ some md5
substr_back path md5 l h =
    let e : sub_size (length path + 32) 32 ≡ length path = omega arith in
    rw e (
      ground (
        arith,
        drop-append_self path md5,
        length-append path md5,
        take_all (length (path ++ md5)) md5,
      ))

-- The header's parts, from the bytes in the buffer.
header-Parts :
    (b : Buffer) (num : ℕ) (path md5 rest : Bytes)
    → length md5 ≡ 32
    → length path ≤ 2 ^ 31
    → num < 2 ^ 32
    → Holds b (header num path md5 ++ rest)
    → Parts b num (path ++ md5) rest
header-Parts b num path md5 rest l h hn k =
    let whole : length (path ++ md5) ≡ length path + 32 = omega (arith, length-append path md5) in
    parts_lem b num (path ++ md5) rest (omega arith) hn (
      ground (
        arith,
        whole,
        k,
        append_assoc (htonl (length path + 32)) (htonl num ++ (path ++ md5)) rest,
        append_assoc (htonl num) (path ++ md5) rest,
      ))

-- A header of a file that is not known: the file is added with its number of blocks and its digest,
-- its name goes to the three storage servers, the client is told to send the block digests, and what
-- follows the header stays in the buffer.
take_new_header :
    (s : Server) (b : Buffer) (num : ℕ) (path md5 rest : Bytes)
    → length md5 ≡ 32
    → length path ≤ 2 ^ 31
    → ls_file s.g_file (base_name path) ≡ false
    → Parts b num (path ++ md5) rest
    → take_header s b (length path + 32)
      ≡ some (next (added s num path md5, retrieve (retrieve (retrieve b 4) 4) (length path + 32)))
unfolding take_header open_file new_file
take_new_header s b num path md5 rest l h unknown p =
    let whole : length (path ++ md5) ≡ length path + 32 = omega (arith, length-append path md5) in
    let taken = rw whole at p.block.taken in
    let name = get_file_name-base_name path h in
    rw (p.number, taken, substr_front path md5 l h, name, unknown, substr_back path md5 l h)

abbrev pub after_header : Buffer → ℕ → Buffer
after_header b len = retrieve (retrieve (retrieve b 4) 4) len

pub length-after_header :
    (b : Buffer) (len : ℕ) → length (after_header b len).buffer ≡ length b.buffer
length-after_header b len =
    length-retrieve (retrieve (retrieve b 4) 4) len
    ∙ length-retrieve (retrieve b 4) 4
    ∙ length-retrieve b 4

-- A whole round: it begins with "upppload" to the storage servers.
round_new_header :
    (s : Server) (b : Buffer) (num : ℕ) (path md5 rest : Bytes)
    → length md5 ≡ 32
    → length path ≤ 2 ^ 31
    → ls_file s.g_file (base_name path) ≡ false
    → Parts b num (path ++ md5) rest
    → header_round (s, b)
      ≡ some (
          next (
            added (emit s (to_all (codes "upppload"))) num path md5,
            after_header b (length path + 32),
          ))
unfolding header_round
round_new_header s b num path md5 rest l h unknown p =
    let s1 = emit s (to_all (codes "upppload")) in
    let whole : length (path ++ md5) ≡ length path + 32 = omega (arith, length-append path md5) in
    let len = rw whole at p.len in
    let fits : leb (add_size 8 (length path + 32)) (readable_bytes b) ≡ true =
      ground (arith, whole, p.here) in
    rw (len, fits) (take_new_header s1 b num path md5 rest l h unknown p)

-- `initFileNumber` on such a header, with the buffer that it leaves.
pub init_file_number_lem :
    (s : Server) (b : Buffer) (num : ℕ) (path md5 rest : Bytes)
    → length md5 ≡ 32
    → length path ≤ 2 ^ 31
    → num < 2 ^ 32
    → length rest < 4
    → ls_file s.g_file (base_name path) ≡ false
    → Holds b (header num path md5 ++ rest)
    → (init_file_number (s, b)
        ≡ done (
          added (emit s (to_all (codes "upppload"))) num path md5,
          after_header b (length path + 32),
        ))
      × Holds (after_header b (length path + 32)) rest
unfolding init_file_number
init_file_number_lem s b num path md5 rest l h hn hr unknown k =
    let p = header-Parts b num path md5 rest l h hn k in
    let whole : length (path ++ md5) ≡ length path + 32 = omega (arith, length-append path md5) in
    let c = after_header b (length path + 32) in
    let behind : Holds c rest = rw whole at p.block.behind in
    let more : has_number (s, b) ≡ true = ground (arith, p.here) in
    let over : leb 4 (readable_bytes c) ≡ false = ground (arith, readable-length behind) in
    let round = round_new_header s b num path md5 rest l h unknown p in
    (
      loop-next has_number header_round (readable_bytes b) (s, b) more round
          ∙ loop_done has_number header_round (readable_bytes b) _ (omega (arith, p.here)) over,
      behind,
    )

-- The header of an upload of a file that the coordinator does not know, with a digest of 32
-- characters and numbers below 2^32, at the front of the buffer with fewer than four bytes behind
-- it. `initFileNumber` returns; the storage servers have been sent "upppload", the length of the
-- file's name and the name, and the client "ACK"; the file is in the map with its digest and number
-- of blocks, none of them uploaded; the next status is `upstatu2`; and the bytes behind the header
-- are still in the buffer.
pub init_file_number-new :
    (s : Server) (b : Buffer) (num : ℕ) (path md5 rest : Bytes)
    → length md5 ≡ 32
    → length path ≤ 2 ^ 31
    → num < 2 ^ 32
    → length rest < 4
    → ls_file s.g_file (base_name path) ≡ false
    → Holds b (header num path md5 ++ rest)
    → (c : Buffer) × (init_file_number (s, b)
        ≡ done (added (emit s (to_all (codes "upppload"))) num path md5, c))
      × Holds c rest
init_file_number-new s b num path md5 rest l h hn hr unknown k =
    let (run, behind) = init_file_number_lem s b num path md5 rest l h hn hr unknown k in
    (after_header b (length path + 32), run, behind)
