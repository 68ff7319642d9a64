-- ===== src/Transfer/Split.antt =====
-- A header that comes in two pieces: `initFileNumber` of ReactorService/src/upLoad.h sends "upppload"
-- before it looks whether the header is all there, and so once for each piece; what that does to
-- `mkfile` of storageServer/saveFile_0/src/upLoad.h.
use mini_distributed_storage.Base.{
  ℕ, zero, suc, ◌+◌, ◌^◌, ◌≤◌, ◌<◌, ◌≡◌, refl, ap, ◌∙◌, true, false, Option, some, List, [], ◌∷◌,
  ◌++◌, append_assoc, append-nil, Bytes, codes, length, length-append, leb, add_size, arith,
}
use mini_distributed_storage.Base.Loop.{done, loop-stop}
use mini_distributed_storage.Buffer
use mini_distributed_storage.Buffer.{Buffer, readable_bytes}
use mini_distributed_storage.Buffer.Valid.{max_len}
use mini_distributed_storage.Buffer.Contents.{Holds, readable-length, read_fd-Holds}
use mini_distributed_storage.Buffer.Growth.{length-read_fd}
use mini_distributed_storage.Wire.{htonl, length-htonl, peek_be32}
use mini_distributed_storage.Wire.Pieces.{front-Number}
use mini_distributed_storage.Md5.{Digest}
use mini_distributed_storage.Fileproxy.{ls_file}
use mini_distributed_storage.Upload.{
  Server, Effect, reply, forward, upstatu1, emit, to_all, base_name, has_number, header_round,
  init_file_number,
}
use mini_distributed_storage.Upload.Header.{header, added, after_header, init_file_number_lem}
use mini_distributed_storage.Coordinator
use mini_distributed_storage.Coordinator.{Coordinator, on_messages}
use mini_distributed_storage.Coordinator.Begin.{
  on_messages-cons, on_messages-nil, on_message-header,
}
use mini_distributed_storage.Storage
use mini_distributed_storage.Storage.{
  Storage, Entry, statu1, on_message, up_load, mkfile, mkfile_round,
}
use mini_distributed_storage.Storage.Save.{letters_as_number}
use mini_distributed_storage.Transfer.Batch.{sent_to}

length-header :
    (num : ℕ) (path md5 : Bytes) → length md5 ≡ 32 → length (header num path md5) ≡ 40 + length path
length-header num path md5 l = omega (
  arith,
  length-append (htonl (length path + 32)) (htonl num ++ (path ++ md5)),
  length-append (htonl num) (path ++ md5),
  length-append path md5,
  length-htonl (length path + 32),
  length-htonl num,
)

-- The first piece: at least four bytes of a header, and not all.
header-waits :
    (s : Server) (b : Buffer) (num : ℕ) (path md5 held q : Bytes)
    → length md5 ≡ 32
    → length path ≤ 2 ^ 31
    → Holds b held
    → held ++ q ≡ header num path md5
    → 4 ≤ length held
    → length held < length (header num path md5)
    → init_file_number (s, b) ≡ done (emit s (to_all (codes "upppload")), b)
unfolding init_file_number header_round
header-waits s b num path md5 held q l h k e four short =
    let n = length path + 32 in
    let (rest, front) =
      front-Number b n held q (htonl num ++ (path ++ md5)) (omega (arith, h)) k e four in
    let more : has_number (s, b) ≡ true = ground (arith, readable-length k) in
    let over : leb (add_size 8 n) (readable_bytes b) ≡ false =
      ground (arith, readable-length k, length-header num path md5 l) in
    loop-stop has_number header_round (readable_bytes b) (s, b) more (rw (front.value, over) refl)

-- What the second "upppload" does to `mkfile`.
mkfile-stuck :
    (d : Digest) (list_dir : Bytes → Option (List Entry)) (st : Storage) (b : Buffer) (rest : Bytes)
    → st.operate ≡ Storage.up
    → st.statu ≡ statu1
    → 8 + length rest < 4 + 1970303088
    → Holds b (codes "upppload" ++ rest)
    → on_message d list_dir (st, b) ≡ done (st, b)
unfolding on_message up_load mkfile mkfile_round
mkfile-stuck d list_dir st b rest e1 e2 h k =
    let more : Storage.has_number (st, b) ≡ true = ground (arith, readable-length k) in
    let front : peek_be32 b ≡ some 1970303088 = letters_as_number d rest k in
    let over : leb (add_size 4 1970303088) (readable_bytes b) ≡ false =
      ground (arith, readable-length k) in
    let stops : mkfile (st, b) ≡ done (st, b) =
      loop-stop Storage.has_number mkfile_round (readable_bytes b) (st, b) more
        (rw (front, over) refl) in
    simp (e1, e2, stops)

-- What the storage servers have been sent for a header that came in two pieces.
abbrev pub told_twice : Server → ℕ → Bytes → Bytes → Server
told_twice s num path md5 =
    added (emit (emit s (to_all (codes "upppload"))) (to_all (codes "upppload"))) num path md5

-- What a storage server is sent behind the first "upppload".
abbrev pub second_hello : Bytes → Bytes
second_hello path = codes "upppload" ++ (htonl (length (base_name path)) ++ base_name path)

sent_to-append : (k : ℕ) (es fs : List Effect) → sent_to k (es ++ fs) ≡ sent_to k es ++ sent_to k fs
unfolding sent_to
sent_to-append k [] fs = refl
sent_to-append k (reply bytes ∷ es) fs = sent_to-append k es fs
sent_to-append k (forward j bytes ∷ es) fs =
    ground (arith, sent_to-append k es fs, append_assoc bytes (sent_to k es) (sent_to k fs))

sent_to-to_all : (k : ℕ) (bytes : Bytes) → k < 3 → sent_to k (to_all bytes) ≡ bytes
unfolding sent_to
sent_to-to_all zero bytes h = append-nil bytes
sent_to-to_all (suc zero) bytes h = append-nil bytes
sent_to-to_all (suc (suc zero)) bytes h = append-nil bytes
sent_to-to_all (suc (suc (suc k))) bytes h = absurd (omega (arith, h))

sent_to-reply : (k : ℕ) (bytes : Bytes) → sent_to k (reply bytes ∷ []) ≡ []
unfolding sent_to
sent_to-reply k bytes = refl

told_twice-sent :
    (k : ℕ) (s : Server) (num : ℕ) (path md5 : Bytes)
    → k < 3
    → sent_to k (told_twice s num path md5).sent
      ≡ sent_to k s.sent
        ++ (codes "upppload"
            ++ (codes "upppload" ++ (htonl (length (base_name path)) ++ base_name path)))
told_twice-sent k s num path md5 h =
    let hello = codes "upppload" in
    let size = htonl (length (base_name path)) in
    let name = base_name path in
    let ack = reply (codes "ACK") ∷ [] in
    sent_to-append k ((s.sent ++ to_all hello) ++ to_all hello)
      (to_all size ++ (to_all name ++ ack))
    ∙ rw
        (
          sent_to-append k (s.sent ++ to_all hello) (to_all hello),
          sent_to-append k s.sent (to_all hello),
          sent_to-append k (to_all size) (to_all name ++ ack),
          sent_to-append k (to_all name) ack,
          sent_to-to_all k hello h,
          sent_to-to_all k size h,
          sent_to-to_all k name h,
          sent_to-reply k (codes "ACK"),
          append-nil name,
          append_assoc (sent_to k s.sent ++ hello) hello (size ++ name),
          append_assoc (sent_to k s.sent) hello (hello ++ (size ++ name)),
        )
        refl

-- The two calls of the coordinator's handler.
header_split-repeats :
    (d : Digest) (c : Coordinator) (b : Buffer) (num : ℕ) (path md5 p q : Bytes)
    → c.operate ≡ Coordinator.up
    → c.server.up_statu ≡ upstatu1
    → length md5 ≡ 32
    → length path ≤ 2 ^ 31
    → num < 2 ^ 32
    → ls_file c.server.g_file (base_name path) ≡ false
    → Holds b []
    → p ++ q ≡ header num path md5
    → 4 ≤ length p
    → 0 < length q
    → length b.buffer + 40 + length path < max_len
    → (b' : Buffer) × (on_messages d (c, b) (p ∷ q ∷ [])
        ≡ done (record c { server = told_twice c.server num path md5 }, b'))
      × Holds b' []
header_split-repeats d c b num path md5 p q e1 e2 l h hn unknown k cut four some_left room =
    let size = length-header num path md5 l in
    let sum = length-append p q in
    let all = ap length cut in
    let b1 = Buffer.read_fd b (some p) in
    let k1 : Holds b1 p =
      rw k.holds at (read_fd-Holds b p k.valid (omega (arith, size, sum, all, room))) in
    let grown = length-read_fd b p k.valid (omega (arith, size, sum, all, room)) in
    let waits =
      header-waits c.server b1 num path md5 p q l h k1 cut four
        (omega (arith, sum, all, some_left)) in
    let s1 = emit c.server (to_all (codes "upppload")) in
    let c1 : Coordinator = record c { server = s1 } in
    let b2 = Buffer.read_fd b1 (some q) in
    let k2 : Holds b2 (header num path md5 ++ []) = rw (append-nil (header num path md5)) (
      rw (k1.holds, cut) at
        (read_fd-Holds b1 q k1.valid (omega (arith, size, sum, all, room, grown)))) in
    let (opened, left) =
      init_file_number_lem s1 b2 num path md5 [] l h hn (omega arith) unknown k2 in
    let first = on_message-header d c b1 b1 s1 e1 e2 waits in
    let second = on_message-header d c1 b2 (after_header b2 (length path + 32)) _ e1 e2 opened in
    (
      after_header b2 (length path + 32),
      on_messages-cons d c b _ p (q ∷ []) first
          ∙ on_messages-cons d c1 b1 _ q [] second
          ∙ on_messages-nil d _,
      left,
    )

-- A coordinator waits for a header, and the header of a file that is not in the map, with a path of
-- at most 2^31 bytes, arrives in two reads, at least four bytes in the first. Then its handler
-- returns and has sent each storage server "upppload" twice, and then the length and the name of the
-- file. And a storage server that has taken the first "upppload" takes nothing more: while its buffer holds what is left of this, and fewer than
-- 1970303092 bytes in all, whatever follows, its handler returns with nothing changed.
pub header_split-stuck :
    (d : Digest) (c : Coordinator) (b : Buffer) (num : ℕ) (path md5 p q : Bytes)
    → c.operate ≡ Coordinator.up
    → c.server.up_statu ≡ upstatu1
    → length md5 ≡ 32
    → length path ≤ 2 ^ 31
    → num < 2 ^ 32
    → ls_file c.server.g_file (base_name path) ≡ false
    → Holds b []
    → p ++ q ≡ header num path md5
    → 4 ≤ length p
    → 0 < length q
    → length b.buffer + 40 + length path < max_len
    → (list_dir : Bytes → Option (List Entry)) (st : Storage) (bs : Buffer) (k : ℕ) (more : Bytes)
    → k < 3
    → st.operate ≡ Storage.up
    → st.statu ≡ statu1
    → length (second_hello path) + length more < 1970303092
    → Holds bs (second_hello path ++ more)
    → (c' : Coordinator) × (b' : Buffer) × (on_messages d (c, b) (p ∷ q ∷ []) ≡ done (c', b'))
      × (sent_to k c'.server.sent
          ≡ sent_to k c.server.sent ++ (codes "upppload" ++ second_hello path))
      × (on_message d list_dir (st, bs) ≡ done (st, bs))
header_split-stuck d c b num path md5 p q e1 e2 l h hn unknown kb cut four some_left room list_dir
      st bs k more hk e3 e4 short ks =
    let name = base_name path in
    let rest = htonl (length name) ++ name in
    let (b', run, _) =
      header_split-repeats d c b num path md5 p q e1 e2 l h hn unknown kb cut four some_left room in
    let held : Holds bs (codes "upppload" ++ (rest ++ more)) =
      rw (append_assoc (codes "upppload") rest more) at ks in
    (
      record c { server = told_twice c.server num path md5 },
      b',
      run,
      told_twice-sent k c.server num path md5 hk,
      mkfile-stuck d list_dir st bs (rest ++ more) e3 e4
          (omega (arith, length-append rest more, length-append (codes "upppload") rest, short))
          held,
    )
