-- ===== src/Storage/Save.antt =====
-- What a storage server does with a message of the coordinator: the length of a block, its digest and
-- its bytes.
use mini_distributed_storage.Base.{
  ℕ, ◌+◌, ◌^◌, ◌<◌, ◌≡◌, ◌∙◌, true, false, some, [], ◌∷◌, ◌++◌, append_assoc, Bytes, codes, length,
  length-append, bytes_eq, bytes_eq_iff, bytes_eq_refl, leb, if◌then◌else◌, add_size, size_of_int,
  arith,
}
use mini_distributed_storage.Base.Loop.{done, next, stop, loop-next, loop-stop, loop_done}
use mini_distributed_storage.Buffer.{Buffer, readable_bytes, retrieve}
use mini_distributed_storage.Buffer.Contents.{Holds, readable-length, peek-take}
use mini_distributed_storage.Wire.{htonl, ntohl, peek_be32}
use mini_distributed_storage.Wire.Frame.{number_lem, body_lem}
use mini_distributed_storage.Md5.{Digest, get_string_md5, length-get_string_md5}
use mini_distributed_storage.FileValue.Flags.{size_of_int_lem}
use mini_distributed_storage.Upload.Block.{block_message}
use mini_distributed_storage.Storage.{
  Storage, Disk, contents_of, append_to, has_number, store, save_round, save_block_file,
  on_message_flat,
}

-- Appending to one file adds to its contents, and to no other's.
pub contents_of-append_to :
    (disk : Disk) (p q bytes : Bytes)
    → contents_of (append_to disk p bytes) q
      ≡ (if bytes_eq p q then contents_of disk q ++ bytes else contents_of disk q)
unfolding contents_of append_to
contents_of-append_to [] p q bytes = ground arith
contents_of-append_to ((i, c) ∷ disk) p q bytes = ground (
  arith,
  bytes_eq_iff p q,
  bytes_eq_iff i p,
  bytes_eq_iff i q,
  contents_of-append_to disk p q bytes,
)

pub contents_of-append_to_self :
    (disk : Disk) (p bytes : Bytes)
    → contents_of (append_to disk p bytes) p ≡ contents_of disk p ++ bytes
contents_of-append_to_self disk p bytes =
    ground (arith, contents_of-append_to disk p p bytes, bytes_eq_refl p)

-- The path under which a block is kept.
abbrev pub block_path : Bytes → Bytes → Bytes
block_path dir md5 = dir ++ (md5 ++ codes ".txt")

-- The state after a block with a digest that fits.
abbrev pub saved : Storage → Bytes → Bytes → Bytes → Storage
saved s dir md5 block = record s {
  conter = s.conter + 1;
  files = append_to s.files (block_path dir md5) block;
}

module _ (d : Digest) where
  store-saved :
      (s : Storage) (dir block : Bytes)
      → store d s dir (get_string_md5 d block) block ≡ saved s dir (get_string_md5 d block) block
  unfolding store
  store-saved s dir block = rw (bytes_eq_refl (get_string_md5 d block))

  -- One message at the front of the buffer.
  pub save_round_lem :
      (s : Storage) (b : Buffer) (dir block rest : Bytes)
      → length block < 2 ^ 31
      → Holds b (block_message (get_string_md5 d block) block ++ rest)
      → (c : Buffer) × (save_round d dir (s, b)
          ≡ some (next (saved s dir (get_string_md5 d block) block, c)))
        × Holds c rest
        × (readable_bytes b ≡ 36 + length block + length rest)
  unfolding save_round
  save_round_lem s b dir block rest h k =
      let md5 = get_string_md5 d block in
      let front : Holds b (htonl (length block) ++ (md5 ++ (block ++ rest))) = ground (
        arith,
        k,
        append_assoc (htonl (length block)) (md5 ++ block) rest,
        append_assoc md5 block rest,
      ) in
      let n = number_lem b (length block) (md5 ++ (block ++ rest)) (omega arith) front in
      let dig = body_lem (retrieve b 4) md5 (block ++ rest) n.behind in
      let thirty_two = length-get_string_md5 d block in
      let taken = rw thirty_two at dig.taken in
      let behind = rw thirty_two at dig.behind in
      let body = body_lem (retrieve (retrieve b 4) 32) block rest behind in
      let all : readable_bytes b ≡ 36 + length block + length rest = omega (
        arith,
        n.available,
        thirty_two,
        length-append md5 (block ++ rest),
        length-append block rest,
      ) in
      let same = size_of_int_lem (length block) h in
      let fits : leb (add_size 36 (length block)) (readable_bytes b) ≡ true = ground (arith, all) in
      (
        retrieve (retrieve (retrieve b 4) 32) (length block),
        rw (n.value, same, fits, taken, body.taken, store-saved s dir block),
        body.behind,
        all,
      )

  -- A message of the coordinator with a block of fewer than 2^31 bytes and its digest, and fewer
  -- than four bytes behind it: the server appends the block to the file of that digest in its
  -- directory, counts it, and keeps the other bytes for later.
  pub save_block_file_lem :
      (s : Storage) (b : Buffer) (block rest : Bytes)
      → length block < 2 ^ 31
      → length rest < 4
      → Holds b (block_message (get_string_md5 d block) block ++ rest)
      → (c : Buffer) × (save_block_file d (s, b)
          ≡ done (saved s s.g_upfile_name (get_string_md5 d block) block, c))
        × Holds c rest
  unfolding save_block_file
  save_block_file_lem s b block rest h hr k =
      let (c, e, behind, all) = save_round_lem s b s.g_upfile_name block rest h k in
      let more : has_number (s, b) ≡ true = ground (arith, all) in
      let over : leb 4 (readable_bytes c) ≡ false = ground (arith, readable-length behind) in
      (
        c,
        loop-next has_number (save_round d s.g_upfile_name) (readable_bytes b) (s, b) more e
            ∙ loop_done has_number (save_round d s.g_upfile_name) (readable_bytes b) _
                (omega (arith, all)) over,
        behind,
      )

  -- A message that is not complete stays in the buffer.
  pub save_round-waits :
      (s : Storage) (b : Buffer) (dir : Bytes) (n : ℕ)
      → peek_be32 b ≡ some n
      → leb (add_size 36 (size_of_int n)) (readable_bytes b) ≡ false
      → save_round d dir (s, b) ≡ some (stop (s, b))
  unfolding save_round
  save_round-waits s b dir n e h = rw (e, h)

  pub letters_as_number :
      {b : Buffer} (rest : Bytes)
      → Holds b (codes "upppload" ++ rest)
      → peek_be32 b ≡ some 1970303088
  unfolding peek_be32 ntohl
  letters_as_number rest k = rw (peek-take k 4 (omega arith))

  -- The coordinator opens each upload with "upppload" to all three storage servers. saveFile_1 and
  -- saveFile_2 take the first four letters for the size of a block, 1970303088: as long as the buffer
  -- holds no more than that and 35 bytes, `onMessage` does nothing, whatever follows.
  pub on_message_flat-stuck :
      (s : Storage) (b : Buffer) (rest : Bytes)
      → 8 + length rest < 36 + 1970303088
      → Holds b (codes "upppload" ++ rest)
      → on_message_flat d (s, b) ≡ done (s, b)
  unfolding on_message_flat
  on_message_flat-stuck s b rest h k =
      let more : has_number (s, b) ≡ true = ground (arith, readable-length k) in
      let front : peek_be32 b ≡ some 1970303088 = letters_as_number rest k in
      let over : leb (add_size 36 (size_of_int 1970303088)) (readable_bytes b) ≡ false =
        ground (arith, readable-length k) in
      loop-stop has_number (save_round d (codes "./File/")) (readable_bytes b) (s, b) more
        (save_round-waits s b (codes "./File/") 1970303088 front over)
