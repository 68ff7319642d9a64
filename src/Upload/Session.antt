-- ===== src/Upload/Session.antt =====
-- A whole upload of a file that the coordinator does not know: the client's three messages and the
-- coordinator's three handlers.
use mini_distributed_storage.Base.{
  ◌++◌, ℕ, suc, ◌+◌, ◌*◌, ◌^◌, ◌<◌, ◌≤◌, ◌≡◌, refl, ap, ◌∙◌, true, false, some, List, [], ◌∷◌,
  Bytes, length, length-replicate, get_elem?, replicate, leb, arith, size_of_int,
}
use mini_distributed_storage.Base.Loop.{done}
use mini_distributed_storage.Buffer.{Buffer, readable_bytes, retrieve}
use mini_distributed_storage.Buffer.Contents.{Holds}
use mini_distributed_storage.Wire.Frame.{body_lem}
use mini_distributed_storage.Md5.{Digest}
use mini_distributed_storage.FileValue
use mini_distributed_storage.FileValue.{FileValue, file_value, all_set}
use mini_distributed_storage.FileValue.Flags.{IsValid, file_value-IsValid, size_of_int_lem}
use mini_distributed_storage.FileValue.Blocks.{nth_md5, set_block_file_md5_lem}
use mini_distributed_storage.Fileproxy
use mini_distributed_storage.Fileproxy.{find, insert, ls_file, add_file}
use mini_distributed_storage.Client.{BlockFile, mapped, send_file_block_md5info}
use mini_distributed_storage.Client.Messages.{stream}
use mini_distributed_storage.Client.Numbered.{Numbered, nth_md5_first, nth_md5_later, length-md5s}
use mini_distributed_storage.Upload.{Server, upstatu3, take_md5s, init_file_md5}
use mini_distributed_storage.Upload.Marks.{Announced, Synced}

-- The digests in the client's message are those of its blocks.
pub Numbered-Announced :
    (d : Digest) (content : Bytes) (md5s : List Bytes) (i : ℕ) (bs : List BlockFile)
    → Numbered content i bs
    → ((j : ℕ)
        → j < length bs
        → get_elem? md5s (i + j) ≡ some (nth_md5 (stream (send_file_block_md5info d content bs)) j))
    → Announced d content md5s i bs
unfolding Numbered Announced stream send_file_block_md5info
Numbered-Announced d content md5s i [] n h = tt
Numbered-Announced d content md5s i (b ∷ bs) n h =
    let rest = stream (send_file_block_md5info d content bs) in
    let same : i + 0 ≡ i = omega arith in
    let first = rw (same, nth_md5_first d (mapped content b) rest) at (h 0 (omega arith)) in
    (
      n.0,
      n.1,
      n.2,
      first,
      Numbered-Announced d content md5s (suc i) bs n.3 (λ j k.
          let next : suc i + j ≡ i + suc j = omega arith in
          rw next (h (suc j) (omega arith) ∙ rw (nth_md5_later d (mapped content b) rest j) refl)),
    )

-- The state when the digests have come.
abbrev pub prepared : Server → FileValue → Server
prepared s g = record s { g_file = insert s.g_file s.g_file_name g; up_statu = upstatu3 }

-- `initFileMD5` waits until the digests of all blocks are there.
pub init_file_md5-waits :
    (s : Server) (f : FileValue) (b : Buffer)
    → find s.g_file s.g_file_name ≡ some f
    → readable_bytes b < 32 * f.block_num
    → init_file_md5 (s, b) ≡ done (s, b)
unfolding init_file_md5 Fileproxy.get_file_num FileValue.get_file_num
init_file_md5-waits s f b found few =
    let over : leb (32 * f.block_num) (readable_bytes b) ≡ false = ground (arith, few) in
    rw (found, over) refl

-- `initFileMD5` on the digests of all blocks.
pub init_file_md5_lem :
    (s : Server) (f g : FileValue) (b : Buffer) (md5s rest : Bytes)
    → find s.g_file s.g_file_name ≡ some f
    → length md5s ≡ 32 * f.block_num
    → FileValue.set_block_file_md5 f md5s ≡ some g
    → Holds b (md5s ++ rest)
    → (init_file_md5 (s, b) ≡ done (prepared s g, retrieve b (length md5s)))
      × Holds (retrieve b (length md5s)) rest
unfolding init_file_md5 take_md5s Fileproxy.get_file_num Fileproxy.set_block_file_md5
    FileValue.get_file_num
init_file_md5_lem s f g b md5s rest found size stored k =
    let body = body_lem b md5s rest k in
    let here : leb (32 * f.block_num) (readable_bytes b) ≡ true =
      ground (arith, body.available, size) in
    let taken = rw size at body.taken in (rw (found, here, taken, stored, size) refl, body.behind)

pub none_set : (k : ℕ) → all_set (replicate (suc k) false) ≡ false
unfolding all_set
none_set k = refl

module _ (d : Digest) (s : Server) (xs path : Bytes) (n : ℕ) (bs : List BlockFile) where
  -- The coordinator's file when the digests have come.
  pub record Prepared (md5s : Bytes) (f : FileValue) : Type 0 where
    pub size : length md5s ≡ 32 * f.block_num
    pub file : FileValue
    pub stored : FileValue.set_block_file_md5 f md5s ≡ some file
    pub valid : IsValid file
    pub small : file.block_num < 2 ^ 31
    pub announced : Announced d xs file.block_file_md5 0 bs
    pub synced : Synced file 0 (replicate n false)

  pub prepared_lem :
      (md5 : Bytes)
      → n ≤ 2 ^ 26
      → length bs ≡ n
      → Numbered xs 0 bs
      → Prepared (stream (send_file_block_md5info d xs bs)) (file_value n md5)
  unfolding file_value FileValue.get_block_file_md5
  prepared_lem md5 most count numbered =
      let md5s = stream (send_file_block_md5info d xs bs) in
      let size : length md5s ≡ 32 * n = omega (arith, length-md5s d xs bs, count) in
      let (g, stored, valid, shape, digests) =
        set_block_file_md5_lem (file_value n md5) md5s (file_value-IsValid n md5) most size in
      let num : g.block_num ≡ n = ap (λ f. f.block_num) shape in
      let flags : g.upload_id ≡ replicate n false = ap (λ f. f.upload_id) shape in
      record {
        size = size;
        file = g;
        stored = stored;
        valid = valid;
        small = omega (arith, num, most);
        announced = Numbered-Announced d xs g.block_file_md5 0 bs numbered (λ j h.
            let same : size_of_int j ≡ j = size_of_int_lem j (omega (arith, h, count, most)) in
            let up : 0 + j ≡ j = omega arith in
            rw up (rw same at (digests j (omega (arith, h, count)))));
        synced = record {
          before = λ j h. absurd (omega (arith, h));
          behind = λ j. let up : 0 + j ≡ j = omega arith in rw (up, flags) refl;
          count = omega (arith, num, length-replicate n false);
        };
      }
