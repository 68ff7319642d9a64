-- ===== src/Storage/Names.antt =====
-- The directory of an upload: `mkfile` of storageServer/saveFile_0/src/upLoad.h.
use mini_distributed_storage.Base.{
  ◌+◌, ◌^◌, ◌<◌, ◌≡◌, ◌∙◌, true, false, some, [], ◌∷◌, ◌++◌, Bytes, codes, length, length-append,
  leb, add_size, arith,
}
use mini_distributed_storage.Base.Loop.{done, next, loop-next, loop_done}
use mini_distributed_storage.Buffer.{Buffer, readable_bytes, retrieve}
use mini_distributed_storage.Buffer.Contents.{Holds, readable-length}
use mini_distributed_storage.Wire.{htonl}
use mini_distributed_storage.Wire.Frame.{number_lem, body_lem}
use mini_distributed_storage.Storage.{Storage, has_number, mkfile_round, mkfile, statu2}

-- The directory `name` in the one that is open.
abbrev pub entered : Storage → Bytes → Storage
entered s name =
    let dir = s.g_upfile_name ++ (name ++ codes "/") in
    record s { g_upfile_name = dir; dirs = s.dirs ++ dir ∷ []; statu = statu2 }

-- A length and a name at the front of the buffer.
mkfile_round_lem :
    (s : Storage) (b : Buffer) (name rest : Bytes)
    → length name < 2 ^ 32
    → Holds b (htonl (length name) ++ (name ++ rest))
    → (c : Buffer) × (mkfile_round (s, b) ≡ some (next (entered s name, c)))
      × Holds c rest
      × (readable_bytes b ≡ 4 + length name + length rest)
unfolding mkfile_round
mkfile_round_lem s b name rest h k =
    let n = number_lem b (length name) (name ++ rest) h k in
    let body = body_lem (retrieve b 4) name rest n.behind in
    let all : readable_bytes b ≡ 4 + length name + length rest =
      omega (arith, n.available, length-append name rest) in
    let fits : leb (add_size 4 (length name)) (readable_bytes b) ≡ true = ground (arith, all) in
    (retrieve (retrieve b 4) (length name), rw (n.value, fits, body.taken), body.behind, all)

-- The length, below 2^32, and the name of a file, with fewer than four bytes behind them: the server
-- makes and enters the directory of that name, expects blocks next, and keeps the other bytes.
pub mkfile_lem :
    (s : Storage) (b : Buffer) (name rest : Bytes)
    → length name < 2 ^ 32
    → length rest < 4
    → Holds b (htonl (length name) ++ (name ++ rest))
    → (c : Buffer) × (mkfile (s, b) ≡ done (entered s name, c)) × Holds c rest
unfolding mkfile
mkfile_lem s b name rest h hr k =
    let (c, e, behind, all) = mkfile_round_lem s b name rest h k in
    let more : has_number (s, b) ≡ true = ground (arith, all) in
    let over : leb 4 (readable_bytes c) ≡ false = ground (arith, readable-length behind) in
    (
      c,
      loop-next has_number mkfile_round (readable_bytes b) (s, b) more e
          ∙ loop_done has_number mkfile_round (readable_bytes b) _ (omega (arith, all)) over,
      behind,
    )
