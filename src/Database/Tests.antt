-- ===== src/Database/Tests.antt =====
-- The database helper against small servers.
use mini_distributed_storage.Base.{
  length, ◌++◌, ℕ, ◌+◌, false, Option, some, List, [], ◌∷◌, Bytes, codes, ◌≡◌, refl, arith,
}
use mini_distributed_storage.Base.Loop.{done}
use mini_distributed_storage.Client.{update_ids}
use mini_distributed_storage.Decimal.{to_string, digits}
use mini_distributed_storage.Database.{Row, DbHelper, set_block_md5, get_block_id_string}
use mini_distributed_storage.Database.Blocks.{part_count, add_rows, set_block_md5_lem}
use mini_distributed_storage.Database.Ids.{id_text, id_rows, marked, get_block_id_string-update_ids}

-- A server that records the statements.
abbrev recording : Bytes → List Bytes → Option (List Row) × List Bytes
recording statement log = (some [], statement ∷ log)

-- A server that answers with the ids 0 and 2.
abbrev listing : Bytes → ℕ → Option (List Row) × ℕ
listing statement n = (some (id_rows (0 ∷ 2 ∷ [])), n + 1)

abbrev fresh : DbHelper (List Bytes)
fresh = record { db = []; file_cnt = 0 }

abbrev counting : DbHelper ℕ
counting = record { db = 0; file_cnt = 0 }

set_block_md5_lem_example :
    set_block_md5 recording (codes "kvmap") (codes "0123456789") fresh
    ≡ done (
      part_count (codes "0123456789"),
      add_rows recording
          (codes "kvmap")
          (codes "0123456789")
          (part_count (codes "0123456789"))
          0
          fresh,
    )
set_block_md5_lem_example =
    set_block_md5_lem recording (codes "kvmap") (codes "0123456789") fresh (omega arith)

short_text : length (id_text (0 ∷ []) ++ to_string 2) ≡ 3
unfolding id_text to_string digits
short_text = refl

get_block_id_string-update_ids_example :
    (text : Bytes) × (get_block_id_string listing (codes "kvmap") counting
      ≡ some (text, record { db = 1; file_cnt = 0 }))
    × (update_ids text (false ∷ false ∷ false ∷ [])
        ≡ some (marked (0 ∷ []) (false ∷ false ∷ false ∷ [])))
get_block_id_string-update_ids_example =
    get_block_id_string-update_ids listing (codes "kvmap") counting 1 (0 ∷ []) 2
      (false ∷ false ∷ false ∷ []) refl (omega arith, tt) (omega arith) (omega (arith, short_text))
