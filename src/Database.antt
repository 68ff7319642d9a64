-- ===== src/Database.antt =====
-- `DBhelper` of db/mysql_operation.h: the table of files and a table of blocks for each file, kept in
-- MySQL. The server is the parameter `query`: for a statement it gives the rows of the result, or
-- `none` where `mysql_real_query` fails, and its next state. `none` as a result of a method is a read
-- through the null pointer of a missing row. Log output is left out; `int` arguments are not negative.
pub mod Blocks
pub mod Ids
mod Tests
use mini_distributed_storage.Base.{
  ℕ, zero, suc, ◌+◌, ◌-◌, ◌*◌, ◌^◌, Bool, true, false, Option, none, some, List, [], ◌∷◌, ◌++◌,
  ◌>>=◌, Bytes, codes, length, get_elem?, take, drop, ltb, ◌==◌, if◌then◌else◌,
}
use mini_distributed_storage.Base.Loop.{Outcome, Round, next, loop}
use mini_distributed_storage.Decimal.{to_string, atoi}

abbrev pub Row : Type 0
Row = List Bytes

pub record DbHelper (Db : Type 0) : Type 0 where
  pub db : Db
  pub file_cnt : ℕ

-- The statements.
abbrev pub select_file : Bytes → Bytes
select_file name = codes "SELECT * FROM files WHERE name='" ++ (name ++ codes "'")

abbrev pub create_table : Bytes → Bytes
create_table name =
    codes "CREATE TABLE `"
    ++ (name
        ++ codes
            "` (id int NOT NULL, block_md5 char(33) NOT NULL, upload_stat int NOT NULL, PRIMARY KEY (block_md5)) ENGINE=InnoDB")

abbrev pub insert_file : ℕ → Bytes → Bytes → ℕ → Bytes
insert_file id name file_md5 block_num =
    codes "INSERT INTO files VALUES("
    ++ (to_string id
        ++ (codes ", '"
            ++ (name
                ++ (codes "', '"
                    ++ (file_md5 ++ (codes "', " ++ (to_string block_num ++ codes ")")))))))

abbrev pub select_unfinished : Bytes → Bytes
select_unfinished name = codes "SELECT * FROM " ++ (name ++ codes " WHERE upload_stat=0")

abbrev pub insert_block : Bytes → ℕ → Bytes → Bytes
insert_block name block_id block_md5 =
    codes "INSERT INTO "
    ++ (name
        ++ (codes " VALUES("
            ++ (to_string block_id ++ (codes ", '" ++ (block_md5 ++ (codes "', " ++ codes "0)"))))))

abbrev pub update_block : Bytes → ℕ → Bytes
update_block name block_id =
    codes "UPDATE " ++ (name ++ (codes " SET upload_stat=1 WHERE id=" ++ to_string block_id))

abbrev pub select_block : Bytes → ℕ → Bytes
select_block name block_id =
    codes "SELECT block_md5 FROM " ++ (name ++ (codes " WHERE id=" ++ to_string block_id))

abbrev pub select_ids : Bytes → Bytes
select_ids name = codes "SELECT id FROM " ++ (name ++ codes " WHERE upload_stat=1")

abbrev pub select_num : Bytes → Bytes
select_num name = codes "SELECT block_num FROM files WHERE name ='" ++ (name ++ codes "'")

abbrev pub select_md5s : Bytes → Bytes
select_md5s name = codes "SELECT block_md5 FROM `" ++ (name ++ codes "` ORDER BY id ASC")

-- `row[0]` of the first row.
unfoldable pub first_cell : List Row → Option Bytes
first_cell [] = none
first_cell (row ∷ rows) = get_elem? row 0

-- The first cells of all rows, each with `mark` behind it, joined.
unfoldable pub join_cells : Bytes → List Row → Option Bytes
join_cells mark [] = some []
join_cells mark (row ∷ rows) = do
  cell ← get_elem? row 0
  rest ← join_cells mark rows
  some (cell ++ (mark ++ rest))

-- `pop_back` unless the string is empty.
unfoldable pub pop_back : Bytes → Bytes
pop_back s = take (length s - 1) s

-- The text of `get_block_id_string`.
unfoldable pub joined_ids : List Row → Option Bytes
joined_ids rows = do temp_string ← join_cells (codes ":") rows; some (pop_back temp_string)

unfoldable pub first_number : List Row → Option (Option ℕ)
first_number rows = do cell ← first_cell rows; some (some (atoi cell))

-- A method's result: `fallback` where the query has failed, or what `f` makes of the rows.
unfoldable pub answered :
    {A Db : Type 0}
    → A
    → (List Row → Option A)
    → Option (List Row) × DbHelper Db
    → Option (A × DbHelper Db)
answered fallback f (none, h) = some (fallback, h)
answered fallback f (some rows, h) = do a ← f rows; some (a, h)

module _ {Db : Type 0} (query : Bytes → Db → Option (List Row) × Db) where
  -- `mysql_real_query`, and the result that `mysql_store_result` gives.
  unfoldable pub ask : Bytes → DbHelper Db → Option (List Row) × DbHelper Db
  ask statement h = let r = query statement h.db in (r.0, record h { db = r.1 })

  unfoldable pub check_file_exist : Bytes → DbHelper Db → Bool × DbHelper Db
  check_file_exist name h =
      let r = ask (select_file name) h in
      (elim r.0 [ none ↦ false | some rows ↦ length rows == 1 ], r.1)

  unfoldable pub db_add_file_table : Bytes → DbHelper Db → DbHelper Db
  db_add_file_table name h = (ask (create_table name) h).1

  unfoldable pub db_add_file_row : Bytes → ℕ → Bytes → DbHelper Db → DbHelper Db
  db_add_file_row name block_num file_md5 h =
      let r = ask (insert_file h.file_cnt name file_md5 block_num) h in
      elim r.0 [ none ↦ r.1 | some rows ↦ record r.1 { file_cnt = r.1.file_cnt + 1 } ]

  unfoldable pub create_file : Bytes → ℕ → Bytes → DbHelper Db → DbHelper Db
  create_file name block_num file_md5 h =
      db_add_file_row name block_num file_md5 (db_add_file_table name h)

  unfoldable pub check_upload_status : Bytes → DbHelper Db → Bool × DbHelper Db
  check_upload_status name h =
      let r = ask (select_unfinished name) h in
      (elim r.0 [ none ↦ false | some rows ↦ length rows == 0 ], r.1)

  unfoldable pub db_add_block_row : Bytes → ℕ → Bytes → DbHelper Db → DbHelper Db
  db_add_block_row name block_id block_md5 h = (ask (insert_block name block_id block_md5) h).1

  -- The test and a round of the loop of `set_block_md5`; `block_id*32` is an `int`.
  abbrev pub has_block : Bytes → ℕ × DbHelper Db → Bool
  has_block md5_string (block_id, h) = ltb (block_id * 32) (length md5_string)

  unfoldable pub block_row_round :
      Bytes → Bytes → ℕ × DbHelper Db → Option (Round (ℕ × DbHelper Db))
  block_row_round name md5_string (block_id, h) =
      if ltb ((block_id + 1) * 32) (2 ^ 31)
      then some (
          next (
            block_id + 1,
            db_add_block_row name block_id (take 32 (drop (block_id * 32) md5_string)) h,
          ))
      else none

  unfoldable pub set_block_md5 : Bytes → Bytes → DbHelper Db → Outcome (ℕ × DbHelper Db)
  set_block_md5 name md5_string h =
      loop (has_block md5_string) (block_row_round name md5_string) (suc (length md5_string)) (0, h)

  unfoldable pub set_block_uploaded : Bytes → ℕ → DbHelper Db → DbHelper Db
  set_block_uploaded name block_id h = (ask (update_block name block_id) h).1

  unfoldable pub get_block_md5 : ℕ → Bytes → DbHelper Db → Option (Bytes × DbHelper Db)
  get_block_md5 block_id name h = answered [] first_cell (ask (select_block name block_id) h)

  unfoldable pub get_block_id_string : Bytes → DbHelper Db → Option (Bytes × DbHelper Db)
  get_block_id_string name h = answered [] joined_ids (ask (select_ids name) h)

  -- `get_block_num`; an inner `none` is its -1.
  unfoldable pub get_block_num : Bytes → DbHelper Db → Option (Option ℕ × DbHelper Db)
  get_block_num name h = answered none first_number (ask (select_num name) h)

  unfoldable pub get_file_block_md5 : Bytes → DbHelper Db → Option (Bytes × DbHelper Db)
  get_file_block_md5 name h = answered [] (join_cells []) (ask (select_md5s name) h)
