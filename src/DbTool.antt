-- ===== src/DbTool.antt =====
-- db/db_operation.cpp: an earlier, procedural access to the tables, and the program that tries it out.
-- The state is that of the server and the global `STATUS`, which is 0 or negative: `status` is its
-- absolute value, and so are the results. The server's functions are parameters; `mysql_real_query`
-- gives `none` where it fails. Output is left out, and with it `view_query_result`.
pub mod Status
mod Tests
use mini_distributed_storage.Base.{
  ℕ, zero, suc, Bool, true, false, Option, none, some, List, [], ◌∷◌, ◌++◌, Bytes, codes, length,
  ◌==◌, if◌then◌else◌,
}
use mini_distributed_storage.Decimal.{to_string}
use mini_distributed_storage.Database.{Row}

-- `key_info`.
pub record Key : Type 0 where
  pub name : Bytes
  pub type : Bytes
  pub describe : Bytes
  pub pri_key : Bool

pub record Tool (Db : Type 0) : Type 0 where
  pub db : Db
  pub status : ℕ

-- The columns of `db_add_table`, and the name of the last key.
abbrev pub columns : List Key → Bytes
columns [] = []
columns (k ∷ keys) =
    k.name ++ (codes " " ++ (k.type ++ (codes " " ++ (k.describe ++ (codes "," ++ columns keys)))))

abbrev pub primary_key : Bytes → List Key → Bytes
primary_key found [] = found
primary_key found (k ∷ keys) = primary_key (if k.pri_key then k.name else found) keys

-- The values of `db_add_row`; without values the parenthesis stays open.
abbrev pub values : List Bytes → Bytes
values [] = []
values (v ∷ []) = v ++ codes ")"
values (v ∷ w ∷ vs) = v ++ (codes "," ++ values (w ∷ vs))

module _ {Db : Type 0} (query : Bytes → Db → Option (List Row) × Db) where
  -- `mysql_real_query`, when `STATUS` is 0; otherwise nothing is sent.
  unfoldable pub ask : Bytes → Tool Db → Option (List Row) × Tool Db
  ask statement t =
      if t.status == 0
      then (let r = query statement t.db in (r.0, record t { db = r.1 }))
      else (none, t)

  -- The result of a function that returns an `int`: `STATUS`, 0 or -1.
  unfoldable pub execute : Bytes → Tool Db → ℕ × Tool Db
  execute statement t =
      let r = ask statement t in
      (if t.status == 0 then elim r.0 [ none ↦ 1 | some rows ↦ 0 ] else t.status, r.1)

  unfoldable pub db_query : Bytes → Bytes → Tool Db → Option (List Row) × Tool Db
  db_query table items t = ask (codes "SELECT " ++ (items ++ (codes " from " ++ table))) t

  unfoldable pub db_add_table : Bytes → List Key → Tool Db → ℕ × Tool Db
  db_add_table name keys t =
      execute
        (codes "CREATE TABLE "
          ++ (name
              ++ (codes " ("
                  ++ (columns keys
                      ++ (codes " PRIMARY KEY ("
                          ++ (primary_key [] keys ++ codes ")) ENGINE=InnoDB"))))))
        t

  unfoldable pub db_rm_table : Bytes → Tool Db → ℕ × Tool Db
  db_rm_table name t = execute (codes "DROP TABLE " ++ name) t

  unfoldable pub db_add_row : Bytes → List Bytes → Tool Db → ℕ × Tool Db
  db_add_row table value t =
      execute (codes "INSERT INTO " ++ (table ++ (codes " VALUES(" ++ values value))) t

  unfoldable pub db_rm_row : Bytes → Bytes → Tool Db → ℕ × Tool Db
  db_rm_row table name t =
      execute (codes "DELETE FROM " ++ (table ++ (codes " WHERE NAME = " ++ name))) t

  unfoldable pub db_update_upload : Bytes → Bytes → ℕ → Tool Db → ℕ × Tool Db
  db_update_upload table name upload_stat t =
      execute
        (codes "UPDATE "
          ++ (table
              ++ (codes " SET upload_stat="
                  ++ (to_string upload_stat ++ (codes " WHERE name=" ++ name)))))
        t

  -- A query that is true when it gives no row.
  unfoldable pub has_none : Bytes → Tool Db → Bool × Tool Db
  has_none statement t =
      let r = ask statement t in (elim r.0 [ none ↦ false | some rows ↦ length rows == 0 ], r.1)

  unfoldable pub check_upload : Bytes → Tool Db → Bool × Tool Db
  check_upload file t =
      has_none (codes "SELECT * FROM " ++ (file ++ codes " WHERE upload_stat=0")) t

  unfoldable pub db_new_download : Bytes → Bytes → Tool Db → ℕ × Tool Db
  db_new_download table name t =
      let r =
        execute
          (codes "UPDATE "
            ++ (table
                ++ (codes " SET download_stat=download_stat+1 WHERE name='"
                    ++ (name ++ codes "'"))))
          t in
      if r.0 == 0
      then execute (codes "UPDATE " ++ (name ++ codes " SET download_stat=1")) r.1
      else r

  unfoldable pub db_update_download : Bytes → Bytes → ℕ → Tool Db → ℕ × Tool Db
  db_update_download table name download_stat t =
      execute
        (codes "UPDATE "
          ++ (table
              ++ (codes " SET download_stat="
                  ++ (to_string download_stat ++ (codes " WHERE name=" ++ name)))))
        t

  unfoldable pub check_download : Bytes → Tool Db → Bool × Tool Db
  check_download file t =
      has_none (codes "SELECT * FROM " ++ (file ++ codes " WHERE download_stat=1")) t

  unfoldable pub db_finish_download : Bytes → Bytes → Tool Db → ℕ × Tool Db
  db_finish_download table name t =
      execute
        (codes "UPDATE "
          ++ (table ++ (codes " SET download_stat=download_stat-1 WHERE name=" ++ name)))
        t

-- `initilize`, where `mysql_init` tells whether it has given an object.
unfoldable pub initilize : {Db : Type 0} → (Db → Bool × Db) → Tool Db → ℕ × Tool Db
initilize mysql_init t = let r = mysql_init t.db in (if r.0 then 0 else 1, record t { db = r.1 })

-- `conn_db`, where `mysql_real_connect` tells whether it has connected to the database of a name.
unfoldable pub conn_db : {Db : Type 0} → (Bytes → Db → Bool × Db) → Bytes → Tool Db → ℕ × Tool Db
conn_db mysql_real_connect db t =
    let r = mysql_real_connect db t.db in (if r.0 then 0 else 1, record t { db = r.1 })

-- `if((STATUS=f(…))!=0) STATUS = -k`.
unfoldable pub set_status : {Db : Type 0} → ℕ → ℕ × Tool Db → Tool Db
set_status k (code, t) = record t { status = (if code == 0 then 0 else k) }

-- `if((result=db_query(…))==NULL) STATUS = -3`.
unfoldable pub check_result : {Db : Type 0} → Option (List Row) × Tool Db → Tool Db
check_result (none, t) = record t { status = 3 }
check_result (some rows, t) = t

abbrev pub quoted : Bytes → Bytes
quoted s = codes "'" ++ (s ++ codes "'")

abbrev pub file_name : Bytes
file_name = codes "AAAAA"

abbrev pub block_list : List Bytes
block_list = codes "BBB" ∷ codes "CCC" ∷ codes "DDD" ∷ []

abbrev pub keys : List Key
keys =
    record { name = codes "id"; type = codes "int"; describe = codes "NOT NULL"; pri_key = true }
    ∷ record {
      name = codes "name";
      type = codes "char(32)";
      describe = codes "NOT NULL";
      pri_key = false;
    }
    ∷ record {
      name = codes "upload_stat";
      type = codes "int";
      describe = codes "NOT NULL";
      pri_key = false;
    }
    ∷ []

-- The steps of `main`.
module _ {Db : Type 0} (query : Bytes → Db → Option (List Row) × Db) where
  unfoldable pub show : Bytes → Tool Db → Tool Db
  show table t = check_result (db_query query table (codes "*") t)

  unfoldable pub add_file : Tool Db → Tool Db
  add_file t =
      let made = set_status 4 (db_add_table query file_name keys t) in
      let file_info = codes "0" ∷ quoted file_name ∷ codes "0" ∷ codes "3" ∷ [] in
      show (codes "files") (set_status 5 (db_add_row query (codes "files") file_info made))

  unfoldable pub add_blocks : ℕ → List Bytes → Tool Db → Tool Db
  add_blocks i [] t = t
  add_blocks i (b ∷ bs) t =
      let block_info = to_string i ∷ quoted b ∷ codes "0" ∷ [] in
      add_blocks (suc i) bs
        (show file_name (set_status 5 (db_add_row query file_name block_info t)))

  -- The body of `if(check_upload(…))`.
  unfoldable pub complete : Bool × Tool Db → Tool Db
  complete (true, t) =
      show (codes "files")
        (set_status 6 (db_update_upload query (codes "files") (quoted file_name) 1 t))
  complete (false, t) = t

  unfoldable pub upload_blocks : List Bytes → Tool Db → Tool Db
  upload_blocks [] t = t
  upload_blocks (b ∷ bs) t =
      let marked = set_status 6 (db_update_upload query file_name (quoted b) 1 t) in
      upload_blocks bs (complete (check_upload query file_name (show file_name marked)))

  -- What `main` does after it has connected.
  unfoldable pub try_out : Tool Db → Tool Db
  try_out t = upload_blocks block_list (add_blocks 0 block_list (add_file t))

-- `main` up to `mysql_close`; its result is `STATUS`.
unfoldable pub main :
    {Db : Type 0}
    → (Db → Bool × Db)
    → (Bytes → Db → Bool × Db)
    → (Bytes → Db → Option (List Row) × Db)
    → Tool Db
    → Tool Db
main mysql_init mysql_real_connect query t =
    let made = set_status 1 (initilize mysql_init t) in
    try_out query (set_status 2 (conn_db mysql_real_connect (codes "FILE") made))
