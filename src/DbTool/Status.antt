-- ===== src/DbTool/Status.antt =====
-- `STATUS` in db/db_operation.cpp: after an error nothing more is sent, and what `main` returns.
use mini_distributed_storage.Base.{
  ℕ, suc, Bool, true, false, Option, none, some, List, [], ◌∷◌, ◌++◌, Bytes, codes, ◌≡◌, refl, ◌∙◌,
  ◌==◌, ◌⊎◌, inl, inr, Bool-cases, arith,
}
use mini_distributed_storage.Decimal.{to_string}
use mini_distributed_storage.Database.{Row}
use mini_distributed_storage.DbTool.{
  Tool, ask, execute, db_query, db_add_table, db_add_row, db_update_upload, has_none, check_upload,
  set_status, check_result, initilize, conn_db, show, add_file, add_blocks, complete, upload_blocks,
  try_out, main, quoted, file_name, block_list,
}

-- A step after an error: the server is left as it is, and there is an error still.
unfoldable pub Skips : {Db : Type 0} → Tool Db → Tool Db → Type 0
Skips t u = (u.db ≡ t.db) × ((u.status == 0) ≡ false)

-- `STATUS` is 0 or -3.
unfoldable pub Ends : {Db : Type 0} → Tool Db → Type 0
Ends t = (t.status ≡ 0) ⊎ (t.status ≡ 3)

Skips-trans : {Db : Type 0} (t u v : Tool Db) → Skips t u → Skips u v → Skips t v
unfolding Skips
Skips-trans t u v a b = (b.0 ∙ a.0, b.1)

Skips-step :
    {Db : Type 0} (t u : Tool Db) (f : Tool Db → Tool Db)
    → u ≡ record t { status = 3 }
    → Skips (record t { status = 3 }) (f (record t { status = 3 }))
    → Skips t (f u)
unfolding Skips
Skips-step t u f e h = rw e h

module _ {Db : Type 0} (query : Bytes → Db → Option (List Row) × Db) where
  ask_skips : (s : Bytes) (t : Tool Db) → (t.status == 0) ≡ false → ask query s t ≡ (none, t)
  unfolding ask
  ask_skips s t e = rw e

  execute_skips :
      (k : ℕ) (s : Bytes) (t : Tool Db)
      → (t.status == 0) ≡ false
      → set_status (suc k) (execute query s t) ≡ record t { status = suc k }
  unfolding execute set_status
  execute_skips k s t e = rw (e, ask_skips s t e, e)

  show_skips :
      (table : Bytes) (t : Tool Db)
      → (t.status == 0) ≡ false
      → show query table t ≡ record t { status = 3 }
  unfolding show db_query check_result
  show_skips table t e = rw (ask_skips _ t e, check_result)

  add_row_show :
      (k : ℕ) (table target : Bytes) (row : List Bytes) (t : Tool Db)
      → (t.status == 0) ≡ false
      → show query target (set_status (suc k) (db_add_row query table row t))
        ≡ record t { status = 3 }
  unfolding db_add_row
  add_row_show k table target row t e =
      rw (execute_skips k _ t e) (show_skips target (record t { status = suc k }) (ground arith))

  add_file_skips :
      (t : Tool Db) → (t.status == 0) ≡ false → add_file query t ≡ record t { status = 3 }
  unfolding add_file db_add_table
  add_file_skips t e =
      rw (execute_skips 3 _ t e) (add_row_show 4 _ _ _ (record t { status = 4 }) refl)

  add_blocks-Skips :
      (i : ℕ) (bs : List Bytes) (t : Tool Db)
      → (t.status == 0) ≡ false
      → Skips t (add_blocks query i bs t)
  unfolding add_blocks Skips
  add_blocks-Skips i [] t e = (refl, e)
  add_blocks-Skips i (b ∷ bs) t e =
      Skips-step t _ (add_blocks query (suc i) bs)
        (add_row_show 4 file_name file_name (to_string i ∷ quoted b ∷ codes "0" ∷ []) t e)
        (add_blocks-Skips (suc i) bs (record t { status = 3 }) refl)

  check_upload_skips :
      (t : Tool Db) → (t.status == 0) ≡ false → complete query (check_upload query file_name t) ≡ t
  unfolding check_upload has_none complete
  check_upload_skips t e = rw (ask_skips _ t e, complete)

  upload_block_skips :
      (b : Bytes) (t : Tool Db)
      → (t.status == 0) ≡ false
      → complete query (
          check_upload query file_name
            (show query file_name (set_status 6 (db_update_upload query file_name (quoted b) 1 t))))
        ≡ record t { status = 3 }
  unfolding db_update_upload
  upload_block_skips b t e =
      rw (execute_skips 5 _ t e, show_skips file_name (record t { status = 6 }) refl)
        (check_upload_skips (record t { status = 3 }) refl)

  upload_blocks-Skips :
      (bs : List Bytes) (t : Tool Db) → (t.status == 0) ≡ false → Skips t (upload_blocks query bs t)
  unfolding upload_blocks Skips
  upload_blocks-Skips [] t e = (refl, e)
  upload_blocks-Skips (b ∷ bs) t e =
      Skips-step t _ (upload_blocks query bs) (upload_block_skips b t e)
        (upload_blocks-Skips bs (record t { status = 3 }) refl)

  checked-Ends :
      (answer : Option (List Row)) (t : Tool Db) → t.status ≡ 0 → Ends (check_result (answer, t))
  unfolding check_result Ends
  checked-Ends none t e = inr refl
  checked-Ends (some rows) t e = inl e

  asked-Ends :
      (s : Bytes) (t : Tool Db) → (t.status == 0) ≡ true → Ends (check_result (ask query s t))
  unfolding ask
  asked-Ends s t e =
      rw e (checked-Ends (query s t.db).0 (record t { db = (query s t.db).1 }) (ground arith))

  -- A query leaves 0 or -3.
  show-Ends : (table : Bytes) (t : Tool Db) → Ends (show query table t)
  unfolding show db_query Ends
  show-Ends table t = elim (Bool-cases (t.status == 0)) [
    | inl e ↦ asked-Ends (codes "SELECT " ++ (codes "*" ++ (codes " from " ++ table))) t e
    | inr e ↦ rw (show_skips table t e) (inr refl)
  ]

  complete-Ends : (r : Bool × Tool Db) → Ends r.1 → Ends (complete query r)
  unfolding complete
  complete-Ends (true, t) e = show-Ends (codes "files") _
  complete-Ends (false, t) e = e

  check_upload_status_lem :
      (file : Bytes) (t : Tool Db) → (check_upload query file t).1.status ≡ t.status
  unfolding check_upload has_none ask
  check_upload_status_lem file t = elim (Bool-cases (t.status == 0)) [
    | inl e ↦ rw e refl
    | inr e ↦ rw e refl
  ]

  upload_blocks-Ends : (bs : List Bytes) (t : Tool Db) → Ends t → Ends (upload_blocks query bs t)
  unfolding upload_blocks Ends
  upload_blocks-Ends [] t e = e
  upload_blocks-Ends (b ∷ bs) t e =
      let shown : Tool Db =
        show query file_name (set_status 6 (db_update_upload query file_name (quoted b) 1 t)) in
      upload_blocks-Ends bs (complete query (check_upload query file_name shown)) (
        complete-Ends (check_upload query file_name shown)
          (rw (check_upload_status_lem file_name shown) (show-Ends file_name _)))

  add_blocks-Ends :
      (i : ℕ) (bs : List Bytes) (t : Tool Db) → Ends t → Ends (add_blocks query i bs t)
  unfolding add_blocks
  add_blocks-Ends i [] t e = e
  add_blocks-Ends i (b ∷ bs) t e = add_blocks-Ends (suc i) bs _ (show-Ends file_name _)

  try_out-Ends : (t : Tool Db) → Ends (try_out query t)
  unfolding try_out add_file
  try_out-Ends t = upload_blocks-Ends block_list _ (add_blocks-Ends 0 block_list _ (show-Ends _ _))

  try_out-Skips : (t : Tool Db) → (t.status == 0) ≡ false → Skips t (try_out query t)
  unfolding try_out Skips
  try_out-Skips t e =
      Skips-step t _ (λ u. upload_blocks query block_list (add_blocks query 0 block_list u))
        (add_file_skips t e)
        (Skips-trans (record t { status = 3 })
          (add_blocks query 0 block_list (record t { status = 3 })) _
          (add_blocks-Skips 0 block_list (record t { status = 3 }) refl)
          (upload_blocks-Skips block_list _
            (add_blocks-Skips 0 block_list (record t { status = 3 }) refl).1))

-- Whatever the server does, `main` returns 0 or -3: the codes for a failed start, connection,
-- table, row or update never reach the exit.
pub main-Ends :
    {Db : Type 0} (mysql_init : Db → Bool × Db) (mysql_real_connect : Bytes → Db → Bool × Db)
    (query : Bytes → Db → Option (List Row) × Db) (t : Tool Db)
    → Ends (main mysql_init mysql_real_connect query t)
unfolding main
main-Ends mysql_init mysql_real_connect query t = try_out-Ends query _

Ends-failed : {Db : Type 0} (t : Tool Db) → Ends t → (t.status == 0) ≡ false → t.status ≡ 3
unfolding Ends
Ends-failed t (inl zero_status) e = absurd (ground (arith, zero_status, e))
Ends-failed t (inr three) e = three

-- Where `main` cannot connect it sends no statement, so that the server is as the attempt to connect
-- has left it, and it returns -3, the code of a failed query.
pub main_refused :
    {Db : Type 0} (mysql_init : Db → Bool × Db) (mysql_real_connect : Bytes → Db → Bool × Db)
    (query : Bytes → Db → Option (List Row) × Db) (t : Tool Db)
    → (mysql_real_connect (codes "FILE") (mysql_init t.db).1).0 ≡ false
    → ((main mysql_init mysql_real_connect query t).status ≡ 3)
      × ((main mysql_init mysql_real_connect query t).db
          ≡ (mysql_real_connect (codes "FILE") (mysql_init t.db).1).1)
unfolding main initilize conn_db set_status Skips
main_refused {Db = Db} mysql_init mysql_real_connect query t refused =
    let left : Tool Db = record {
      db = (mysql_real_connect (codes "FILE") (mysql_init t.db).1).1;
      status = 2;
    } in
    let rest = try_out-Skips query left refl in
    rw refused (Ends-failed (try_out query left) (try_out-Ends query left) rest.1, rest.0)
