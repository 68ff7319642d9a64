-- ===== src/Database/Ids.antt =====
-- The text of ids that `get_block_id_string` makes, and what a client reads in it.
use mini_distributed_storage.Base.{
  ℕ, ◌-◌, ◌<◌, ◌≡◌, refl, ◌∙◌, Bool, true, Option, some, List, [], ◌∷◌, ◌++◌, append_assoc, Bytes,
  codes, length, length-append, length-set, take-append_self, set, set_at_below, All, arith, ◌==◌,
  false, ◌≤◌, ◌^◌, ltb,
}
use mini_distributed_storage.Decimal.{to_string, atoi}
use mini_distributed_storage.Decimal.RoundTrip.{IsDigits, to_string-IsDigits, atoi-to_string}
use mini_distributed_storage.Client.{set_id, mark_ids, update_ids}
use mini_distributed_storage.Client.Ids.{mark_ids-digits, update_ids-mark_ids}
use mini_distributed_storage.Database.{
  Row, DbHelper, select_ids, join_cells, pop_back, joined_ids, answered, ask, get_block_id_string,
}

-- The rows of a query for ids.
unfoldable pub id_rows : List ℕ → List Row
id_rows [] = []
id_rows (i ∷ is) = (to_string i ∷ []) ∷ id_rows is

-- The ids, each with a ':' behind it.
unfoldable pub id_text : List ℕ → Bytes
id_text [] = []
id_text (i ∷ is) = to_string i ++ (codes ":" ++ id_text is)

-- The flags after each id of the list is set.
unfoldable pub marked : List ℕ → List Bool → List Bool
marked [] flags = flags
marked (i ∷ is) flags = marked is (set flags i true)

join_cells-id_rows : (is : List ℕ) → join_cells (codes ":") (id_rows is) ≡ some (id_text is)
unfolding join_cells id_rows id_text
join_cells-id_rows [] = refl
join_cells-id_rows (i ∷ is) = rw (join_cells-id_rows is)

id_text-append :
    (is : List ℕ) (j : ℕ) → id_text (is ++ j ∷ []) ≡ (id_text is ++ to_string j) ++ codes ":"
unfolding id_text
id_text-append [] j = refl
id_text-append (i ∷ is) j = rw (
  id_text-append is j,
  append_assoc (to_string i) (codes ":" ++ id_text is) (to_string j),
  append_assoc (to_string i) (codes ":" ++ (id_text is ++ to_string j)) (codes ":"),
)

-- The last character is gone.
pop_back-append : (s : Bytes) (c : ℕ) → pop_back (s ++ c ∷ []) ≡ s
unfolding pop_back
pop_back-append s c =
    let e : length (s ++ c ∷ []) - 1 ≡ length s = omega (arith, length-append s (c ∷ [])) in
    rw e (take-append_self s (c ∷ []))

-- Digits with no ':' behind them mark nothing.
mark_ids_unfinished :
    (ds tmp : Bytes) (flags : List Bool) → IsDigits ds → mark_ids tmp ds flags ≡ some flags
unfolding mark_ids
mark_ids_unfinished [] tmp flags h = refl
mark_ids_unfinished (c ∷ ds) tmp flags h =
    let other : (c == b':') ≡ false = ground (arith, h.0) in
    rw (other, mark_ids) (mark_ids_unfinished ds (tmp ++ c ∷ []) flags h.1)

mark_ids-id_text :
    (is : List ℕ) (j : ℕ) (flags : List Bool)
    → All (λ i. i < length flags) is
    → length flags ≤ 2 ^ 31
    → mark_ids [] (id_text is ++ to_string j) flags ≡ some (marked is flags)
unfolding id_text marked
mark_ids-id_text [] j flags h m = mark_ids_unfinished (to_string j) [] flags (to_string-IsDigits j)
mark_ids-id_text (i ∷ is) j flags h m =
    let small : ltb i (2 ^ 31) ≡ true = ground (arith, h.0, m) in
    let mark : set_id flags (atoi (to_string i)) ≡ some (set flags i true) =
      rw (atoi-to_string i, small) (set_at_below flags i true h.0) in
    rw (append_assoc (to_string i) (codes ":" ++ id_text is) (to_string j)) (
      mark_ids-digits (to_string i) [] (id_text is ++ to_string j) flags (set flags i true)
        (to_string-IsDigits i) mark
      ∙ mark_ids-id_text is j (set flags i true) (rw (length-set flags i true) h.1)
          (omega (arith, length-set flags i true, m)))

-- What the server answers, and its next state.
pub ask_lem :
    {Db : Type 0} (query : Bytes → Db → Option (List Row) × Db) (statement : Bytes)
    (h : DbHelper Db) (answer : Option (List Row)) (db' : Db)
    → query statement h.db ≡ (answer, db')
    → ask query statement h ≡ (answer, record h { db = db' })
unfolding ask
ask_lem query statement h answer db' e = rw e

-- The server answers the query for the uploaded ids with the ids `is` and then `j`. A client that
-- reads the text of `get_block_id_string`, of fewer than 2^31 characters, with `updateuploadId`, with at
-- most 2^31 flags, one for each of the ids `is`, sets the flags of just these: the last id, with no
-- ':' behind it, is lost.
pub get_block_id_string-update_ids :
    {Db : Type 0} (query : Bytes → Db → Option (List Row) × Db) (name : Bytes) (h : DbHelper Db)
    (db' : Db) (is : List ℕ) (j : ℕ) (flags : List Bool)
    → query (select_ids name) h.db ≡ (some (id_rows (is ++ j ∷ [])), db')
    → All (λ i. i < length flags) is
    → length flags ≤ 2 ^ 31
    → length (id_text is ++ to_string j) < 2 ^ 31
    → (text : Bytes) × (get_block_id_string query name h ≡ some (text, record h { db = db' }))
      × (update_ids text flags ≡ some (marked is flags))
unfolding get_block_id_string answered joined_ids
get_block_id_string-update_ids query name h db' is j flags e below few short = (
  id_text is ++ to_string j,
  rw (
    ask_lem query (select_ids name) h _ db' e,
    join_cells-id_rows (is ++ j ∷ []),
    id_text-append is j,
    pop_back-append (id_text is ++ to_string j) b':',
  ),
  update_ids-mark_ids (id_text is ++ to_string j) flags short
      ∙ mark_ids-id_text is j flags below few,
)
