-- ===== src/Database/Blocks.antt =====
-- `set_block_md5`: the rows that the digests of a file make.
use mini_distributed_storage.Base.{
  ℕ, zero, suc, ◌+◌, ◌-◌, ◌*◌, ◌/◌, ◌^◌, ◌<◌, ◌≡◌, ◌∙◌, Option, some, List, Bytes, length, ltb,
  true, false, arith,
}
use mini_distributed_storage.Base.Loop.{done, next, loop, loop-next, loop_done}
use mini_distributed_storage.FileValue.Blocks.{nth_md5}
use mini_distributed_storage.Database.{
  Row, DbHelper, db_add_block_row, has_block, block_row_round, set_block_md5,
}

-- The number of parts of 32 characters, the last one perhaps shorter.
abbrev pub part_count : Bytes → ℕ
part_count s = (length s + 31) / 32

module _ {Db : Type 0} (query : Bytes → Db → Option (List Row) × Db) (name s : Bytes) where
  -- `k` rows, from the id `i` on.
  unfoldable pub add_rows : ℕ → ℕ → DbHelper Db → DbHelper Db
  add_rows zero i h = h
  add_rows (suc k) i h = add_rows k (suc i) (db_add_block_row query name i (nth_md5 s i) h)

  -- A round before an `int` can overflow.
  block_row_round-next :
      (i : ℕ) (h : DbHelper Db)
      → suc i * 32 < 2 ^ 31
      → block_row_round query name s (i, h)
        ≡ some (next (suc i, db_add_block_row query name i (nth_md5 s i) h))
  unfolding block_row_round
  block_row_round-next i h small =
      let same : i + 1 ≡ suc i = omega arith in
      let inside : ltb (suc i * 32) (2 ^ 31) ≡ true = ground arith in rw (same, inside)

  rounds_lem :
      (k fuel i : ℕ) (h : DbHelper Db)
      → i + k ≡ part_count s
      → k < fuel
      → length s < 2 ^ 31 - 32
      → loop (has_block query s) (block_row_round query name s) fuel (i, h)
        ≡ done (part_count s, add_rows k i h)
  unfolding add_rows
  rounds_lem zero fuel i h e f small =
      let same : i ≡ part_count s = omega (arith, e) in
      let over : ltb (i * 32) (length s) ≡ false = ground arith in
      rw (← same) (loop_done (has_block query s) (block_row_round query name s) fuel (i, h) f over)
  rounds_lem (suc k) zero i h e f small = absurd (omega arith)
  rounds_lem (suc k) (suc fuel) i h e f small =
      let more : ltb (i * 32) (length s) ≡ true = ground arith in
      loop-next (has_block query s) (block_row_round query name s) fuel (i, h) more
        (block_row_round-next i h (omega arith))
      ∙ rounds_lem k fuel (suc i) (db_add_block_row query name i (nth_md5 s i) h) (omega arith)
          (omega arith) small

  -- For a text of fewer than 2^31 - 32 characters, and whatever the server answers, `set_block_md5`
  -- returns after it has sent one INSERT for each part of 32 characters, in order, with the number of
  -- the part as its id; the last part may be shorter.
  pub set_block_md5_lem :
      (h : DbHelper Db)
      → length s < 2 ^ 31 - 32
      → set_block_md5 query name s h ≡ done (part_count s, add_rows (part_count s) 0 h)
  unfolding set_block_md5
  set_block_md5_lem h small =
      rounds_lem (part_count s) (suc (length s)) 0 h (omega arith) (omega arith) small
