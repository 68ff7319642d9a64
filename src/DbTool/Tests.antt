-- ===== src/DbTool/Tests.antt =====
-- Runs of db/db_operation.cpp against servers that record the statements.
use mini_distributed_storage.Base.{
  Bool, true, false, Option, some, List, [], ◌∷◌, Bytes, codes, ◌≡◌, refl,
}
use mini_distributed_storage.Database.{Row}
use mini_distributed_storage.DbTool.{Tool, main}
use mini_distributed_storage.DbTool.Status.{Ends, main-Ends, main_refused}

abbrev started : List Bytes → Bool × List Bytes
started log = (true, log)

abbrev connected : Bytes → List Bytes → Bool × List Bytes
connected name log = (true, log)

abbrev refused : Bytes → List Bytes → Bool × List Bytes
refused name log = (false, name ∷ log)

-- Every statement succeeds, without rows.
abbrev willing : Bytes → List Bytes → Option (List Row) × List Bytes
willing statement log = (some [], statement ∷ log)

abbrev fresh : Tool (List Bytes)
fresh = record { db = []; status = 0 }

main-Ends_example : Ends (main started connected willing fresh)
main-Ends_example = main-Ends started connected willing fresh

main_refused_example :
    ((main started refused willing fresh).status ≡ 3)
    × ((main started refused willing fresh).db ≡ codes "FILE" ∷ [])
main_refused_example = main_refused started refused willing fresh refl
