-- ===== src/Storage/Tests.antt =====
-- The witnesses of Storage.
use mini_distributed_storage.Base.{◌≡◌, ◌++◌, codes, arith}
use mini_distributed_storage.Base.Loop.{done}
use mini_distributed_storage.Storage.{on_message_flat}
use mini_distributed_storage.Storage.Save.{on_message_flat-stuck}
use mini_distributed_storage.Fixtures.{length_digest, storage, received, received-Holds}

on_message_flat-stuck_example :
    on_message_flat length_digest (storage, received (codes "upppload" ++ codes "name"))
    ≡ done (storage, received (codes "upppload" ++ codes "name"))
on_message_flat-stuck_example =
    on_message_flat-stuck length_digest storage (received (codes "upppload" ++ codes "name"))
      (codes "name") (omega arith) (received-Holds (codes "upppload" ++ codes "name") (omega arith))
