-- ===== src/Coordinator/Tests.antt =====
-- The witness of Coordinator.
use mini_distributed_storage.Base.{◌≡◌, refl, true, false, [], ◌∷◌, Bytes, codes, arith}
use mini_distributed_storage.Base.Loop.{done}
use mini_distributed_storage.Buffer
use mini_distributed_storage.Buffer.{Buffer}
use mini_distributed_storage.Buffer.Contents.{Holds}
use mini_distributed_storage.Fileproxy.{find, ls_file}
use mini_distributed_storage.Upload.{base_name, emit, to_all, upstatu1}
use mini_distributed_storage.Upload.Header.{header, added}
use mini_distributed_storage.Coordinator.{Coordinator, gg, up, on_connection, on_messages}
use mini_distributed_storage.Coordinator.Begin.{upload_begins}
use mini_distributed_storage.Fixtures.{length_digest, server}

abbrev idle : Coordinator
idle = record { operate = gg; server = record server { g_file = [] }; downloads = 0 }

abbrev path : Bytes
path = codes "/home/photo"

abbrev digest : Bytes
digest = codes "0123456789ABCDEF0123456789ABCDEF"

unknown : ls_file idle.server.g_file (base_name path) ≡ false
unfolding ls_file find
unknown = refl

upload_begins_example :
    (b : Buffer) × (on_messages length_digest
        (on_connection true idle, Buffer.new)
        (codes "upppload" ∷ header 3 path digest ∷ [])
      ≡ done (
        record idle {
          operate = up;
          server =
              added
                (emit (record idle.server { up_statu = upstatu1 }) (to_all (codes "upppload")))
                3
                path
                digest;
        },
        b,
      ))
    × Holds b []
upload_begins_example =
    upload_begins length_digest idle 3 path digest refl (omega arith) (omega arith) unknown
