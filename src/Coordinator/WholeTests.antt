-- ===== src/Coordinator/WholeTests.antt =====
-- A whole upload of a file of one block, with digests and block in two pieces each, and in one.
use mini_distributed_storage.Base.{◌≡◌, refl, ap, true, false, [], ◌∷◌, ◌++◌, codes, length, arith}
use mini_distributed_storage.Base.Loop.{done}
use mini_distributed_storage.Buffer
use mini_distributed_storage.Buffer.{Buffer}
use mini_distributed_storage.Fileproxy.{find, ls_file}
use mini_distributed_storage.Client.{send_fileinfo}
use mini_distributed_storage.Client.Messages.{stream}
use mini_distributed_storage.Client.Numbered.{length-md5s}
use mini_distributed_storage.Upload.{base_name}
use mini_distributed_storage.Upload.Marks.{Completed, forwards}
use mini_distributed_storage.Coordinator.{Coordinator, gg, on_connection, on_messages}
use mini_distributed_storage.Coordinator.Whole.{opened, upload-Completed}
use mini_distributed_storage.Coordinator.Stalled.{Stalled, upload-Stalled}
use mini_distributed_storage.Fixtures.{length_digest, block, server}
use mini_distributed_storage.Fixtures.Small.{
  small, small-file, path, md5_bytes, block_bytes, length-block_bytes, cut_at, joined-cut_at,
}

abbrev idle : Coordinator
idle = record { operate = gg; server = record server { g_file = [] }; downloads = 0 }

unknown : ls_file idle.server.g_file (base_name path) ≡ false
unfolding ls_file find
unknown = refl

upload-Completed_example :
    (c' : Coordinator) × (b : Buffer) × (on_messages length_digest
        (on_connection true idle, Buffer.new)
        (codes "upppload"
          ∷ stream (send_fileinfo length_digest small path)
          ∷ (cut_at 10 md5_bytes ++ cut_at 3 block_bytes))
      ≡ done (c', b))
    × Completed
        (base_name path)
        ((opened length_digest idle small path).sent
          ++ forwards length_digest block small.block_file_list small.upload_id)
        (c'.server, b)
upload-Completed_example =
    upload-Completed length_digest idle block path small (cut_at 10 md5_bytes)
      (cut_at 3 block_bytes) (λ e. omega (arith, e)) (omega arith) small-file (omega arith) unknown
      (joined-cut_at 10 md5_bytes) (joined-cut_at 3 block_bytes)
      (omega (
        arith,
        ap length (joined-cut_at 10 md5_bytes),
        ap length (joined-cut_at 3 block_bytes),
        length-md5s length_digest block small.block_file_list,
        length-block_bytes,
      ))

upload-Stalled_example : Stalled length_digest idle small path
upload-Stalled_example =
    upload-Stalled length_digest idle block path small (λ e. omega (arith, e)) (omega arith)
      small-file (omega arith) unknown
      (omega (arith, length-md5s length_digest block small.block_file_list, length-block_bytes))
