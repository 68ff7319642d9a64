-- ===== src/Upload/Tests.antt =====
-- The witnesses of Upload.
use mini_distributed_storage.Base.{refl, codes, length, arith, ◌<◌, ◌^◌}
use mini_distributed_storage.Base.Loop.{Ends}
use mini_distributed_storage.Base.Slices.{length-write_at}
use mini_distributed_storage.Buffer
use mini_distributed_storage.Buffer.{Buffer}
use mini_distributed_storage.Upload.{send_block, init_file_number}
use mini_distributed_storage.Upload.Safety.{Received}
use mini_distributed_storage.Upload.Received.{send_block-Received}
use mini_distributed_storage.Upload.Ending.{HasBuffer, init_file_number-Ends}
use mini_distributed_storage.Fixtures.{
  length_digest, notes, notes-IsValid, server, server-found, received, message, message-Holds,
  length-message,
}

short : length (received message).buffer < 2 ^ 62
unfolding Buffer.append Buffer.ensure_writable_bytes Buffer.make_space
short = ground (arith, length-message, length-write_at Buffer.new.buffer 8 message)

send_block-Received_example :
    Ends
      (λ st. HasBuffer st × Received length_digest (codes "notes") notes st.0)
      (Unit {0})
      (send_block length_digest (server, received message))
send_block-Received_example =
    send_block-Received length_digest server (received message) notes message-Holds.valid short refl
      server-found notes-IsValid (omega arith)

init_file_number-Ends_example :
    Ends HasBuffer (Unit {0}) (init_file_number (server, received message))
init_file_number-Ends_example = init_file_number-Ends server (received message) message-Holds.valid
