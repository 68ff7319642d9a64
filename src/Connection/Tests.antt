-- ===== src/Connection/Tests.antt =====
-- The witnesses of Connection.
use mini_distributed_storage.Base.{◌≡◌, refl, true, false, some, none, List, [], ◌∷◌, codes, arith}
use mini_distributed_storage.Buffer
use mini_distributed_storage.Buffer.Contents.{new-Holds}
use mini_distributed_storage.Connection.{
  Connection, connected, Event, sends, sends_from, functor, writable, send,
}
use mini_distributed_storage.Connection.Output.{all_sent, Ended, run-Steady, send-none}

abbrev fresh : Connection
fresh = record {
  state = connected;
  reading = true;
  writing = false;
  output_buffer = Buffer.new;
  wire = [];
  queued = [];
  write_shut = false;
}

-- Another thread's message is overtaken by one of the loop's thread, of which the kernel takes three
-- bytes, and then four.
abbrev events : List Event
events =
    sends_from (codes "world")
    ∷ sends (codes "hello") (some 3)
    ∷ functor (some 9)
    ∷ writable (some 4)
    ∷ []

run-Steady_example : Ended fresh events (codes "helloworld")
unfolding all_sent
run-Steady_example =
    run-Steady fresh [] events (record { is_up = refl; output = new-Holds; waits = refl })
      (tt, (tt, (tt, (tt, tt)))) (omega arith)

send-none_example : send fresh true (codes "hello") none ≡ fresh
send-none_example = send-none fresh (codes "hello") refl refl (omega arith)
