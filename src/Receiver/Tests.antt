-- ===== src/Receiver/Tests.antt =====
-- A download in two pieces, with an interrupted call between them.
use mini_distributed_storage.Base.{
  ◌≡◌, refl, none, some, List, Option, [], ◌∷◌, ◌++◌, Bytes, codes, length, arith,
}
use mini_distributed_storage.Buffer
use mini_distributed_storage.Buffer.Contents.{Holds, new-Holds}
use mini_distributed_storage.Receiver.{Receiver, downstatu1, on_inputs}
use mini_distributed_storage.Receiver.Written.{arrived, on_inputs-written}

abbrev fresh : Receiver
fresh = record {
  block_content = [];
  down_status = downstatu1;
  id_md5 = [];
  buf = Buffer.new;
  written = [];
}

abbrev pieces : List (Option Bytes)
pieces = some (0 ∷ 0 ∷ 0 ∷ 10 ∷ codes "some") ∷ none ∷ some (codes " bytes") ∷ []

length-pieces : length (arrived pieces) ≡ 14
unfolding arrived
length-pieces = refl

on_inputs-written_example :
    (w : Receiver) × (on_inputs pieces fresh ≡ some w)
    × (w.written ≡ [] ++ arrived pieces)
    × Holds w.buf []
on_inputs-written_example = on_inputs-written pieces fresh new-Holds (omega (arith, length-pieces))
