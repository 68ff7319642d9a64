-- ===== src/Download/Tests.antt =====
-- The witness of Download.
use mini_distributed_storage.Base.{
  ◌≡◌, ◌≢◌, refl, none, some, List, [], ◌∷◌, ◌++◌, Bytes, codes, arith,
}
use mini_distributed_storage.Buffer
use mini_distributed_storage.Buffer.{Buffer}
use mini_distributed_storage.Buffer.Contents.{new-Holds}
use mini_distributed_storage.Wire.{htonl}
use mini_distributed_storage.Upload.{reply}
use mini_distributed_storage.Download.Race.{
  Shared, BlocCall, make_calls, calls_of, frame, Merge, threads-Merge,
}
use mini_distributed_storage.Download.Race.Crowded.{threads-fault}
use mini_distributed_storage.Download.Blocks.{Empty}
use mini_distributed_storage.Fixtures.{block}

-- `Bloc` before the first block.
abbrev shared : Shared
shared = record { bloc = Buffer.new; sent = [] }

shared-Empty : Empty shared.bloc
shared-Empty = record { nothing = new-Holds; front = refl; back = refl }

abbrev one : Bytes
one = codes "one"

abbrev two : Bytes
two = codes "two"

threads-Merge_example :
    (zs : List BlocCall) × Merge (calls_of one) (calls_of two) zs
    × (s' : Shared) × (make_calls zs shared ≡ some s')
    × (s'.sent ≡ reply (htonl 3 ++ (one ++ two)) ∷ reply (htonl 3) ∷ [])
    × (s'.sent ≢ frame one ∷ frame two ∷ [])
    × (s'.sent ≢ frame two ∷ frame one ∷ [])
threads-Merge_example =
    threads-Merge one two shared shared-Empty (omega arith) (omega arith) (omega arith)

threads-fault_example :
    (ws zs : List BlocCall) × Merge (calls_of one) (calls_of two) ws
    × Merge ws (calls_of block) zs
    × (make_calls zs shared ≡ none)
threads-fault_example = threads-fault one two block shared shared-Empty (omega arith)
