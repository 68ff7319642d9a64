-- ===== src/Download/Race/Crowded.antt =====
-- Three threads of a download that use `Bloc` at the same time.
use mini_distributed_storage.Base.{
  ◌+◌, ◌^◌, ◌<◌, ◌≡◌, refl, false, none, some, List, [], ◌∷◌, Bytes, length, leb, sub_size, arith,
}
use mini_distributed_storage.Buffer
use mini_distributed_storage.Buffer.{Buffer, read_as_string, retrieve_all, cheap_prepend}
use mini_distributed_storage.Buffer.Contents.{Holds, Holds-append, reader-append, prepend_lem}
use mini_distributed_storage.Buffer.Queue.{writer-append}
use mini_distributed_storage.Wire.{htonl, length-htonl}
use mini_distributed_storage.Download.Blocks.{Empty}
use mini_distributed_storage.Download.Race.{
  Shared, BlocCall, puts, sizes, gives, make_call, make_calls, calls_of, Merge, empty, left, right,
}

reader-prepend :
    (b c : Buffer) (bytes : Bytes)
    → Buffer.prepend b bytes ≡ some c
    → c.reader_index ≡ sub_size b.reader_index (length bytes)
unfolding Buffer.prepend
reader-prepend b c bytes e = ground arith

-- In front of a buffer whose reader index is 0 there is no room.
prepend-none :
    (b : Buffer) (xs bytes : Bytes)
    → Holds b xs
    → b.reader_index ≡ 0
    → length bytes ≡ 4
    → Buffer.prepend b bytes ≡ none
unfolding Buffer.prepend
prepend-none b xs bytes k e four =
    let over : leb (sub_size b.reader_index (length bytes) + length bytes) (length b.buffer)
        ≡ false =
      ground (arith, k.valid) in
    rw over refl

-- One of the orders in which three threads may run.
abbrev pub crowded : Bytes → Bytes → Bytes → List BlocCall
crowded x y z = puts x ∷ puts y ∷ puts z ∷ sizes x ∷ sizes y ∷ sizes z ∷ gives ∷ gives ∷ gives ∷ []

abbrev pub crowded_two : Bytes → Bytes → List BlocCall
crowded_two x y = puts x ∷ puts y ∷ sizes x ∷ sizes y ∷ gives ∷ gives ∷ []

crowded_two-Merge : (x y : Bytes) → Merge (calls_of x) (calls_of y) (crowded_two x y)
crowded_two-Merge x y =
    left (puts x)
      (right (puts y) (left (sizes x) (right (sizes y) (left gives (right gives empty)))))

crowded-Merge : (x y z : Bytes) → Merge (crowded_two x y) (calls_of z) (crowded x y z)
crowded-Merge x y z = left (puts x) (
    left (puts y) (
      right (puts z) (
        left (sizes x)
          (left (sizes y) (right (sizes z) (left gives (left gives (right gives empty))))))))

-- Three threads pass on blocks of fewer than 2^62 bytes together, and `Bloc` is empty. There is an
-- order of their calls in which a size is written outside the vector of `Bloc`, in front of it.
pub threads-fault :
    (x y z : Bytes) (s : Shared)
    → Empty s.bloc
    → length x + length y + length z < 2 ^ 62
    → (ws zs : List BlocCall) × Merge (calls_of x) (calls_of y) ws
      × Merge ws (calls_of z) zs
      × (make_calls zs s ≡ none)
unfolding make_calls make_call
threads-fault x y z s m h =
    let b1 = Buffer.append s.bloc x in
    let b2 = Buffer.append b1 y in
    let b3 = Buffer.append b2 z in
    let h1 = Holds-append x m.nothing (omega (arith, m.back)) in
    let w1 = writer-append s.bloc x m.nothing.valid (omega (arith, m.back)) in
    let h2 = Holds-append y h1 (omega (arith, w1, m.back)) in
    let w2 = writer-append b1 y h1.valid (omega (arith, w1, m.back)) in
    let h3 = Holds-append z h2 (omega (arith, w1, w2, m.back)) in
    let front = reader-append b2 z (reader-append b1 y (reader-append s.bloc x m.front)) in
    let four = length-htonl (length x) in
    let (c, e, h4) = prepend_lem h3 (htonl (length x)) (omega (arith, front, four)) in
    let r4 = reader-prepend b3 c (htonl (length x)) e in
    let half : c.reader_index ≡ 4 = omega (arith, r4, front, four) in
    let four' = length-htonl (length y) in
    let (c', e', h5) = prepend_lem h4 (htonl (length y)) (omega (arith, half, four')) in
    let r5 = reader-prepend c c' (htonl (length y)) e' in
    let no_room =
      prepend-none c' _ (htonl (length z)) h5 (omega (arith, r5, half, four'))
        (length-htonl (length z)) in
    (
      crowded_two x y,
      crowded x y z,
      crowded_two-Merge x y,
      crowded-Merge x y z,
      rw (e, e', no_room) refl,
    )
