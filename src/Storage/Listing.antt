-- ===== src/Storage/Listing.antt =====
-- What a storage server sends for a download: `readFileList` of storageServer/saveFile_0/src/downLoad.h.
use mini_distributed_storage.Base.{
  ◌^◌, ◌<◌, ◌≡◌, refl, sym, ap, Bool, true, false, some, List, [], ◌∷◌, ◌++◌, append_assoc,
  append-nil, Bytes, codes, length, length-take, take, bytes_eq, ◌==◌, if◌then◌else◌, arith, All,
}
use mini_distributed_storage.Buffer
use mini_distributed_storage.Buffer.{Buffer}
use mini_distributed_storage.Buffer.Valid.{new-IsValid}
use mini_distributed_storage.Buffer.Contents.{
  Holds-append, new-Holds, reader-append, prepend_lem, read_as_string_lem,
}
use mini_distributed_storage.Buffer.Queue.{writer-append}
use mini_distributed_storage.Wire.{htonl, length-htonl}
use mini_distributed_storage.Storage.{Entry, file_message, read_file_list}

-- The size of the file, its name, and at most its first 2^20 bytes.
abbrev pub listed_message : Entry → Bytes
listed_message e = htonl (length e.bytes) ++ (e.name ++ take (2 ^ 20) e.bytes)

writer-prepend :
    (b c : Buffer) (bytes : Bytes)
    → Buffer.prepend b bytes ≡ some c
    → c.writer_index ≡ b.writer_index
unfolding Buffer.prepend
writer-prepend b c bytes e = ground arith

pub file_message_lem : (e : Entry) → length e.name < 256 → file_message e ≡ some (listed_message e)
unfolding file_message
file_message_lem e short =
    let size = htonl (length e.bytes) in
    let four = length-htonl (length e.bytes) in
    let b1 = Holds-append e.name new-Holds (omega arith) in
    let w1 = writer-append Buffer.new e.name new-IsValid (omega arith) in
    let r1 = reader-append Buffer.new e.name refl in
    let (c, put, b2) = prepend_lem b1 size (omega (arith, r1, four)) in
    let w2 = writer-prepend (Buffer.append Buffer.new e.name) c size put in
    let b3 =
      Holds-append (take (2 ^ 20) e.bytes) b2
        (omega (arith, w1, w2, length-take (2 ^ 20) e.bytes)) in
    rw (put, read_as_string_lem b3) (ap some (append_assoc size e.name (take (2 ^ 20) e.bytes)))

-- A regular file that is neither "." nor "..".
unfoldable pub is_sent : Entry → Bool
is_sent e =
    if bytes_eq e.name (codes ".")
    then false
    else if bytes_eq e.name (codes "..")
    then false
    else e.d_type == 8

-- The messages of a directory, in the order of its entries.
unfoldable pub messages : List Entry → List Bytes
messages [] = []
messages (e ∷ es) = if is_sent e then listed_message e ∷ messages es else messages es

-- No name is longer than Linux allows.
abbrev pub ShortNames : List Entry → Type 0
ShortNames = All (λ e. length e.name < 256)

three_tests :
    (a b c : Bool) (sent : List Bytes) (m : Bytes) (ms : List Bytes)
    → (if a
        then some (sent ++ ms)
        else if b
        then some (sent ++ ms)
        else if c
        then some (sent ++ m ∷ ms)
        else some (sent ++ ms))
      ≡ some (sent ++ (if (if a then false else if b then false else c) then m ∷ ms else ms))
three_tests true b c sent m ms = refl
three_tests false true c sent m ms = refl
three_tests false false true sent m ms = refl
three_tests false false false sent m ms = refl

-- In a directory whose names have fewer than 256 characters, `readFileList` sends exactly one message
-- for each regular file other than "." and "..", in order and behind what was sent before: the size
-- of the file, its name, and its first 2^20 bytes.
pub read_file_list-messages :
    (es : List Entry) (sent : List Bytes)
    → ShortNames es
    → read_file_list es sent ≡ some (sent ++ messages es)
unfolding read_file_list messages is_sent
read_file_list-messages [] sent h = ap some (sym (append-nil sent))
read_file_list-messages (e ∷ es) sent h =
    let skip = read_file_list-messages es sent h.1 in
    let rest = read_file_list-messages es (sent ++ listed_message e ∷ []) h.1 in
    let one = file_message_lem e h.0 in
    rw (one, skip, rest, append_assoc sent (listed_message e ∷ []) (messages es))
      (three_tests (bytes_eq e.name (codes ".")) (bytes_eq e.name (codes "..")) (e.d_type == 8) sent
        (listed_message e) (messages es))
