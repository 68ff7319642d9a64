-- ===== src/Receiver/Written.antt =====
-- What a download writes into the file: all that arrives, the numbers in front of the blocks as well.
use mini_distributed_storage.Base.{
  ◌+◌, ◌<◌, ◌≡◌, refl, ◌∙◌, Option, none, some, List, [], ◌∷◌, ◌++◌, append-nil, append_assoc,
  Bytes, length, length-append, take, take_all, arith,
}
use mini_distributed_storage.Buffer
use mini_distributed_storage.Buffer.{
  Buffer, readable_bytes, writable_bytes, read_as_string, retrieve_all,
}
use mini_distributed_storage.Buffer.Valid.{max_len}
use mini_distributed_storage.Buffer.Contents.{
  Holds, retrieve_all-Holds, read_fd-Holds, read_as_string_lem, readable-length,
}
use mini_distributed_storage.Buffer.Growth.{length-read_fd}
use mini_distributed_storage.Receiver.{Receiver, on_input, on_inputs}

-- What the calls of `readv` that do not fail have delivered.
unfoldable pub arrived : List (Option Bytes) → Bytes
arrived [] = []
arrived (none ∷ xs) = arrived xs
arrived (some bytes ∷ xs) = bytes ++ arrived xs

on_input_lem :
    (bytes : Bytes) (w : Receiver)
    → Holds w.buf []
    → length w.buf.buffer + length bytes < max_len
    → on_input (some bytes) w
      ≡ some (record w {
        buf = retrieve_all (Buffer.read_fd w.buf (some bytes));
        written = w.written ++ bytes;
      })
unfolding on_input
on_input_lem bytes w k h =
    let held : Holds (Buffer.read_fd w.buf (some bytes)) bytes =
      rw k.holds at (read_fd-Holds w.buf bytes k.valid h) in
    let all : take (readable_bytes (Buffer.read_fd w.buf (some bytes))) bytes ≡ bytes =
      take_all _ bytes (omega (arith, readable-length held)) in
    rw (read_as_string_lem held, all) refl

abbrev nil_bytes : Bytes
nil_bytes = []

on_input-none :
    (w : Receiver) → Holds w.buf [] → on_input none w ≡ some (record w { buf = retrieve_all w.buf })
unfolding on_input Buffer.read_fd
on_input-none w k =
    let nothing = take_all (readable_bytes w.buf) (nil_bytes) (omega arith) in
    rw (read_as_string_lem k, nothing, append-nil w.written) refl

on_inputs-next :
    (x : Option Bytes) (xs : List (Option Bytes)) (w w' : Receiver)
    → on_input x w ≡ some w'
    → on_inputs (x ∷ xs) w ≡ on_inputs xs w'
unfolding on_inputs
on_inputs-next x xs w w' e = rw e refl

-- Whatever the calls of `readv` deliver, in all fewer than 2^63 bytes with the size of the vector, a
-- download with an empty buffer appends just these bytes to the file, in order, and leaves the buffer
-- empty: with blocks, the four bytes of the length in front of each one are in the file too.
pub on_inputs-written :
    (xs : List (Option Bytes)) (w : Receiver)
    → Holds w.buf []
    → length w.buf.buffer + length (arrived xs) < max_len
    → (w' : Receiver) × (on_inputs xs w ≡ some w')
      × (w'.written ≡ w.written ++ arrived xs)
      × Holds w'.buf []
unfolding arrived retrieve_all
on_inputs-written [] w k h = (w, unfold on_inputs in refl, rw (append-nil w.written) refl, k)
on_inputs-written (none ∷ xs) w k h =
    let next : Receiver = record w { buf = retrieve_all w.buf } in
    let (w', run, all, empty) = on_inputs-written xs next (retrieve_all-Holds k) h in
    (w', on_inputs-next none xs w next (on_input-none w k) ∙ run, all, empty)
on_inputs-written (some bytes ∷ xs) w k h =
    let size = length-append bytes (arrived xs) in
    let room : length w.buf.buffer + length bytes < max_len = omega (arith, size, h) in
    let filled = Buffer.read_fd w.buf (some bytes) in
    let next : Receiver = record w { buf = retrieve_all filled; written = w.written ++ bytes } in
    let grown = length-read_fd w.buf bytes k.valid room in
    let held = read_fd-Holds w.buf bytes k.valid room in
    let (w', run, all, empty) =
      on_inputs-written xs next (retrieve_all-Holds held) (omega (arith, size, h, grown)) in
    (
      w',
      on_inputs-next (some bytes) xs w next (on_input_lem bytes w k room) ∙ run,
      rw (append_assoc w.written bytes (arrived xs)) at all,
      empty,
    )
