-- ===== src/Buffer.antt =====
-- ReactorService/inc/Buffer.h and ReactorService/src/Buffer.cc (ClientSystem/Buffer.h is the same
-- class): a byte queue in one `std::vector<char>` with a reader and a writer index. The indices are
-- `size_t`s, so their sums and differences wrap. A method is a function to the new buffer; `none`
-- is a read or write outside the vector, which the code does not check for.
pub mod Valid
pub mod Contents
pub mod Growth
pub mod Queue
mod Tests
use mini_distributed_storage.Base.{
  ℕ, ◌+◌, ◌-◌, Bool, Option, none, some, ◌++◌, ◌>>=◌, Bytes, length, take, drop, replicate, ltb,
  leb, if◌then◌else◌, add_size, sub_size,
}
use mini_distributed_storage.Base.Slices.{slice, write_at}

pub record Buffer : Type 0 where
  pub buffer : Bytes
  pub reader_index : ℕ
  pub writer_index : ℕ

-- `kCheapPrepend` and `kInitialSize`.
abbrev pub cheap_prepend : ℕ
cheap_prepend = 8

abbrev pub initial_size : ℕ
initial_size = 1024

-- The constructor: a vector of zeros.
abbrev pub new : Buffer
new = record {
  buffer = replicate (cheap_prepend + initial_size) 0;
  reader_index = cheap_prepend;
  writer_index = cheap_prepend;
}

abbrev pub readable_bytes : Buffer → ℕ
readable_bytes b = sub_size b.writer_index b.reader_index

abbrev pub writable_bytes : Buffer → ℕ
writable_bytes b = sub_size (length b.buffer) b.writer_index

abbrev pub prependable_bytes : Buffer → ℕ
prependable_bytes b = b.reader_index

-- The `n` bytes behind `peek()`.
unfoldable pub peek : Buffer → ℕ → Option Bytes
peek b n =
    if leb (b.reader_index + n) (length b.buffer)
    then some (slice b.reader_index n b.buffer)
    else none

unfoldable pub retrieve : Buffer → ℕ → Buffer
retrieve b len = record b { reader_index = add_size b.reader_index len }

unfoldable pub retrieve_all : Buffer → Buffer
retrieve_all b = record b { reader_index = cheap_prepend; writer_index = cheap_prepend }

unfoldable pub read_as_string : Buffer → Option (Bytes × Buffer)
read_as_string b = do str ← peek b (readable_bytes b); some (str, retrieve_all b)

unfoldable pub read_as_block : Buffer → ℕ → Option (Bytes × Buffer)
read_as_block b size = do
  str ← peek b size
  some (str, record b { reader_index = add_size b.reader_index size })

-- `buffer_.resize(n)`: cut, or filled up with zeros.
abbrev pub resize : Bytes → ℕ → Bytes
resize xs n = take n (xs ++ replicate (n - length xs) 0)

-- The move to the front runs from low to high addresses, and its target is the lower one.
unfoldable pub make_space : Buffer → ℕ → Buffer
make_space b len =
    if ltb (add_size (writable_bytes b) (prependable_bytes b)) (add_size len cheap_prepend)
    then record b { buffer = resize b.buffer (add_size b.writer_index len) }
    else record {
      buffer = write_at b.buffer cheap_prepend (slice b.reader_index (readable_bytes b) b.buffer);
      reader_index = cheap_prepend;
      writer_index = add_size cheap_prepend (readable_bytes b);
    }

unfoldable pub ensure_writable_bytes : Buffer → ℕ → Buffer
ensure_writable_bytes b len = if ltb (writable_bytes b) len then make_space b len else b

-- `append(data, len)`, called with `len` the length of `data`.
unfoldable pub append : Buffer → Bytes → Buffer
append b bytes =
    let c = ensure_writable_bytes b (length bytes) in
    record c {
      buffer = write_at c.buffer c.writer_index bytes;
      writer_index = add_size c.writer_index (length bytes);
    }

-- `prepend(data, len)`: nothing ensures that there is room in front.
unfoldable pub prepend : Buffer → Bytes → Option Buffer
prepend b bytes =
    let r = sub_size b.reader_index (length bytes) in
    if leb (r + length bytes) (length b.buffer)
    then some (record b { buffer = write_at b.buffer r bytes; reader_index = r })
    else none

-- `readFd(fd)`: what `readv` delivers is `none` for an error, or the bytes that it has put first
-- behind the writer index and then into `extrabuf`. The result is the new buffer.
unfoldable pub read_fd : Buffer → Option Bytes → Buffer
read_fd b none = b
read_fd b (some bytes) =
    let writable = writable_bytes b in
    let filled = write_at b.buffer b.writer_index (take writable bytes) in
    if leb (length bytes) writable
    then record b { buffer = filled; writer_index = add_size b.writer_index (length bytes) }
    else append (record b { buffer = filled; writer_index = length filled }) (drop writable bytes)
