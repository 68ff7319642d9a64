-- ===== src/Wire/Frame.antt =====
-- Taking a message apart: a number, or two, and a body, at the front of a valid buffer.
use mini_distributed_storage.Base.{
  ℕ, ◌+◌, ◌^◌, ◌<◌, ◌≤◌, ◌≡◌, some, ◌++◌, Bytes, length, length-append, take-append_self,
  drop-append_self, arith,
}
use mini_distributed_storage.Buffer.{Buffer, peek, retrieve, read_as_block, readable_bytes}
use mini_distributed_storage.Buffer.Contents.{
  Holds, peek-take, retrieve-Holds, read_as_block_lem, readable-length,
}
use mini_distributed_storage.Wire.{
  htonl, peek_be32, length-htonl, take-htonl, drop-htonl, peek_be32-htonl,
}

-- The front number of a message, and what is behind it.
pub record Number (b : Buffer) (n : ℕ) (rest : Bytes) : Type 0 where
  pub raw : peek b 4 ≡ some (htonl n)
  pub value : peek_be32 b ≡ some n
  pub available : readable_bytes b ≡ 4 + length rest
  pub behind : Holds (retrieve b 4) rest

pub number_lem :
    (b : Buffer) (n : ℕ) (rest : Bytes) → n < 2 ^ 32 → Holds b (htonl n ++ rest) → Number b n rest
number_lem b n rest h k =
    let four : 4 ≤ length (htonl n ++ rest) =
      omega (arith, length-append (htonl n) rest, length-htonl n) in
    record {
      raw = ground (arith, peek-take k 4 four, take-htonl n rest);
      value = peek_be32-htonl n rest h k;
      available = omega (arith, readable-length k, length-append (htonl n) rest, length-htonl n);
      behind = ground (arith, retrieve-Holds k 4 four, drop-htonl n rest);
    }

-- A body of known length at the front.
pub record Body (b : Buffer) (body rest : Bytes) : Type 0 where
  pub taken : read_as_block b (length body) ≡ some (body, retrieve b (length body))
  pub available : readable_bytes b ≡ length body + length rest
  pub behind : Holds (retrieve b (length body)) rest

pub body_lem : (b : Buffer) (body rest : Bytes) → Holds b (body ++ rest) → Body b body rest
body_lem b body rest k =
    let fits : length body ≤ length (body ++ rest) = omega (arith, length-append body rest) in
    record {
      taken = ground (arith, read_as_block_lem k (length body) fits, take-append_self body rest);
      available = omega (arith, readable-length k, length-append body rest);
      behind = ground (arith, retrieve-Holds k (length body) fits, drop-append_self body rest);
    }

-- A message of two numbers and a body, the first number being the body's length.
pub record Parts (b : Buffer) (num : ℕ) (body rest : Bytes) : Type 0 where
  pub len : peek_be32 b ≡ some (length body)
  pub raw : peek b 4 ≡ some (htonl (length body))
  pub here : readable_bytes b ≡ 8 + length body + length rest
  pub number : peek_be32 (retrieve b 4) ≡ some num
  pub block : Body (retrieve (retrieve b 4) 4) body rest

pub parts_lem :
    (b : Buffer) (num : ℕ) (body rest : Bytes)
    → length body < 2 ^ 32
    → num < 2 ^ 32
    → Holds b (htonl (length body) ++ (htonl num ++ (body ++ rest)))
    → Parts b num body rest
parts_lem b num body rest hl hn h =
    let n1 = number_lem b (length body) (htonl num ++ (body ++ rest)) hl h in
    let n2 = number_lem (retrieve b 4) num (body ++ rest) hn n1.behind in
    let bd = body_lem (retrieve (retrieve b 4) 4) body rest n2.behind in
    record {
      len = n1.value;
      raw = n1.raw;
      here = omega (
        arith,
        n1.available,
        length-append (htonl num) (body ++ rest),
        length-htonl num,
        length-append body rest,
      );
      number = n2.value;
      block = bd;
    }
