-- ===== src/Wire.antt =====
-- The 32-bit numbers of the messages. Both sides send `htonl(n)` from memory and read the four bytes
-- back through `ntohl`, so on the wire a number is its bytes, the high one first.
pub mod Frame
pub mod Pieces
mod Tests
use mini_distributed_storage.Base.{
  ℕ, ◌+◌, ◌*◌, ◌/◌, ◌%◌, ◌^◌, ◌<◌, ◌≤◌, ◌≡◌, refl, Option, some, [], ◌∷◌, ◌++◌, ◌>>=◌, Bytes,
  length, take, drop, length-append, append-nil, arith,
}
use mini_distributed_storage.Buffer.{Buffer, peek, readable_bytes}
use mini_distributed_storage.Buffer.Contents.{Holds, peek-take}

-- `uint32_t be = htonl(n)`, as the four bytes that `&be` points to.
unfoldable pub htonl : ℕ → Bytes
htonl n = (n / 2 ^ 24) % 256 ∷ (n / 2 ^ 16) % 256 ∷ (n / 2 ^ 8) % 256 ∷ n % 256 ∷ []

-- `ntohl` of the number in the first four bytes, a `uint32_t`.
unfoldable pub ntohl : Bytes → ℕ
ntohl (a ∷ b ∷ c ∷ d ∷ _) = (a * 2 ^ 24 + b * 2 ^ 16 + c * 2 ^ 8 + d) % 2 ^ 32
ntohl _ = 0

-- `be32 = *static_cast<const int32_t*>(buf->peek()); ::ntohl(be32)`
unfoldable pub peek_be32 : Buffer → Option ℕ
peek_be32 b = do tmp ← peek b 4; some (ntohl tmp)

pub length-htonl : (n : ℕ) → length (htonl n) ≡ 4
unfolding htonl
length-htonl n = refl

-- A number below 2^32 is read back as it was sent, whatever follows it.
pub ntohl-htonl : (n : ℕ) (rest : Bytes) → n < 2 ^ 32 → ntohl (htonl n ++ rest) ≡ n
unfolding ntohl htonl
ntohl-htonl n rest h = omega arith

pub ntohl-lt : (xs : Bytes) → ntohl xs < 2 ^ 32
unfolding ntohl
ntohl-lt [] = omega arith
ntohl-lt (a ∷ []) = omega arith
ntohl-lt (a ∷ b ∷ []) = omega arith
ntohl-lt (a ∷ b ∷ c ∷ []) = omega arith
ntohl-lt (a ∷ b ∷ c ∷ d ∷ xs) = omega arith

pub take-htonl : (n : ℕ) (rest : Bytes) → take 4 (htonl n ++ rest) ≡ htonl n
unfolding htonl
take-htonl n rest = refl

pub drop-htonl : (n : ℕ) (rest : Bytes) → drop 4 (htonl n ++ rest) ≡ rest
unfolding htonl
drop-htonl n rest = refl

-- Reading the number in front of a valid buffer that holds one.
pub peek_be32-htonl :
    {b : Buffer} (n : ℕ) (rest : Bytes)
    → n < 2 ^ 32
    → Holds b (htonl n ++ rest)
    → peek_be32 b ≡ some n
unfolding peek_be32
peek_be32-htonl n rest h k = ground (
  arith,
  peek-take k 4 (omega (arith, length-append (htonl n) rest, length-htonl n)),
  take-htonl n rest,
  append-nil (htonl n),
  ntohl-htonl n [] h,
)
