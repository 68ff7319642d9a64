-- ===== src/Md5/Bounds.antt =====
-- The number that selects the storage server of a block.
use mini_distributed_storage.Base.{
  ℕ, zero, suc, ◌*◌, ◌/◌, ◌%◌, ◌<◌, ◌≤◌, ◌≡◌, [], ◌∷◌, Bytes, length, All, arith,
}
use mini_distributed_storage.Md5.{
  Digest, hex, hex_digit, sum_chars, convert_md5_to_int, get_string_md5, length-get_string_md5,
}

abbrev IsHexDigit : ℕ → Type 0
IsHexDigit c = (48 ≤ c) × (c ≤ 70)

hex_digit-IsHexDigit : (n : ℕ) → n < 16 → IsHexDigit (hex_digit n)
hex_digit-IsHexDigit n h = (ground arith, ground arith)

hex-IsHexDigit : (xs : Bytes) → All (λ x. x < 256) xs → All IsHexDigit (hex xs)
hex-IsHexDigit [] h = tt
hex-IsHexDigit (x ∷ xs) h = (
  hex_digit-IsHexDigit (x / 16) (omega (arith, h.0)),
  (hex_digit-IsHexDigit (x % 16) (omega arith), hex-IsHexDigit xs h.1),
)

sum_chars-bounds :
    (n : ℕ) (xs : Bytes)
    → length xs ≡ n
    → All IsHexDigit xs
    → (48 * n ≤ sum_chars n xs) × (sum_chars n xs ≤ 70 * n)
sum_chars-bounds zero xs l h = (omega arith, omega arith)
sum_chars-bounds (suc n) [] l h = absurd (omega (arith, l))
sum_chars-bounds (suc n) (x ∷ xs) l h =
    let rest = sum_chars-bounds n xs (omega (arith, l)) h.1 in
    (omega (arith, rest.0, h.0.0), omega (arith, rest.1, h.0.1))

-- The sum that `convertMD5toInt` makes of a digest string is from 1536 to 2240, for every digest of
-- sixteen bytes: the `int` cannot overflow.
pub convert_md5_to_int-bounds :
    (d : Digest) (s : Bytes)
    → (1536 ≤ convert_md5_to_int (get_string_md5 d s))
      × (convert_md5_to_int (get_string_md5 d s) ≤ 2240)
unfolding convert_md5_to_int get_string_md5
convert_md5_to_int-bounds d s =
    sum_chars-bounds 32 (get_string_md5 d s) (length-get_string_md5 d s)
      (hex-IsHexDigit (d.md5 s) (d.md5-bytes s))
