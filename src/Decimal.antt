-- ===== src/Decimal.antt =====
-- `std::to_string` of a non-negative `int` and `atoi`, as the lists of block ids use them.
pub mod RoundTrip
mod Tests
use mini_distributed_storage.Base.{
  ℕ, zero, suc, ◌+◌, ◌-◌, ◌*◌, ◌/◌, ◌%◌, ◌<◌, ◌≡◌, refl, Bool, ◌&&◌, ◌||◌, [], ◌∷◌, Bytes, codes,
  ltb, leb, ◌==◌, if◌then◌else◌, size_mod,
}

-- The digits of `n` in front of `out`. `suc n` rounds are enough.
unfoldable pub digits : ℕ → ℕ → Bytes → Bytes
digits zero n out = out
digits (suc fuel) n out =
    let more = digits fuel (n / 10) ((b'0' + n % 10) ∷ out) in
    if ltb n 10 then (b'0' + n) ∷ out else more

unfoldable pub to_string : ℕ → Bytes
to_string n = digits (suc n) n []

abbrev pub is_digit : ℕ → Bool
is_digit c = leb b'0' c && leb c b'9'

abbrev is_space : ℕ → Bool
is_space c = c == 32 || (leb 9 c && leb c 13)

-- The digits up to the first other character.
unfoldable pub read_digits : ℕ → Bytes → ℕ
read_digits n [] = n
read_digits n (c ∷ s) =
    let more = read_digits (n * 10 + (c - b'0')) s in if is_digit c then more else n

read_signed : Bytes → ℕ
unfolding read_digits
read_signed [] = 0
read_signed (c ∷ s) =
    if c == b'-'
    then (size_mod - read_digits 0 s) % size_mod
    else if c == b'+'
    then read_digits 0 s
    else read_digits 0 (c ∷ s)

-- `atoi`, as the `size_t` that an index makes of it. (Beyond the range of `int` C leaves the value
-- undefined; here it is the number that is written.)
unfoldable pub atoi : Bytes → ℕ
unfolding read_signed
atoi [] = 0
atoi (c ∷ s) = let more = atoi s in if is_space c then more else read_signed (c ∷ s)

to_string_samples : (to_string 0 ≡ codes "0") × (to_string 2048 ≡ codes "2048")
unfolding to_string digits
to_string_samples = (refl, refl)

atoi_samples : (atoi (codes " +42x") ≡ 42) × (atoi (codes "-1") ≡ size_mod - 1) × (atoi [] ≡ 0)
unfolding atoi
atoi_samples = (refl, refl, refl)
