-- ===== src/Decimal/RoundTrip.antt =====
-- A printed number is made of digits, and is read back.
use mini_distributed_storage.Base.{
  ℕ, zero, suc, ◌+◌, ◌/◌, ◌%◌, ◌<◌, ◌≤◌, length, ◌≡◌, refl, ◌∙◌, true, [], ◌∷◌, Bytes, All, arith,
}
use mini_distributed_storage.Decimal.{digits, to_string, is_digit, read_digits, atoi}

abbrev pub IsDigits : Bytes → Type 0
IsDigits = All (λ c. is_digit c ≡ true)

digits-IsDigits : (fuel n : ℕ) (out : Bytes) → IsDigits out → IsDigits (digits fuel n out)
unfolding digits
digits-IsDigits zero n out h = h
digits-IsDigits (suc fuel) n out h =
    ground (arith, digits-IsDigits fuel (n / 10) ((b'0' + n % 10) ∷ out))

pub to_string-IsDigits : (n : ℕ) → IsDigits (to_string n)
unfolding to_string
to_string-IsDigits n = digits-IsDigits (suc n) n [] tt

-- Reading the digits of `n` before `out` is reading `out` after `n`.
read_digits-digits :
    (fuel n : ℕ) (out : Bytes) → n < fuel → read_digits 0 (digits fuel n out) ≡ read_digits n out
unfolding digits read_digits
read_digits-digits zero n out h = elim h [ ]
read_digits-digits (suc fuel) n out h =
    ground (arith, read_digits-digits fuel (n / 10) ((b'0' + n % 10) ∷ out))

-- A text of digits has no blank and no sign in front.
atoi-IsDigits : (s : Bytes) → IsDigits s → atoi s ≡ read_digits 0 s
unfolding atoi read_digits
atoi-IsDigits [] h = refl
atoi-IsDigits (c ∷ s) h = ground arith

-- `atoi` reads every number back from what `to_string` makes of it.
pub atoi-to_string : (n : ℕ) → atoi (to_string n) ≡ n
unfolding to_string
atoi-to_string n =
    atoi-IsDigits (to_string n) (to_string-IsDigits n)
    ∙ read_digits-digits (suc n) n [] (omega arith)
    ∙ unfold read_digits in refl

length-digits : (fuel n : ℕ) (out : Bytes) → length (digits fuel n out) ≤ fuel + length out
unfolding digits
length-digits zero n out = omega arith
length-digits (suc fuel) n out = ground (arith, length-digits fuel (n / 10) ((b'0' + n % 10) ∷ out))

-- A number has no more digits than one and itself.
pub length-to_string : (n : ℕ) → length (to_string n) ≤ suc n
unfolding to_string
length-to_string n = omega (arith, length-digits (suc n) n [])
