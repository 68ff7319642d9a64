-- ===== src/Md5.antt =====
-- The hexadecimal MD5 strings: ReactorService/src/md5.h (`getstringMD5`; the storage servers have a
-- copy), ReactorService/inc/MD5.h and `convertMD5toInt` of ReactorService/src/upLoad.h. The digest is
-- OpenSSL's: a parameter.
pub mod Bounds
mod Tests
use mini_distributed_storage.Base.{
  ℕ, zero, suc, ◌+◌, ◌-◌, ◌*◌, ◌/◌, ◌%◌, ◌<◌, ◌≤◌, ◌≡◌, refl, ap, List, [], ◌∷◌, ◌++◌, Bytes,
  length, take, arith, All, ltb, if◌then◌else◌, length-append,
}

-- `MD5(data, size, md)` of OpenSSL: it writes `MD5_DIGEST_LENGTH` bytes, and they are bytes.
pub record Digest : Type 0 where
  pub md5 : Bytes → Bytes
  pub length-md5 : (s : Bytes) → length (md5 s) ≡ 16
  pub md5-bytes : (s : Bytes) → All (λ x. x < 256) (md5 s)

-- A digit as "%X" prints it.
abbrev pub hex_digit : ℕ → ℕ
hex_digit d = if ltb d 10 then b'0' + d else b'A' + d - 10

-- `sprintf(tmp2, "%02X", x)` for each byte, joined by `strcat`.
abbrev pub hex : Bytes → Bytes
hex [] = []
hex (x ∷ xs) = hex_digit (x / 16) ∷ hex_digit (x % 16) ∷ hex xs

-- The sum of the first `n` characters.
abbrev sum_chars : ℕ → Bytes → ℕ
sum_chars zero xs = 0
sum_chars (suc n) [] = 0
sum_chars (suc n) (x ∷ xs) = x + sum_chars n xs

-- `convertMD5toInt`.
unfoldable pub convert_md5_to_int : Bytes → ℕ
convert_md5_to_int md5 = sum_chars 32 md5

pub length-hex : (xs : Bytes) → length (hex xs) ≡ 2 * length xs
length-hex [] = refl
length-hex (x ∷ xs) = omega (arith, length-hex xs)

hex_digit-inj : (a b : ℕ) → a < 16 → b < 16 → hex_digit a ≡ hex_digit b → a ≡ b
hex_digit-inj a b ha hb e = ground arith

pub hex-inj :
    (xs ys : Bytes) → All (λ x. x < 256) xs → All (λ y. y < 256) ys → hex xs ≡ hex ys → xs ≡ ys
hex-inj [] [] p q e = refl
hex-inj [] (y ∷ ys) p q e = cc
hex-inj (x ∷ xs) [] p q e = cc
hex-inj (x ∷ xs) (y ∷ ys) p q e =
    ground (
      arith,
      hex_digit-inj (x / 16) (y / 16),
      hex_digit-inj (x % 16) (y % 16),
      hex-inj xs ys p.1 q.1,
    )

module _ (d : Digest) where
  unfoldable pub get_string_md5 : Bytes → Bytes
  get_string_md5 str = hex (d.md5 str)

  -- The string has the 32 characters that the messages leave room for.
  pub length-get_string_md5 : (s : Bytes) → length (get_string_md5 s) ≡ 32
  unfolding get_string_md5
  length-get_string_md5 s = omega (arith, length-hex (d.md5 s), d.length-md5 s)

  -- Two texts with the same digest string have the same digest: printing it loses nothing.
  pub get_string_md5-inj : (s t : Bytes) → get_string_md5 s ≡ get_string_md5 t → d.md5 s ≡ d.md5 t
  unfolding get_string_md5
  get_string_md5-inj s t e = hex-inj (d.md5 s) (d.md5 t) (d.md5-bytes s) (d.md5-bytes t) e
