-- ===== src/Conversation/Text.antt =====
-- The text of ids as the client reads it in a reply.
use mini_distributed_storage.Base.{
  ℕ, zero, suc, ◌≡◌, refl, Bool, true, false, some, List, [], ◌∷◌, ◌++◌, Bytes, codes, get_elem?,
  bytes_eq_iff, bytes_eq_refl, All, ◌==◌, arith, Bool-cases, inl, inr,
}
use mini_distributed_storage.Decimal.{to_string}
use mini_distributed_storage.Decimal.RoundTrip.{IsDigits, to_string-IsDigits}
use mini_distributed_storage.FileValue.{id_string}
use mini_distributed_storage.Conversation.{c_string, has_colon, is_success}

abbrev pub NoZero : Bytes → Type 0
NoZero = All (λ c. (c == 0) ≡ false)

pub c_string_lem : (s : Bytes) → NoZero s → c_string s ≡ s
unfolding c_string
c_string_lem [] h = refl
c_string_lem (c ∷ s) h = rw (h.0, c_string_lem s h.1) refl

pub digits-NoZero : (ds rest : Bytes) → IsDigits ds → NoZero rest → NoZero (ds ++ rest)
digits-NoZero [] rest h r = r
digits-NoZero (c ∷ ds) rest h r = (ground (arith, h.0), digits-NoZero ds rest h.1 r)

pub id_string-NoZero : (i : ℕ) (flags : List Bool) → NoZero (id_string i flags)
unfolding id_string
id_string-NoZero i [] = tt
id_string-NoZero i (true ∷ flags) =
    digits-NoZero (to_string i) (b':' ∷ id_string (suc i) flags) (to_string-IsDigits i)
      (refl, id_string-NoZero (suc i) flags)
id_string-NoZero i (false ∷ flags) = id_string-NoZero (suc i) flags

pub has_colon-behind : (s rest : Bytes) → has_colon rest ≡ true → has_colon (s ++ rest) ≡ true
unfolding has_colon
has_colon-behind [] rest h = h
has_colon-behind (c ∷ s) rest h = ground (arith, has_colon-behind s rest h)

pub colon_first : (rest : Bytes) → has_colon (b':' ∷ rest) ≡ true
unfolding has_colon
colon_first rest = refl

pub has_colon-id_string :
    (i j : ℕ) (flags : List Bool)
    → get_elem? flags j ≡ some true
    → has_colon (id_string i flags) ≡ true
unfolding id_string
has_colon-id_string i j [] h = cc
has_colon-id_string i j (true ∷ flags) h =
    has_colon-behind (to_string i) (b':' ∷ id_string (suc i) flags)
      (colon_first (id_string (suc i) flags))
has_colon-id_string i zero (false ∷ flags) h = cc
has_colon-id_string i (suc j) (false ∷ flags) h = has_colon-id_string (suc i) j flags h

pub success_plain : has_colon (codes "success") ≡ false
unfolding has_colon
success_plain = refl

pub success_read : is_success (c_string (codes "success")) ≡ true
unfolding c_string
success_read = bytes_eq_refl (codes "success")

-- A text of ids is not "success".
pub ids-no_success : (s : Bytes) → has_colon s ≡ true → is_success s ≡ false
ids-no_success s h = elim (Bool-cases (is_success s)) [
  | inl e ↦
      let same = (bytes_eq_iff s (codes "success")).0 e in
      absurd (ground (arith, success_plain, h, rw same at h))
  | inr e ↦ e
]
