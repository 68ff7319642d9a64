-- ===== src/Upload/Names.antt =====
-- `getFileName` cuts a path to its last component.
use mini_distributed_storage.Base.{
  ℕ, zero, suc, ◌+◌, ◌-◌, ◌≤◌, ◌<◌, ◌%◌, ◌^◌, leb, true, ◌≡◌, refl, sym, ◌∙◌, ◌≢◌, ◌⊎◌, inl, inr,
  some, [], ◌++◌, Bytes, length, take, drop, get_elem?, length-take, length-drop, take_all,
  take-append-drop, get_elem?-drop, get_elem?-take, get_elem?_above, ◌==◌, Bool-cases, Option-cases,
  arith, dec_lt,
}
use mini_distributed_storage.Upload.{name_start, base_name, get_file_name}

-- What the search among the first `i` characters has found.
record Start (i : ℕ) (s : Bytes) (n : ℕ) : Type 0 where
  below : n ≤ i
  clear : (j : ℕ) → n ≤ j → j < i → get_elem? s j ≢ some b'/'
  behind : (n ≡ 0) ⊎ (get_elem? s (n - 1) ≡ some b'/')

-- One more character.
Start-here : (i : ℕ) (s : Bytes) → get_elem? s i ≡ some b'/' → Start (suc i) s (suc i)
Start-here i s e = record {
  below = omega arith;
  clear = λ j h k. absurd (omega arith);
  behind = inr (let same : suc i - 1 ≡ i = omega arith in rw same e);
}

Start-skip :
    (i : ℕ) (s : Bytes) (n : ℕ) → get_elem? s i ≢ some b'/' → Start i s n → Start (suc i) s n
Start-skip i s n ne h = record {
  below = omega (arith, h.below);
  clear = λ j p q. elim (dec_lt j i) [
    | yes lt ↦ h.clear j p lt
    | no ge ↦ let same : i ≡ j = omega arith in rw (← same) ne
  ];
  behind = h.behind;
}

name_start-Start : (i : ℕ) (s : Bytes) → Start i s (name_start i s)
unfolding name_start
name_start-Start zero s = record {
  below = omega arith;
  clear = λ j h k. elim k [ ];
  behind = inl refl;
}
name_start-Start (suc i) s = elim (Option-cases (get_elem? s i)) [
  | inl e ↦ rw (e, name_start) (Start-skip i s (name_start i s) (λ h. cc) (name_start-Start i s))
  | inr (c, e) ↦ elim (Bool-cases (c == b'/')) [
    | inl slash ↦ rw (e, name_start, slash) (Start-here i s (ground arith))
    | inr other ↦
        rw (e, name_start, other)
          (Start-skip i s (name_start i s) (λ h. ground arith) (name_start-Start i s))
  ]
]

base_name-drop : (s : Bytes) → base_name s ≡ drop (name_start (length s) s) s
unfolding base_name
base_name-drop s =
    let n = name_start (length s) s in
    take_all (length s - n) (drop n s) (omega (arith, length-drop n s))

-- The directory part ends with a '/', if there is one.
dir_end :
    (s : Bytes) (n : ℕ)
    → n ≤ length s
    → (n ≡ 0) ⊎ (get_elem? s (n - 1) ≡ some b'/')
    → (take n s ≡ []) ⊎ (get_elem? (take n s) (length (take n s) - 1) ≡ some b'/')
dir_end s zero h e = inl refl
dir_end s (suc n) h (inl e) = absurd (omega arith)
dir_end s (suc n) h (inr e) =
    let last : length (take (suc n) s) - 1 ≡ n = omega (arith, length-take (suc n) s) in
    let before : suc n - 1 ≡ n = omega arith in
    inr (rw last (get_elem?-take (suc n) s n (omega arith) ∙ rw before at e))

no_slash :
    (s : Bytes) (n : ℕ)
    → ((j : ℕ) → n ≤ j → j < length s → get_elem? s j ≢ some b'/')
    → (j : ℕ) → get_elem? (drop n s) j ≢ some b'/'
no_slash s n clear j e = elim (dec_lt (n + j) (length s)) [
  | yes lt ↦ clear (n + j) (omega arith) lt (sym (get_elem?-drop n s j) ∙ e)
  | no ge ↦ cc (get_elem?-drop n s j, get_elem?_above s (n + j) (omega arith))
]

-- An `int` can number the characters.
pub get_file_name-base_name : (s : Bytes) → length s ≤ 2 ^ 31 → get_file_name s ≡ some (base_name s)
unfolding get_file_name base_name
get_file_name-base_name s h =
    let whole : length s % 2 ^ 32 ≡ length s = omega (arith, h) in
    let fits : leb (length s) (2 ^ 31) ≡ true = ground (arith, h) in rw (whole, fits) refl

-- A path is a directory part and then the name.
pub base_name_lem :
    (s : Bytes)
    → (dir : Bytes) × (s ≡ dir ++ base_name s)
      × ((dir ≡ []) ⊎ (get_elem? dir (length dir - 1) ≡ some b'/'))
      × ((j : ℕ) → get_elem? (base_name s) j ≢ some b'/')
base_name_lem s =
    let n = name_start (length s) s in
    let found = name_start-Start (length s) s in
    rw (base_name-drop s) (
      take n s,
      sym (take-append-drop n s),
      dir_end s n found.below found.behind,
      no_slash s n found.clear,
    )
