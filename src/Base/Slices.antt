-- ===== src/Base/Slices.antt =====
-- A run of list entries, and a copy over a run of entries (what `std::copy` into a vector does).
use mathlib.Core.Path.{◌≡◌, refl, ap}
use mini_distributed_storage.Base.Lists.{length, take, drop, length-take, length-drop}
use Prim.Native.Nat.{ℕ, zero, suc, ◌+◌, ◌-◌, ◌≤◌, min}
use mathlib.Core.List.{List, [], ◌∷◌, ◌++◌}
use Prim.Native.Nat.add
use native.Mathlib.Omega.{arith}

module _ {ℓ} {A : Type ℓ} where
  -- The `n` entries from index `i` on.
  abbrev pub slice : ℕ → ℕ → List A → List A
  slice i n xs = take n (drop i xs)

  -- `std::copy(ys.begin(), ys.end(), xs.begin() + i)`; what would go past the end is not written.
  pub write_at : List A → ℕ → List A → List A
  write_at [] i ys = []
  write_at (x ∷ xs) zero [] = x ∷ xs
  write_at (x ∷ xs) zero (y ∷ ys) = y ∷ write_at xs zero ys
  write_at (x ∷ xs) (suc i) ys = x ∷ write_at xs i ys

  pub length-write_at : (xs : List A) (i : ℕ) (ys : List A) → length (write_at xs i ys) ≡ length xs
  unfolding write_at
  length-write_at [] i ys = refl
  length-write_at (x ∷ xs) zero [] = refl
  length-write_at (x ∷ xs) zero (y ∷ ys) = ap suc (length-write_at xs zero ys)
  length-write_at (x ∷ xs) (suc i) ys = ap suc (length-write_at xs i ys)

  pub length-slice : (i n : ℕ) (xs : List A) → length (slice i n xs) ≡ min n (length xs - i)
  length-slice i n xs = omega (arith, length-take n (drop i xs), length-drop i xs)

  take_add : (m n : ℕ) (xs : List A) → take (m + n) xs ≡ take m xs ++ take n (drop m xs)
  take_add zero n xs = rw add.zero
  take_add (suc m) zero [] = rw add.suc
  take_add (suc m) (suc n) [] = rw add.suc
  take_add (suc m) n (x ∷ xs) = rw add.suc (ap (◌∷◌ x) (take_add m n xs))

  pub drop_add : (m n : ℕ) (xs : List A) → drop (m + n) xs ≡ drop n (drop m xs)
  drop_add zero n xs = rw add.zero
  drop_add (suc m) zero [] = rw add.suc
  drop_add (suc m) (suc n) [] = rw add.suc
  drop_add (suc m) n (x ∷ xs) = rw add.suc (drop_add m n xs)

  pub slice_add :
      (i m n : ℕ) (xs : List A) → slice i (m + n) xs ≡ slice i m xs ++ slice (i + m) n xs
  slice_add i m n xs = rw (drop_add i m xs) (take_add m n (drop i xs))

  pub slice-write_at_self :
      (xs : List A) (i : ℕ) (ys : List A)
      → i + length ys ≤ length xs
      → slice i (length ys) (write_at xs i ys) ≡ ys
  unfolding write_at
  slice-write_at_self [] zero [] h = refl
  slice-write_at_self [] (suc i) [] h = refl
  slice-write_at_self [] i (y ∷ ys) h = absurd (omega arith)
  slice-write_at_self (x ∷ xs) zero [] h = refl
  slice-write_at_self (x ∷ xs) zero (y ∷ ys) h =
      ap (◌∷◌ y) (slice-write_at_self xs zero ys (omega arith))
  slice-write_at_self (x ∷ xs) (suc i) ys h = slice-write_at_self xs i ys (omega arith)

  -- What lies below the copy is kept.
  take-write_at_before :
      (xs : List A) (n j : ℕ) (ys : List A) → n ≤ j → take n (write_at xs j ys) ≡ take n xs
  unfolding write_at
  take-write_at_before xs zero j ys h = refl
  take-write_at_before [] (suc n) j ys h = refl
  take-write_at_before (x ∷ xs) (suc n) zero ys h = absurd (omega arith)
  take-write_at_before (x ∷ xs) (suc n) (suc j) ys h =
      ap (◌∷◌ x) (take-write_at_before xs n j ys (omega arith))

  pub slice-write_at_before :
      (xs : List A) (i n j : ℕ) (ys : List A)
      → i + n ≤ j
      → slice i n (write_at xs j ys) ≡ slice i n xs
  unfolding write_at
  slice-write_at_before xs zero n j ys h = take-write_at_before xs n j ys (omega arith)
  slice-write_at_before [] (suc i) n j ys h = refl
  slice-write_at_before (x ∷ xs) (suc i) n zero ys h = absurd (omega arith)
  slice-write_at_before (x ∷ xs) (suc i) n (suc j) ys h =
      slice-write_at_before xs i n j ys (omega arith)

  -- So is what lies above it.
  pub slice-write_at_after :
      (xs : List A) (i n j : ℕ) (ys : List A)
      → j + length ys ≤ i
      → slice i n (write_at xs j ys) ≡ slice i n xs
  unfolding write_at
  slice-write_at_after [] i n j ys h = refl
  slice-write_at_after (x ∷ xs) i n zero [] h = refl
  slice-write_at_after (x ∷ xs) zero n zero (y ∷ ys) h = absurd (omega arith)
  slice-write_at_after (x ∷ xs) (suc i) n zero (y ∷ ys) h =
      slice-write_at_after xs i n zero ys (omega arith)
  slice-write_at_after (x ∷ xs) zero n (suc j) ys h = absurd (omega arith)
  slice-write_at_after (x ∷ xs) (suc i) n (suc j) ys h =
      slice-write_at_after xs i n j ys (omega arith)

  pub slice-append_left :
      (xs : List A) (i n : ℕ) (ys : List A)
      → i + n ≤ length xs
      → slice i n (xs ++ ys) ≡ slice i n xs
  slice-append_left xs i zero ys h = refl
  slice-append_left [] i (suc n) ys h = absurd (omega arith)
  slice-append_left (x ∷ xs) zero (suc n) ys h =
      ap (◌∷◌ x) (slice-append_left xs zero n ys (omega arith))
  slice-append_left (x ∷ xs) (suc i) (suc n) ys h = slice-append_left xs i (suc n) ys (omega arith)

  pub slice-take : (xs : List A) (i n m : ℕ) → i + n ≤ m → slice i n (take m xs) ≡ slice i n xs
  slice-take xs i zero m h = refl
  slice-take xs i (suc n) zero h = absurd (omega arith)
  slice-take [] i (suc n) (suc m) h = refl
  slice-take (x ∷ xs) zero (suc n) (suc m) h = ap (◌∷◌ x) (slice-take xs zero n m (omega arith))
  slice-take (x ∷ xs) (suc i) (suc n) (suc m) h = slice-take xs i (suc n) m (omega arith)

  drop-take : (n k : ℕ) (xs : List A) → drop n (take (n + k) xs) ≡ take k (drop n xs)
  drop-take zero k xs = rw add.zero
  drop-take (suc n) zero [] = rw add.suc
  drop-take (suc n) (suc k) [] = rw add.suc
  drop-take (suc n) k (x ∷ xs) = rw add.suc (drop-take n k xs)

  -- The front and the rest of a run.
  pub take-slice : (xs : List A) (i m n : ℕ) → n ≤ m → take n (slice i m xs) ≡ slice i n xs
  take-slice xs i m n h = slice-take (drop i xs) 0 n m (omega arith)

  pub drop-slice :
      (xs : List A) (i m n : ℕ) → n ≤ m → drop n (slice i m xs) ≡ slice (i + n) (m - n) xs
  drop-slice xs i m n h =
      let e : n + (m - n) ≡ m = omega arith in
      rw drop_add (rw (← e) (rw drop-take (ap (λ k. take k (drop n (drop i xs))) (omega arith))))
