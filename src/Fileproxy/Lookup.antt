-- ===== src/Fileproxy/Lookup.antt =====
-- The map of files: what a change to one file does to the others, and an invariant on all files.
use mini_distributed_storage.Base.{
  ◌≡◌, refl, ◌≢◌, some, [], ◌∷◌, Bytes, bytes_eq, bytes_eq_iff, bytes_eq_refl, if◌then◌else◌,
  Bool-cases, inl, inr, arith,
}
use mini_distributed_storage.FileValue.{FileValue}
use mini_distributed_storage.Fileproxy.{Fileproxy, find, insert}

-- A file that is set is found under its name, and the others are found as before.
pub find-insert :
    (m : Fileproxy) (k j : Bytes) (v : FileValue)
    → find (insert m k v) j ≡ (if bytes_eq k j then some v else find m j)
unfolding find insert
find-insert [] k j v = refl
find-insert ((i, w) ∷ m) k j v =
    ground (arith, bytes_eq_iff k j, bytes_eq_iff i k, bytes_eq_iff i j, find-insert m k j v)

pub find-insert_self : (m : Fileproxy) (k : Bytes) (v : FileValue) → find (insert m k v) k ≡ some v
find-insert_self m k v = ground (arith, find-insert m k k v, bytes_eq_refl k)

pub find-insert_ne :
    (m : Fileproxy) (k j : Bytes) (v : FileValue) → k ≢ j → find (insert m k v) j ≡ find m j
find-insert_ne m k j v ne = ground (arith, find-insert m k j v, bytes_eq_iff k j)

-- Every file of the map has the property.
abbrev pub Every : (FileValue → Type 0) → Fileproxy → Type 0
Every P m = (k : Bytes) (f : FileValue) → find m k ≡ some f → P f

pub insert-Every :
    (P : FileValue → Type 0) (m : Fileproxy) (k : Bytes) (v : FileValue)
    → P v
    → Every P m
    → Every P (insert m k v)
insert-Every P m k v pv pm j f e = elim (Bool-cases (bytes_eq k j)) [
  | inl same ↦ let here : v ≡ f = ground (arith, find-insert m k j v) in rw (← here) pv
  | inr other ↦ pm j f (ground (arith, find-insert m k j v))
]
