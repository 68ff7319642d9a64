-- ===== src/TcpServer/Names.antt =====
-- The names of connections, and the map under these names.
use mini_distributed_storage.Base.{
  ℕ, ◌≡◌, refl, ap, ◌∙◌, sym, none, some, List, [], ◌∷◌, ◌++◌, Bytes, codes, length, drop,
  drop-append_self, bytes_eq, bytes_eq_iff, if◌then◌else◌, arith,
}
use mini_distributed_storage.Decimal.{to_string, atoi}
use mini_distributed_storage.Decimal.RoundTrip.{atoi-to_string}
use mini_distributed_storage.Fileproxy.{find, insert}
use mini_distributed_storage.TcpServer.{conn_name, erase}

-- Two connections of a server have different names.
pub conn_name-inj : (name : Bytes) (j k : ℕ) → conn_name name j ≡ conn_name name k → j ≡ k
unfolding conn_name
conn_name-inj name j k e =
    let behind : codes "#" ++ to_string j ≡ codes "#" ++ to_string k =
      sym (drop-append_self name (codes "#" ++ to_string j))
      ∙ ap (drop (length name)) e
      ∙ drop-append_self name (codes "#" ++ to_string k) in
    sym (atoi-to_string j) ∙ ap (λ s. atoi (drop 1 s)) behind ∙ atoi-to_string k

module _ {ℓ} {V : Type ℓ} where
  pub find-insert :
      (m : List (Bytes × V)) (k j : Bytes) (v : V)
      → find (insert m k v) j ≡ (if bytes_eq k j then some v else find m j)
  unfolding find insert
  find-insert [] k j v = refl
  find-insert ((i, w) ∷ m) k j v =
      ground (arith, bytes_eq_iff k j, bytes_eq_iff i k, bytes_eq_iff i j, find-insert m k j v)

  pub find-erase :
      (m : List (Bytes × V)) (k j : Bytes)
      → find (erase m k) j ≡ (if bytes_eq k j then none else find m j)
  unfolding find erase
  find-erase [] k j = ground arith
  find-erase ((i, w) ∷ m) k j =
      ground (arith, bytes_eq_iff k j, bytes_eq_iff i k, bytes_eq_iff i j, find-erase m k j)
