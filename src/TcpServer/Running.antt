-- ===== src/TcpServer/Running.antt =====
-- A functor runs: the invariant is kept.
use mini_distributed_storage.Base.{
  ℕ, zero, suc, ◌<◌, ◌≡◌, ◌≢◌, refl, ◌∙◌, sym, none, some, List, [], ◌∷◌, ◌++◌, Bytes, length,
  length-set, get_elem?, get_elem?-set_self, get_elem?-set_ne, bytes_eq, bytes_eq_iff,
  bytes_eq_refl, arith, Bool-cases, inl, inr,
}
use mini_distributed_storage.Fileproxy.{find}
use mini_distributed_storage.TcpServer.{
  Conn, Kind, establish, destroy, remove, Functor, TcpServer, conn_name, erase, set_conn,
  established, destroyed, execute,
}
use mini_distributed_storage.TcpServer.Names.{conn_name-inj, find-erase}
use mini_distributed_storage.TcpServer.Stages.{
  about, Stage, up, removed, gone, waiting, entry, is_reading, reports, state_of, Fits, IsValid,
  Changes, Changes-IsValid,
}
use mini_distributed_storage.TcpServer.Posted.{
  about-append, about_self, about-post_self, about-post_other, about-take_other, stage_before,
  only_one,
}

-- The state just before a functor runs for the connection `i`.
pub record Ready (s : TcpServer) (p : List Functor) (k : Kind) (i : ℕ) (c : Conn) : Type 0 where
  pub there : get_elem? s.objects i ≡ some c
  pub nothing : about i p ≡ []
  pub same_about : (j : ℕ) → j ≢ i → about j p ≡ about j s.posted
  pub stage : Stage
  pub is_stage : stage ≡ stage_before k
  pub named : c.name ≡ conn_name s.name (suc i)
  pub mapped : find s.connections (conn_name s.name (suc i)) ≡ entry stage i
  pub reads : c.reading ≡ is_reading stage
  pub told : c.reported ≡ reports stage
  pub in_state : c.state ≡ state_of stage

pub ready_lem :
    (s : TcpServer) (before after : List Functor) (f : Functor) (c : Conn)
    → IsValid s
    → s.posted ≡ before ++ f ∷ after
    → get_elem? s.objects f.conn ≡ some c
    → Ready s (before ++ after) f.kind f.conn c
ready_lem s before after f c v e there =
    let fit = v.fits f.conn c there in
    let kinds : about f.conn before ++ f.kind ∷ about f.conn after ≡ waiting fit.stage =
      sym (rw (e, about-append f.conn before (f ∷ after), about_self f.conn f after refl) refl)
      ∙ fit.waits in
    let one = only_one fit.stage f.kind (about f.conn before) (about f.conn after) kinds in
    record {
      there = there;
      nothing = about-append f.conn before after ∙ one.1;
      same_about = λ j ne. rw e (about-take_other j before after f ne);
      stage = fit.stage;
      is_stage = one.0;
      named = fit.named;
      mapped = fit.mapped;
      reads = fit.reads;
      told = fit.told;
      in_state = fit.in_state;
    }

pub get_elem?-below {ℓ} :
    {A : Type ℓ} (xs : List A) (i : ℕ) (a : A) → get_elem? xs i ≡ some a → i < length xs
get_elem?-below [] i a e = cc e
get_elem?-below (x ∷ xs) zero a e = omega arith
get_elem?-below (x ∷ xs) (suc i) a e = omega (arith, get_elem?-below xs i a e)

pub find-erase_other :
    (m : List (Bytes × ℕ)) (name : Bytes) (i j : ℕ)
    → j ≢ i
    → find (erase m (conn_name name (suc i))) (conn_name name (suc j))
      ≡ find m (conn_name name (suc j))
find-erase_other m name i j ne =
    elim (Bool-cases (bytes_eq (conn_name name (suc i)) (conn_name name (suc j)))) [
      | inl same ↦
          let eq = conn_name-inj name (suc i) (suc j) ((bytes_eq_iff _ _).0 same) in
          absurd (ne (omega (arith, eq)))
      | inr differ ↦
          rw (find-erase m (conn_name name (suc i)) (conn_name name (suc j)), differ) refl
    ]

pub find-erase_self : (m : List (Bytes × ℕ)) (k : Bytes) → find (erase m k) k ≡ none
find-erase_self m k = rw (find-erase m k k, bytes_eq_refl k) refl

-- A step that gives the connection a new state and leaves the map and the names.
pub set-Changes :
    (s : TcpServer) (p : List Functor) (i : ℕ) (c c' : Conn)
    → IsValid s
    → get_elem? s.objects i ≡ some c
    → ((j : ℕ) → j ≢ i → about j p ≡ about j s.posted)
    → Fits (set_conn i c' (record s { posted = p })) i c'
    → Changes s (set_conn i c' (record s { posted = p })) i c'
set-Changes s p i c c' v there same fit =
    let below = get_elem?-below s.objects i c there in
    let size = length-set s.objects i c' in
    record {
      same_name = refl;
      count = rw size v.count;
      longer = omega (arith, size);
      inside = omega (arith, size, below);
      here = get_elem?-set_self s.objects i c' below;
      others = λ j ne. get_elem?-set_ne s.objects i j c' (λ e. ne (sym e));
      same_about = same;
      same_find = λ j ne. refl;
      fits = fit;
    }

pub execute-IsValid :
    (s : TcpServer) (p : List Functor) (k : Kind) (i : ℕ) (c : Conn)
    → IsValid s
    → Ready s p k i c
    → IsValid (execute k i c (record s { posted = p }))
unfolding execute
execute-IsValid s p establish i c v r =
    Changes-IsValid s _ i (established c)
      (set-Changes s p i c (established c) v r.there r.same_about (record {
        stage = up;
        named = r.named;
        waits = r.nothing;
        mapped = rw r.is_stage at r.mapped;
        reads = refl;
        told = let told = rw r.is_stage at r.told in rw told refl;
        in_state = refl;
      }))
      v
execute-IsValid s p destroy i c v r =
    Changes-IsValid s _ i (destroyed c)
      (set-Changes s p i c (destroyed c) v r.there r.same_about (record {
        stage = gone;
        named = r.named;
        waits = r.nothing;
        mapped = rw r.is_stage at r.mapped;
        reads = refl;
        told = let told = rw r.is_stage at r.told in rw told refl;
        in_state = refl;
      }))
      v
execute-IsValid s p remove i c v r =
    let f : Functor = record { loop = c.io_loop; kind = destroy; conn = i } in
    Changes-IsValid s _ i c
      (record {
        same_name = refl;
        count = v.count;
        longer = omega arith;
        inside = get_elem?-below s.objects i c r.there;
        here = r.there;
        others = λ j ne. refl;
        same_about = λ j ne. about-post_other j p f ne ∙ r.same_about j ne;
        same_find = λ j ne. rw r.named (find-erase_other s.connections s.name i j ne);
        fits = record {
          stage = removed;
          named = r.named;
          waits = about-post_self i p f refl ∙ rw r.nothing refl;
          mapped = rw r.named (find-erase_self s.connections (conn_name s.name (suc i)));
          reads = rw r.is_stage at r.reads;
          told = rw r.is_stage at r.told;
          in_state = rw r.is_stage at r.in_state;
        };
      })
      v
