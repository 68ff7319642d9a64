-- ===== src/TcpServer/Posted.antt =====
-- The functors that wait for one connection.
use mini_distributed_storage.Base.{ℕ, ◌≡◌, ◌≢◌, refl, append-nil, List, [], ◌∷◌, ◌++◌, arith}
use mini_distributed_storage.TcpServer.{Kind, establish, destroy, remove, Functor}
use mini_distributed_storage.TcpServer.Stages.{
  about, Stage, fresh, up, ended, removed, gone, waiting,
}

pub about-append : (i : ℕ) (xs ys : List Functor) → about i (xs ++ ys) ≡ about i xs ++ about i ys
unfolding about
about-append i [] ys = refl
about-append i (f ∷ xs) ys = ground (arith, about-append i xs ys)

pub about_self :
    (i : ℕ) (f : Functor) (fs : List Functor) → f.conn ≡ i → about i (f ∷ fs) ≡ f.kind ∷ about i fs
unfolding about
about_self i f fs e = ground (arith, e)

pub about_other :
    (i : ℕ) (f : Functor) (fs : List Functor) → i ≢ f.conn → about i (f ∷ fs) ≡ about i fs
unfolding about
about_other i f fs ne = ground (arith, ne)

pub about-nil : (i : ℕ) → about i [] ≡ []
unfolding about
about-nil i = refl

-- A functor that is put into a loop.
pub about-post_self :
    (i : ℕ) (fs : List Functor) (f : Functor)
    → f.conn ≡ i
    → about i (fs ++ f ∷ []) ≡ about i fs ++ f.kind ∷ []
about-post_self i fs f e = rw (about-append i fs (f ∷ []), about_self i f [] e, about-nil i) refl

pub about-post_other :
    (i : ℕ) (fs : List Functor) (f : Functor) → i ≢ f.conn → about i (fs ++ f ∷ []) ≡ about i fs
about-post_other i fs f ne =
    rw (about-append i fs (f ∷ []), about_other i f [] ne, about-nil i) (append-nil (about i fs))

-- A functor that is taken out.
pub about-take_other :
    (i : ℕ) (xs ys : List Functor) (f : Functor)
    → i ≢ f.conn
    → about i (xs ++ ys) ≡ about i (xs ++ f ∷ ys)
about-take_other i xs ys f ne =
    rw (about-append i xs ys, about-append i xs (f ∷ ys), about_other i f ys ne) refl

-- The stage at which a functor of a kind waits.
abbrev pub stage_before : Kind → Stage
stage_before establish = fresh
stage_before remove = ended
stage_before destroy = removed

pub single :
    (st : Stage) (k : Kind) (ks : List Kind)
    → k ∷ ks ≡ waiting st
    → (st ≡ stage_before k) × (ks ≡ [])
single fresh k ks e = let same : k ≡ establish = cc e in (rw same refl, cc e)
single up k ks e = cc e
single ended k ks e = let same : k ≡ remove = cc e in (rw same refl, cc e)
single removed k ks e = let same : k ≡ destroy = cc e in (rw same refl, cc e)
single gone k ks e = cc e

pub not_nil : (xs ys : List Kind) (k : Kind) → xs ++ k ∷ ys ≢ []
not_nil [] ys k e = cc e
not_nil (x ∷ xs) ys k e = cc e

pub only_one :
    (st : Stage) (k : Kind) (xs ys : List Kind)
    → xs ++ k ∷ ys ≡ waiting st
    → (st ≡ stage_before k) × (xs ++ ys ≡ [])
only_one st k [] ys e = single st k ys e
only_one st k (x ∷ xs) ys e = absurd (not_nil xs ys k (single st x (xs ++ k ∷ ys) e).1)
