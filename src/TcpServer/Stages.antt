-- ===== src/TcpServer/Stages.antt =====
-- The stages of a connection, and the invariant of a server.
use mini_distributed_storage.Base.{
  ℕ, suc, ◌<◌, ◌≤◌, ◌≡◌, ◌≢◌, ◌∙◌, sym, Bool, true, false, Option, none, some, List, [], ◌∷◌,
  length, get_elem?, ◌==◌, if◌then◌else◌, arith, Bool-cases, inl, inr,
}
use mini_distributed_storage.Fileproxy.{find}
use mini_distributed_storage.Connection.{StateE, connecting, connected, disconnected}
use mini_distributed_storage.TcpServer.{
  Conn, Kind, establish, destroy, remove, Functor, TcpServer, conn_name,
}

-- The functors for the connection `i`.
unfoldable pub about : ℕ → List Functor → List Kind
about i [] = []
about i (f ∷ fs) = let rest = about i fs in if f.conn == i then f.kind ∷ rest else rest

-- Accepted, established, ended, removed from the map, destroyed.
pub data Stage : Type 0 where
  fresh up ended removed gone : Stage

abbrev pub waiting : Stage → List Kind
waiting fresh = establish ∷ []
waiting up = []
waiting ended = remove ∷ []
waiting removed = destroy ∷ []
waiting gone = []

abbrev pub entry : Stage → ℕ → Option ℕ
entry removed i = none
entry gone i = none
entry _ i = some i

abbrev pub is_reading : Stage → Bool
is_reading up = true
is_reading _ = false

abbrev pub reports : Stage → List Bool
reports fresh = []
reports gone = true ∷ false ∷ []
reports _ = true ∷ []

abbrev pub state_of : Stage → StateE
state_of fresh = connecting
state_of gone = disconnected
state_of _ = connected

-- The connection `i` is at a stage: which functor waits for it, whether the map has it, and what its
-- callback has been told.
pub record Fits (s : TcpServer) (i : ℕ) (c : Conn) : Type 0 where
  pub stage : Stage
  pub named : c.name ≡ conn_name s.name (suc i)
  pub waits : about i s.posted ≡ waiting stage
  pub mapped : find s.connections (conn_name s.name (suc i)) ≡ entry stage i
  pub reads : c.reading ≡ is_reading stage
  pub told : c.reported ≡ reports stage
  pub in_state : c.state ≡ state_of stage

pub record IsValid (s : TcpServer) : Type 0 where
  pub count : s.next_conn_id ≡ suc (length s.objects)
  pub quiet : (i : ℕ) → length s.objects ≤ i → about i s.posted ≡ []
  pub fits : (i : ℕ) (c : Conn) → get_elem? s.objects i ≡ some c → Fits s i c

-- A step that concerns the connection `i` only.
pub record Changes (s s' : TcpServer) (i : ℕ) (c : Conn) : Type 0 where
  pub same_name : s'.name ≡ s.name
  pub count : s'.next_conn_id ≡ suc (length s'.objects)
  pub longer : length s.objects ≤ length s'.objects
  pub inside : i < length s'.objects
  pub here : get_elem? s'.objects i ≡ some c
  pub others : (j : ℕ) → j ≢ i → get_elem? s'.objects j ≡ get_elem? s.objects j
  pub same_about : (j : ℕ) → j ≢ i → about j s'.posted ≡ about j s.posted
  pub same_find :
      (j : ℕ)
      → j ≢ i
      → find s'.connections (conn_name s.name (suc j))
        ≡ find s.connections (conn_name s.name (suc j))
  pub fits : Fits s' i c

pub Changes-Fits :
    (s s' : TcpServer) (i j : ℕ) (c c' : Conn)
    → Changes s s' i c
    → j ≢ i
    → Fits s j c'
    → Fits s' j c'
Changes-Fits s s' i j c c' h ne f = record {
  stage = f.stage;
  named = rw h.same_name f.named;
  waits = h.same_about j ne ∙ f.waits;
  mapped = rw h.same_name (h.same_find j ne ∙ f.mapped);
  reads = f.reads;
  told = f.told;
  in_state = f.in_state;
}

pub Changes-IsValid :
    (s s' : TcpServer) (i : ℕ) (c : Conn) → Changes s s' i c → IsValid s → IsValid s'
Changes-IsValid s s' i c h v = record {
  count = h.count;
  quiet = λ j k.
      h.same_about j (λ e. omega (arith, e, k, h.inside)) ∙ v.quiet j (omega (arith, k, h.longer));
  fits = λ j c' e. elim (Bool-cases (j == i)) [
    | inl eq ↦
        let same : j ≡ i = ground (arith, eq) in
        let equal : c ≡ c' = cc (h.here, rw same at e) in rw (same, ← equal) h.fits
    | inr differ ↦
        let ne : j ≢ i = λ q. ground (arith, q, differ) in
        Changes-Fits s s' i j c c' h ne (v.fits j c' (sym (h.others j ne) ∙ e))
  ];
}
