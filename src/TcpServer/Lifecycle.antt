-- ===== src/TcpServer/Lifecycle.antt =====
-- The life of a connection, through any steps of a server: it is established once, then taken out of
-- the map, then destroyed once.
use mini_distributed_storage.Base.{
  ℕ, zero, suc, ◌+◌, ◌^◌, ◌≡◌, ◌≢◌, refl, ap, ◌∙◌, sym, append-nil, true, false, none, some, List,
  [], ◌∷◌, ◌++◌, Bytes, length, length-append, get_elem?, get_elem?-set_self, bytes_eq,
  bytes_eq_iff, bytes_eq_refl, ◌==◌, ltb, if◌then◌else◌, arith, Bool-cases, inl, inr, >>=-eq-some,
}
use mini_distributed_storage.Fileproxy.{find, insert}
use mini_distributed_storage.Connection.{connecting}
use mini_distributed_storage.ThreadPool.{ThreadPool, get_next_loop}
use mini_distributed_storage.TcpServer.{
  Conn, Kind, establish, remove, Functor, TcpServer, conn_name, post, set_conn, execute,
  run_in_loop, new_connection, handle_close, Step, accepts, ends, runs, Reach, stay, later,
}
use mini_distributed_storage.TcpServer.Names.{conn_name-inj, find-insert}
use mini_distributed_storage.TcpServer.Stages.{
  Stage, fresh, up, ended, removed, gone, is_reading, Fits, IsValid, Changes-IsValid,
}
use mini_distributed_storage.TcpServer.Posted.{about-nil, about-post_self, about-post_other}
use mini_distributed_storage.TcpServer.Running.{
  ready_lem, get_elem?-below, set-Changes, execute-IsValid,
}

reading_up : (st : Stage) → is_reading st ≡ true → st ≡ up
reading_up fresh e = cc
reading_up up e = refl
reading_up ended e = cc
reading_up removed e = cc
reading_up gone e = cc

-- A functor that would wait runs at once.
run_at_once :
    (s : TcpServer) (f : Functor) (c : Conn)
    → IsValid (post f s)
    → get_elem? s.objects f.conn ≡ some c
    → IsValid (execute f.kind f.conn c s)
run_at_once s f c v there = rw (append-nil s.posted) at (
    execute-IsValid (post f s) (s.posted ++ []) f.kind f.conn c v
      (ready_lem (post f s) s.posted [] f c v refl there))

-- `runInLoop`, whichever thread calls it.
run_in_loop-IsValid :
    (here loop : ℕ) (k : Kind) (i : ℕ) (c : Conn) (s : TcpServer)
    → IsValid (post (record { loop = loop; kind = k; conn = i }) s)
    → get_elem? s.objects i ≡ some c
    → IsValid (run_in_loop here loop k i c s)
unfolding run_in_loop
run_in_loop-IsValid here loop k i c s v there =
    let f : Functor = record { loop = loop; kind = k; conn = i } in
    elim (Bool-cases (loop == here)) [
      | inl same ↦ rw same (run_at_once s f c v there)
      | inr other ↦ rw other v
    ]

-- A connection that is up ends; `removeConnection` comes from its own loop.
handle_close-IsValid :
    (s : TcpServer) (i : ℕ) (c : Conn)
    → IsValid s
    → get_elem? s.objects i ≡ some c
    → c.reading ≡ true
    → IsValid (handle_close i c s)
unfolding handle_close
handle_close-IsValid s i c v there reading =
    let fit = v.fits i c there in
    let is_up = reading_up fit.stage (sym fit.reads ∙ reading) in
    let c' : Conn = record c { reading = false } in
    let quiet = rw is_up at fit.waits in
    let f : Functor = record { loop = s.thread_pool.base_loop; kind = remove; conn = i } in
    let posted =
      Changes-IsValid s (post f (set_conn i c' s)) i c'
        (set-Changes s (s.posted ++ f ∷ []) i c c' v there
          (λ j ne. about-post_other j s.posted f ne)
          (record {
            stage = ended;
            named = fit.named;
            waits = about-post_self i s.posted f refl ∙ rw quiet refl;
            mapped = rw is_up at fit.mapped;
            reads = refl;
            told = rw is_up at fit.told;
            in_state = rw is_up at fit.in_state;
          }))
        v in
    run_in_loop-IsValid c.io_loop s.thread_pool.base_loop remove i c' (set_conn i c' s) posted
      (get_elem?-set_self s.objects i c' (get_elem?-below s.objects i c there))

get_elem?-last : (xs : List Conn) (c : Conn) → get_elem? (xs ++ c ∷ []) (length xs) ≡ some c
get_elem?-last [] c = refl
get_elem?-last (x ∷ xs) c = get_elem?-last xs c

get_elem?-before :
    (xs : List Conn) (c : Conn) (j : ℕ)
    → j ≢ length xs
    → get_elem? (xs ++ c ∷ []) j ≡ get_elem? xs j
get_elem?-before [] c zero ne = absurd (ne refl)
get_elem?-before [] c (suc j) ne = refl
get_elem?-before (x ∷ xs) c zero ne = refl
get_elem?-before (x ∷ xs) c (suc j) ne = get_elem?-before xs c j (λ e. ne (ap suc e))

-- The connection that `newConnection` makes, and the state when it is in the map.
abbrev made : TcpServer → ℕ → Conn
made s loop = record {
  name = conn_name s.name s.next_conn_id;
  io_loop = loop;
  state = connecting;
  reading = false;
  reported = [];
}

abbrev entered : TcpServer → ℕ → ThreadPool ℕ → TcpServer
entered s loop pool = record s {
  next_conn_id = s.next_conn_id + 1;
  thread_pool = pool;
  objects = s.objects ++ made s loop ∷ [];
  connections = insert s.connections (conn_name s.name s.next_conn_id) (length s.objects);
}

find-insert_other :
    (m : List (Bytes × ℕ)) (name : Bytes) (i j v : ℕ)
    → j ≢ i
    → find (insert m (conn_name name (suc i)) v) (conn_name name (suc j))
      ≡ find m (conn_name name (suc j))
find-insert_other m name i j v ne =
    elim (Bool-cases (bytes_eq (conn_name name (suc i)) (conn_name name (suc j)))) [
      | inl same ↦
          let eq = conn_name-inj name (suc i) (suc j) ((bytes_eq_iff _ _).0 same) in
          absurd (ne (omega (arith, eq)))
      | inr differ ↦
          rw (find-insert m (conn_name name (suc i)) (conn_name name (suc j)) v, differ) refl
    ]

find-insert_self : (m : List (Bytes × ℕ)) (k : Bytes) (v : ℕ) → find (insert m k v) k ≡ some v
find-insert_self m k v = rw (find-insert m k k v, bytes_eq_refl k) refl

entered-IsValid :
    (s : TcpServer) (loop : ℕ) (pool : ThreadPool ℕ)
    → IsValid s
    → IsValid (
        post
          (record { loop = loop; kind = establish; conn = length s.objects })
          (entered s loop pool))
entered-IsValid s loop pool v =
    let n = length s.objects in
    let f : Functor = record { loop = loop; kind = establish; conn = n } in
    let size = length-append s.objects (made s loop ∷ []) in
    let nothing = v.quiet n (omega arith) in
    Changes-IsValid s (post f (entered s loop pool)) n (made s loop)
      (record {
        same_name = refl;
        count = omega (arith, size, v.count);
        longer = omega (arith, size);
        inside = omega (arith, size);
        here = get_elem?-last s.objects (made s loop);
        others = get_elem?-before s.objects (made s loop);
        same_about = λ j ne. about-post_other j s.posted f ne;
        same_find = λ j ne. rw v.count (find-insert_other s.connections s.name n j n ne);
        fits = record {
          stage = fresh;
          named = rw v.count refl;
          waits = about-post_self n s.posted f refl ∙ rw nothing refl;
          mapped = rw v.count (find-insert_self s.connections (conn_name s.name (suc n)) n);
          reads = refl;
          told = refl;
          in_state = refl;
        };
      })
      v

new_connection-IsValid : (s s' : TcpServer) → IsValid s → new_connection s ≡ some s' → IsValid s'
unfolding new_connection
new_connection-IsValid s s' v e =
    let (next, e1, rest) =
      >>=-eq-some (if ltb (s.next_conn_id + 1) (2 ^ 31) then some (s.next_conn_id + 1) else none) _
        e in
    let same : next ≡ s.next_conn_id + 1 = ground (arith, e1) in
    let (io_loop, e2, last) = >>=-eq-some (get_next_loop s.thread_pool) _ rest in
    let run =
      run_in_loop-IsValid s.thread_pool.base_loop io_loop.0 establish (length s.objects)
        (made s io_loop.0) (entered s io_loop.0 io_loop.1) (entered-IsValid s io_loop.0 io_loop.1 v)
        (get_elem?-last s.objects (made s io_loop.0)) in
    let equal : run_in_loop s.thread_pool.base_loop io_loop.0 establish (length s.objects)
          (made s io_loop.0) (entered s io_loop.0 io_loop.1)
        ≡ s' =
      cc (rw same at last) in
    rw (← equal) run

Step-IsValid : {s t : TcpServer} → IsValid s → Step s t → IsValid t
Step-IsValid {s = s} v (accepts s' e) = new_connection-IsValid s s' v e
Step-IsValid {s = s} v (ends i c there reading) = handle_close-IsValid s i c v there reading
Step-IsValid {s = s} v (runs before after f c e there) =
    execute-IsValid s (before ++ after) f.kind f.conn c v (ready_lem s before after f c v e there)

pub Reach-IsValid : {s t : TcpServer} → IsValid s → Reach s t → IsValid t
Reach-IsValid v stay = v
Reach-IsValid v (later r h) = Step-IsValid (Reach-IsValid v r) h

-- A server without connections.
abbrev pub constructed : Bytes → ThreadPool ℕ → TcpServer
constructed name pool = record {
  name = name;
  started = true;
  listening = true;
  thread_pool = pool;
  next_conn_id = 1;
  objects = [];
  connections = [];
  posted = [];
}

constructed-IsValid : (name : Bytes) (pool : ThreadPool ℕ) → IsValid (constructed name pool)
constructed-IsValid name pool = record {
  count = refl;
  quiet = λ i h. about-nil i;
  fits = λ i c e. cc e;
}

-- From a server without connections, through any accepted connections, ends of connections and runs
-- of the functors that wait, in any order: every connection is at one of five stages. It has its own
-- name, and the map has it from its acceptance until it is removed and not after that; its callback
-- has been told that it is up once when it is established, and that it is down once when it is
-- destroyed; and just one functor waits for it in a loop when it is fresh, ended or removed, and none
-- when it is up or gone.
pub Reach-Fits :
    (name : Bytes) (pool : ThreadPool ℕ) (s : TcpServer) (i : ℕ) (c : Conn)
    → Reach (constructed name pool) s
    → get_elem? s.objects i ≡ some c
    → Fits s i c
Reach-Fits name pool s i c r e = (Reach-IsValid (constructed-IsValid name pool) r).fits i c e
