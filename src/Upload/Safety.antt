-- ===== src/Upload/Safety.antt =====
-- What the marks of an upload mean, whatever bytes a client sends: a block is marked only if a block
-- with the announced digest went to a storage server, and the client is told "success" only when all
-- blocks are marked.
use mini_distributed_storage.Base.{
  ℕ, ◌%◌, ◌^◌, ◌<◌, ◌≤◌, ◌≡◌, refl, sym, ap, ◌∙◌, ◌⊎◌, inl, inr, Bool, true, some, List, [], ◌∷◌,
  ◌++◌, Bytes, length, get_elem?, set, set_at, set_at_inv, length-set, get_elem?-set_ne,
  >>=-eq-some, arith, ℕ_discrete, size_of_int,
}
use mini_distributed_storage.Base.Slices.{length-slice}
use mini_distributed_storage.Buffer.{Buffer, peek, read_as_block}
use mini_distributed_storage.Md5.{Digest, get_string_md5, length-get_string_md5, convert_md5_to_int}
use mini_distributed_storage.FileValue
use mini_distributed_storage.FileValue.{FileValue, set_upload_id}
use mini_distributed_storage.FileValue.Flags.{IsValid, IsUploaded}
use mini_distributed_storage.Fileproxy.{find}
use mini_distributed_storage.Fileproxy.Lookup.{find-insert_self}
use mini_distributed_storage.Upload.{
  Server, State, Effect, forward, upstatu3, upstatu4, accept_block,
}
use mini_distributed_storage.Upload.Block.{storage_frame_lem, storage_frame-int}
use mini_distributed_storage.Upload.Steps.{Accepted, accept_block_inv}

-- The message is among those sent.
abbrev pub Sends : Effect → List Effect → Type 0
Sends e [] = ⊥
Sends e (x ∷ xs) = (x ≡ e) ⊎ Sends e xs

Sends-append_left : (e : Effect) (xs ys : List Effect) → Sends e xs → Sends e (xs ++ ys)
Sends-append_left e [] ys h = elim h [ ]
Sends-append_left e (x ∷ xs) ys (inl h) = inl h
Sends-append_left e (x ∷ xs) ys (inr h) = inr (Sends-append_left e xs ys h)

Sends-append_last : (e : Effect) (xs : List Effect) → Sends e (xs ++ e ∷ [])
Sends-append_last e [] = inl refl
Sends-append_last e (x ∷ xs) = inr (Sends-append_last e xs)

-- A block with the digest announced for index `i` went to the storage server of that digest, behind
-- some prefix `be32`.
pub record Forwarded (d : Digest) (f : FileValue) (i : ℕ) (sent : List Effect) : Type 0 where
  pub block : Bytes
  pub be32 : Bytes
  pub announced : get_elem? f.block_file_md5 i ≡ some (get_string_md5 d block)
  pub message :
      Sends
        (forward
          (convert_md5_to_int (get_string_md5 d block) % 3)
          (be32 ++ (get_string_md5 d block ++ block)))
        sent

-- How far the upload of the file `f0` under the name `k` has come.
pub record Progress (d : Digest) (k : Bytes) (f0 : FileValue) (s : Server) : Type 0 where
  pub file : FileValue
  pub found : find s.g_file k ≡ some file
  pub valid : IsValid file
  pub same_num : file.block_num ≡ f0.block_num
  pub same_md5s : file.block_file_md5 ≡ f0.block_file_md5
  pub backed : (i : ℕ) → IsUploaded file i → IsUploaded f0 i ⊎ Forwarded d f0 i s.sent

pub Forwarded-more :
    (d : Digest) (f : FileValue) (i : ℕ) (xs ys : List Effect)
    → Forwarded d f i xs
    → Forwarded d f i (xs ++ ys)
Forwarded-more d f i xs ys h = record {
  block = h.block;
  be32 = h.be32;
  announced = h.announced;
  message = Sends-append_left _ xs ys h.message;
}

pub length-peek : (b : Buffer) (n : ℕ) (xs : Bytes) → peek b n ≡ some xs → length xs ≡ n
unfolding peek
length-peek b n xs e = ground (arith, length-slice b.reader_index n b.buffer)

pub length-read :
    (b : Buffer) (n : ℕ) (r : Bytes × Buffer)
    → read_as_block b n ≡ some r
    → (length r.0 ≡ n) × (n ≤ length b.buffer)
unfolding read_as_block peek
length-read b n r e = ground (arith, length-slice b.reader_index n b.buffer)

set_upload_id_inv :
    (f : FileValue) (id : ℕ) (g : FileValue)
    → set_upload_id f id ≡ some g
    → (size_of_int id < length f.upload_id)
      × (g ≡ record f { upload_id = set f.upload_id (size_of_int id) true })
unfolding set_upload_id
set_upload_id_inv f id g e =
    let (xs, e1, rest) = >>=-eq-some (set_at f.upload_id (size_of_int id) true) _ e in
    let (inside, same) = set_at_inv f.upload_id (size_of_int id) true xs e1 in
    (inside, ground (arith, rest, same))

-- The marks after one more block.
mark-backed :
    (d : Digest) (f0 old : FileValue) (n : ℕ) (before : List Effect) (e : Effect)
    → Forwarded d f0 n (before ++ e ∷ [])
    → ((i : ℕ) → IsUploaded old i → IsUploaded f0 i ⊎ Forwarded d f0 i before)
    → (i : ℕ) → get_elem? (set old.upload_id n true) i ≡ some true
    → IsUploaded f0 i ⊎ Forwarded d f0 i (before ++ e ∷ [])
mark-backed d f0 old n before e now h i up = elim (ℕ_discrete n i) [
  | yes same ↦ inr (rw (← same) now)
  | no other ↦ elim (h i (sym (get_elem?-set_ne old.upload_id n i true other) ∙ up)) [
    | inl was ↦ inl was
    | inr sent ↦ inr (Forwarded-more d f0 i before (e ∷ []) sent)
  ]
]

module _ (d : Digest) (k : Bytes) (f0 : FileValue) (s : Server) (p : Progress d k f0 s) where
  Accepted-Progress :
      (s' : Server) (be32 : Bytes) (size id : ℕ) (block : Bytes)
      → s.g_file_name ≡ k
      → length be32 ≡ 4
      → length block ≡ size
      → Accepted d s s' be32 size id block
      → Progress d k f0 s'
  unfolding FileValue.get_block_file_md5
  Accepted-Progress s' be32 size id block name four long a =
      let md5 = get_string_md5 d block in
      let n = size_of_int id in
      let same : a.old ≡ p.file = cc (a.found, p.found, name) in
      let (inside, marked) = set_upload_id_inv a.old id a.new a.marked in
      let framed : a.frame ≡ be32 ++ (md5 ++ block) = ground (
        arith,
        long,
        a.framed,
        storage_frame_lem be32 md5 block four (length-get_string_md5 d block)
            (omega (arith, long, storage_frame-int be32 md5 block a.frame size a.framed)),
      ) in
      let here : find s'.g_file k ≡ some a.new =
        ground (arith, a.after, name, find-insert_self s.g_file k a.new) in
      let e = forward (convert_md5_to_int md5 % 3) a.frame in
      let sent_eq : s'.sent ≡ s.sent ++ e ∷ [] = ap (λ (t : Server). t.sent) a.after in
      let flags : a.new.upload_id ≡ set p.file.upload_id n true = ground (arith, marked, same) in
      let now : Forwarded d f0 n (s.sent ++ e ∷ []) = record {
        block = block;
        be32 = be32;
        announced = ground (arith, a.matches, same, p.same_md5s);
        message = rw framed (Sends-append_last _ s.sent);
      } in
      record {
        file = a.new;
        found = here;
        valid = ground (arith, marked, same, p.valid, length-set p.file.upload_id n true);
        same_num = ground (arith, marked, same, p.same_num);
        same_md5s = ground (arith, marked, same, p.same_md5s);
        backed = λ i up. rw sent_eq (
            mark-backed d f0 p.file n s.sent e now p.backed i
              (sym (ap (λ (xs : List Bool). get_elem? xs i) flags) ∙ up));
      }

-- The same for the whole state of the loop, `c` being the buffer.
pub record Going (d : Digest) (k : Bytes) (f0 : FileValue) (st : State) : Type 0 where
  pub name : st.0.g_file_name ≡ k
  pub status : st.0.up_statu ≡ upstatu3
  pub bounded : length st.1.buffer < 2 ^ 62
  pub progress : Progress d k f0 st.0

-- What holds when the loop has ended.
pub record Received (d : Digest) (k : Bytes) (f0 : FileValue) (s : Server) : Type 0 where
  pub progress : Progress d k f0 s
  pub complete : s.up_statu ≡ upstatu4 → (i : ℕ) → i < f0.block_num → IsUploaded progress.file i

pub accept-Going :
    (d : Digest) (k : Bytes) (f0 : FileValue) (s s' : Server) (b : Buffer) (be32 : Bytes)
    (size id : ℕ) (block : Bytes)
    → Going d k f0 (s, b)
    → length be32 ≡ 4
    → length block ≡ size
    → size < 2 ^ 62
    → accept_block d s be32 size id block ≡ some s'
    → Going d k f0 (s', b)
accept-Going d k f0 s s' b be32 size id block g four long h e =
    elim (accept_block_inv d s s' be32 size id block e) [
      | inl unchanged ↦ rw unchanged g
      | inr a ↦ record {
        name = ground (arith, a.after, g.name);
        status = ground (arith, a.after, g.status);
        bounded = g.bounded;
        progress = Accepted-Progress d k f0 s g.progress s' be32 size id block g.name four long a;
      }
    ]
