-- ===== src/Upload/Marks.antt =====
-- What client and coordinator know of the same file while its blocks are sent.
use mini_distributed_storage.Base.{
  ◌%◌, ℕ, suc, ◌+◌, ◌^◌, ◌<◌, ◌≡◌, refl, ◌∙◌, sym, inl, inr, true, false, Bool, some, List, [], ◌∷◌,
  ◌++◌, Bytes, codes, length, get_elem?, arith, Bool-cases, dec_lt, ◌-◌,
}
use mini_distributed_storage.Buffer.Contents.{Holds}
use mini_distributed_storage.Md5.{Digest, get_string_md5, convert_md5_to_int}
use mini_distributed_storage.FileValue
use mini_distributed_storage.FileValue.{FileValue, all_set}
use mini_distributed_storage.FileValue.Flags.{
  IsValid, IsUploaded, Marked, all_set_sound, all_set_complete, ls_file_finish_iff,
}
use mini_distributed_storage.Fileproxy.{find}
use mini_distributed_storage.Client.{BlockFile, mapped, send_file_block}
use mini_distributed_storage.Client.Messages.{stream}
use mini_distributed_storage.Upload.{State, Effect, reply, forward, upstatu4}
use mini_distributed_storage.Upload.Block.{block_message}

-- The blocks of a client, with the ids from `i` on and the digests that the coordinator has for these
-- ids.
unfoldable pub Announced : Digest → Bytes → List Bytes → ℕ → List BlockFile → Type 0
Announced d content md5s i [] = Unit {0}
Announced d content md5s i (b ∷ bs) =
    (b.id ≡ i)
    × (length (mapped content b) ≡ b.block_size)
    × (36 + b.block_size < 2 ^ 31)
    × (get_elem? md5s i ≡ some (get_string_md5 d (mapped content b)))
    × Announced d content md5s (suc i) bs

-- The coordinator's marks: all before `i`, and the flags from there on.
pub record Synced (f : FileValue) (i : ℕ) (flags : List Bool) : Type 0 where
  pub before : (j : ℕ) → j < i → IsUploaded f j
  pub behind : (j : ℕ) → get_elem? f.upload_id (i + j) ≡ get_elem? flags j
  pub count : f.block_num ≡ i + length flags

-- A bound that grows by one.
pub below_suc : {P : ℕ → Type 0} (i : ℕ) → ((j : ℕ) → j < i → P j) → P i → (j : ℕ) → j < suc i → P j
below_suc {P = P} i before here j h = elim (dec_lt j i) [
  | yes p ↦ before j p
  | no p ↦ let same : j ≡ i = omega arith in rw same here
]

pub Synced-true :
    (f : FileValue) (i : ℕ) (flags : List Bool) → Synced f i (true ∷ flags) → Synced f (suc i) flags
Synced-true f i flags y = record {
  before =
      let same : i + 0 ≡ i = omega arith in
      below_suc {P = IsUploaded f} i y.before (rw same at (y.behind 0));
  behind = λ j. let same : suc i + j ≡ i + suc j = omega arith in rw same (y.behind (suc j));
  count = omega (arith, y.count);
}

pub Synced-Marked :
    (f g : FileValue) (i : ℕ) (flags : List Bool)
    → Synced f i (false ∷ flags)
    → Marked f g i
    → Synced g (suc i) flags
Synced-Marked f g i flags y m = record {
  before =
      below_suc {P = IsUploaded g} i (λ j h. m.others j (λ e. omega (arith, e, h)) ∙ y.before j h)
        m.marked;
  behind = λ j.
      let same : suc i + j ≡ i + suc j = omega arith in
      m.others (suc i + j) (λ e. omega (arith, e)) ∙ rw same (y.behind (suc j));
  count = omega (arith, y.count, m.same_num);
}

-- Marks up to the end are a complete file.
pub Synced-complete :
    (g : FileValue) (i : ℕ) (flags : List Bool)
    → Synced g i flags
    → all_set flags ≡ true
    → (j : ℕ) → j < g.block_num
    → IsUploaded g j
Synced-complete g i flags y all j h = elim (dec_lt j i) [
  | yes p ↦ y.before j p
  | no p ↦
      let same : j ≡ i + (j - i) = omega arith in
      rw same (y.behind (j - i) ∙ all_set_sound flags all (j - i) (omega (arith, y.count)))
]

pub finish-all_set :
    (g : FileValue) (i : ℕ) (flags : List Bool)
    → IsValid g
    → g.block_num < 2 ^ 31
    → Synced g i flags
    → FileValue.ls_file_finish g ≡ all_set flags
finish-all_set g i flags v small y = elim (Bool-cases (FileValue.ls_file_finish g)) [
  | inl finished ↦
      let up = (ls_file_finish_iff g v small).0 finished in
      let all : all_set flags ≡ true =
        all_set_complete flags (λ j h. sym (y.behind j) ∙ up (i + j) (omega (arith, y.count))) in
      rw (finished, all) refl
  | inr unfinished ↦ elim (Bool-cases (all_set flags)) [
    | inl all ↦ cc (unfinished, (ls_file_finish_iff g v small).1 (Synced-complete g i flags y all))
    | inr some_left ↦ rw (unfinished, some_left) refl
  ]
]

-- The end of an upload: the file under the name is complete; behind the effects `before` the client is
-- told so; and the input is used up.
pub record Completed (name : Bytes) (before : List Effect) (r : State) : Type 0 where
  pub status : r.0.up_statu ≡ upstatu4
  pub file : FileValue
  pub found : find r.0.g_file name ≡ some file
  pub complete : (i : ℕ) → i < file.block_num → IsUploaded file i
  pub told : r.0.sent ≡ before ++ reply (codes "success") ∷ []
  pub behind : Holds r.1 []

-- Behind the last flag that is not set, nothing is sent.
pub sent_none :
    (content : Bytes) (bs : List BlockFile) (flags : List Bool)
    → all_set flags ≡ true
    → stream (send_file_block content bs flags) ≡ []
unfolding send_file_block all_set stream
sent_none content [] flags h = refl
sent_none content (b ∷ bs) [] h = refl
sent_none content (b ∷ bs) (true ∷ flags) h = sent_none content bs flags h
sent_none content (b ∷ bs) (false ∷ flags) h = cc

-- The messages to the storage servers for the blocks whose flag is not set, in order: each block, with
-- its digest, to the server that the digest selects.
unfoldable pub forwards : Digest → Bytes → List BlockFile → List Bool → List Effect
forwards d content [] flags = []
forwards d content (b ∷ bs) [] = []
forwards d content (b ∷ bs) (true ∷ flags) = forwards d content bs flags
forwards d content (b ∷ bs) (false ∷ flags) =
    let md5 = get_string_md5 d (mapped content b) in
    forward (convert_md5_to_int md5 % 3) (block_message md5 (mapped content b))
    ∷ forwards d content bs flags

pub forwards_none :
    (d : Digest) (content : Bytes) (bs : List BlockFile) (flags : List Bool)
    → all_set flags ≡ true
    → forwards d content bs flags ≡ []
unfolding forwards all_set
forwards_none d content [] flags h = refl
forwards_none d content (b ∷ bs) [] h = refl
forwards_none d content (b ∷ bs) (true ∷ flags) h = forwards_none d content bs flags h
forwards_none d content (b ∷ bs) (false ∷ flags) h = cc
