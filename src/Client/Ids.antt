-- ===== src/Client/Ids.antt =====
-- The ids of the uploaded blocks, from the coordinator's `getuploadId` to the client's
-- `updateuploadId`.
use mini_distributed_storage.Base.{
  ℕ, suc, ◌*◌, ◌^◌, ◌<◌, ◌≡◌, refl, ◌∙◌, Bool, true, false, some, List, [], ◌∷◌, ◌++◌, append_assoc,
  append-nil, Bytes, length, length-append, take_all, replicate, set_at, int_rounds, take, arith,
  ◌+◌, ◌≤◌, ltb, ◌==◌,
}
use mini_distributed_storage.Decimal.{to_string, atoi}
use mini_distributed_storage.Decimal.RoundTrip.{
  IsDigits, to_string-IsDigits, atoi-to_string, length-to_string,
}
use mini_distributed_storage.FileValue.{FileValue, id_string, get_upload_id}
use mini_distributed_storage.FileValue.Flags.{IsValid, int_rounds_lem}
use mini_distributed_storage.Client.{File, set_id, mark_ids, update_ids, update_upload_id}

-- A number and its ':' mark one block.
pub mark_ids-digits :
    (ds tmp rest : Bytes) (flags marked : List Bool)
    → IsDigits ds
    → set_id flags (atoi (tmp ++ ds)) ≡ some marked
    → mark_ids tmp (ds ++ b':' ∷ rest) flags ≡ mark_ids [] rest marked
unfolding mark_ids
mark_ids-digits [] tmp rest flags marked h e =
    let e' : set_id flags (atoi tmp) ≡ some marked = rw (append-nil tmp) at e in rw (e', mark_ids)
mark_ids-digits (c ∷ ds) tmp rest flags marked h e =
    let other : (c == b':') ≡ false = ground (arith, h.0) in
    let e' : set_id flags (atoi ((tmp ++ c ∷ []) ++ ds)) ≡ some marked =
      rw (append_assoc tmp (c ∷ []) ds) e in
    rw (other, mark_ids) (mark_ids-digits ds (tmp ++ c ∷ []) rest flags marked h.1 e')

set_at-middle :
    (pre : List Bool) (b : Bool) (post : List Bool)
    → set_at (pre ++ b ∷ post) (length pre) true ≡ some (pre ++ true ∷ post)
set_at-middle [] b post = refl
set_at-middle (p ∷ pre) b post = rw (set_at-middle pre b post)

-- The number `n` and its ':' mark the flag behind `n` others.
mark_ids-to_string :
    (pre : List Bool) (b : Bool) (post : List Bool) (rest : Bytes)
    → length pre < 2 ^ 31
    → mark_ids [] (to_string (length pre) ++ b':' ∷ rest) (pre ++ b ∷ post)
      ≡ mark_ids [] rest (pre ++ true ∷ post)
mark_ids-to_string pre b post rest h =
    let small : ltb (length pre) (2 ^ 31) ≡ true = ground arith in
    let mark : set_id (pre ++ b ∷ post) (atoi (to_string (length pre)))
        ≡ some (pre ++ true ∷ post) =
      rw (atoi-to_string (length pre), small) (set_at-middle pre b post) in
    mark_ids-digits (to_string (length pre)) [] rest (pre ++ b ∷ post) (pre ++ true ∷ post)
      (to_string-IsDigits (length pre)) mark

-- One flag more in front.
length-snoc : (pre : List Bool) (b : Bool) → length (pre ++ b ∷ []) ≡ suc (length pre)
length-snoc pre b = omega (arith, length-append pre (b ∷ []))

-- The ids of `flags` set just these flags behind `pre`.
pub mark_ids-id_string :
    (flags pre : List Bool)
    → length pre + length flags ≤ 2 ^ 31
    → mark_ids [] (id_string (length pre) flags) (pre ++ replicate (length flags) false)
      ≡ some (pre ++ flags)
unfolding id_string mark_ids
mark_ids-id_string [] pre h = refl
mark_ids-id_string (true ∷ flags) pre h =
    let rest =
      rw
        (
          length-snoc pre true,
          append_assoc pre (true ∷ []) (replicate (length flags) false),
          append_assoc pre (true ∷ []) flags,
        )
        at (mark_ids-id_string flags (pre ++ true ∷ []) (omega (arith, h, length-snoc pre true))) in
    mark_ids-to_string pre false (replicate (length flags) false)
      (id_string (suc (length pre)) flags) (omega (arith, h))
    ∙ rest
mark_ids-id_string (false ∷ flags) pre h =
    rw
      (
        length-snoc pre false,
        append_assoc pre (false ∷ []) (replicate (length flags) false),
        append_assoc pre (false ∷ []) flags,
      )
      at (mark_ids-id_string flags (pre ++ false ∷ []) (omega (arith, h, length-snoc pre false)))

-- The ids of few blocks make a short text.
pub length-id_string :
    (i : ℕ) (flags : List Bool)
    → i + length flags ≤ 4096
    → length (id_string i flags) ≤ length flags * 4098
unfolding id_string
length-id_string i [] h = omega arith
length-id_string i (true ∷ flags) h = omega (
  arith,
  h,
  length-append (to_string i) (b':' ∷ id_string (suc i) flags),
  length-to_string i,
  length-id_string (suc i) flags (omega (arith, h)),
)
length-id_string i (false ∷ flags) h =
    omega (arith, h, length-id_string (suc i) flags (omega (arith, h)))

-- A text of fewer than 2^31 characters is read to its end.
pub update_ids-mark_ids :
    (text : Bytes) (flags : List Bool)
    → length text < 2 ^ 31
    → update_ids text flags ≡ mark_ids [] text flags
update_ids-mark_ids text flags h =
    rw (int_rounds_lem (length text) h, take_all (length text) text (omega arith)) refl

-- For a valid file of fewer than 2^31 blocks, the text of whose ids has fewer than 2^31 characters: a client that knows of no uploaded block and receives
-- the ids of the coordinator knows after `updateuploadId` exactly the blocks that are marked there.
pub update_upload_id-get_upload_id :
    (f : FileValue) (c : File)
    → IsValid f
    → f.block_num < 2 ^ 31
    → length (get_upload_id f) < 2 ^ 31
    → c.upload_id ≡ replicate f.block_num false
    → update_upload_id c (get_upload_id f) ≡ some (record c { upload_id = f.upload_id })
unfolding update_upload_id get_upload_id
update_upload_id-get_upload_id f c v h fits none_yet =
    let all : take (int_rounds f.block_num) f.upload_id ≡ f.upload_id =
      rw (int_rounds_lem f.block_num h)
        (take_all f.block_num f.upload_id (omega (arith, v.uploads))) in
    let ids = rw v.uploads at (mark_ids-id_string f.upload_id [] (omega (arith, v.uploads, h))) in
    let text = rw all at fits in
    rw (all, none_yet, update_ids-mark_ids (id_string 0 f.upload_id) _ text) (rw ids refl)
