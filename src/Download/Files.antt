-- ===== src/Download/Files.antt =====
-- The files that a storage server sends back as messages, and what `resvBlockFile` makes of one of
-- them.
use mini_distributed_storage.Base.{
  ◌+◌, ◌^◌, ◌≤◌, ◌<◌, ◌≡◌, refl, ap, ◌∙◌, true, false, some, List, [], ◌∷◌, ◌++◌, append_assoc, All,
  Bytes, length, length-append, take, bytes_eq, leb, if◌then◌else◌, Bool, ◌&&◌, add_size,
  Bool-cases, inl, inr, arith,
}
use mini_distributed_storage.Base.Loop.{stop}
use mini_distributed_storage.Base.Slices.{slice-append_left}
use mini_distributed_storage.Buffer.{Buffer, readable_bytes, retrieve}
use mini_distributed_storage.Buffer.Contents.{Holds, readable-length}
use mini_distributed_storage.Buffer.Growth.{length-retrieve}
use mini_distributed_storage.Wire.{htonl, length-htonl, peek_be32}
use mini_distributed_storage.Wire.Frame.{number_lem, body_lem}
use mini_distributed_storage.Wire.Pieces.{Took, front-Number, Protocol}
use mini_distributed_storage.Md5.{Digest, get_string_md5}
use mini_distributed_storage.Fileproxy.{Fileproxy, ls_file}
use mini_distributed_storage.Upload.{Effect, reply, substr}
use mini_distributed_storage.Download.{
  Download, downstatu3, has_number, file_name, pass_on, check_block, resv_round,
}
use mini_distributed_storage.Download.Blocks.{Empty, pass_on_lem, substr_behind, resv_round-passes}

-- A file of a storage server: its name and its bytes.
abbrev pub Stored : Type 0
Stored = Bytes × Bytes

-- The name has the 36 characters that the coordinator expects, and the size 32 bits.
abbrev pub Fits : Stored → Type 0
Fits (name, content) = (length name ≡ 36) × (length content < 2 ^ 32)

-- The message of a file.
abbrev pub stored_message : Stored → Bytes
stored_message (name, content) = htonl (length content) ++ (name ++ content)

unfoldable pub stored_messages : List Stored → Bytes
stored_messages [] = []
stored_messages (x ∷ xs) = stored_message x ++ stored_messages xs

module _ (d : Digest) where
  -- Whether a file is passed on: "kvmap_2.txt" is in the map, and the name begins with the digest.
  abbrev pub is_delivered : Fileproxy → Stored → Bool
  is_delivered files (name, content) =
      ls_file files file_name && bytes_eq (get_string_md5 d content) (take 32 name)

  -- What the client is sent for a file: its size and bytes.
  unfoldable pub delivered : Fileproxy → Stored → List Effect
  delivered files (name, content) =
      if is_delivered files (name, content)
      then reply (htonl (length content) ++ content) ∷ []
      else []

  unfoldable pub deliveries : Fileproxy → List Stored → List Effect
  deliveries files [] = []
  deliveries files (x ∷ xs) = delivered files x ++ deliveries files xs

  module _ (files : Fileproxy) where
    check_block-decides :
        (w : Download) (name content : Bytes)
        → length name ≡ 36
        → check_block d files w (name ++ content)
          ≡ (if is_delivered files (name, content) then pass_on w content else some w)
    unfolding check_block
    check_block-decides w name content h =
        let behind = substr_behind name content 36 h in
        let front : substr (name ++ content) 0 32 ≡ some (take 32 name) =
          ground (arith, slice-append_left name 0 32 content) in
        rw (behind, front) refl

    -- The state between two messages: `Bloc` is empty, and what the client has been sent, with what
    -- the files still expected give, is `total`.
    pub record Expects (total : List Effect) (xs : List Stored) (w : Download) : Type 0 where
      pub fit : All Fits xs
      pub empty : Empty w.bloc
      pub status : w.down_statu ≡ downstatu3
      pub sums : w.sent ++ deliveries files xs ≡ total

    passed :
        (total : List Effect) (name content : Bytes) (xs : List Stored) (w : Download)
        → Expects total ((name, content) ∷ xs) w
        → (w' : Download) × (check_block d files w (name ++ content) ≡ some w')
          × (w'.buf ≡ w.buf)
          × Expects total xs w'
    unfolding deliveries delivered
    passed total name content xs w i =
        let decides = check_block-decides w name content i.fit.0.0 in
        let (e, sent, empty) = pass_on_lem w content i.empty (omega (arith, i.fit.0.1)) in
        elim (Bool-cases (is_delivered files (name, content))) [
          | inl good ↦ (
            record w { bloc = e; sent = w.sent ++ reply (htonl (length content) ++ content) ∷ [] },
            decides ∙ rw good sent,
            refl,
            record {
              fit = i.fit.1;
              empty = empty;
              status = i.status;
              sums =
                  append_assoc w.sent (reply (htonl (length content) ++ content) ∷ [])
                    (deliveries files xs)
                  ∙ (rw good at i.sums);
            },
          )
          | inr bad ↦ (
            w,
            decides ∙ rw bad refl,
            refl,
            record { fit = i.fit.1; empty = i.empty; status = i.status; sums = rw bad at i.sums },
          )
        ]

    length-stored_message : (x : Stored) → length (stored_message x) ≡ 4 + (length x.0 + length x.1)
    length-stored_message (name, content) = omega (
      arith,
      length-append (htonl (length content)) (name ++ content),
      length-append name content,
      length-htonl (length content),
    )

    pub takes_file :
        (total : List Effect) (name content : Bytes) (xs : List Stored) (w : Download)
        (rest : Bytes)
        → Expects total ((name, content) ∷ xs) w
        → Holds w.buf (stored_message (name, content) ++ rest)
        → Took (λ (v : Download). v.buf) (resv_round d files) (Expects total) xs w rest
    takes_file total name content xs w rest i k =
        let n = length content in
        let front : Holds w.buf (htonl n ++ ((name ++ content) ++ rest)) =
          rw (append_assoc (htonl n) (name ++ content) rest) at k in
        let num = number_lem w.buf n ((name ++ content) ++ rest) i.fit.0.1 front in
        let body = body_lem (retrieve w.buf 4) (name ++ content) rest num.behind in
        let same : add_size 36 n ≡ length (name ++ content) =
          omega (arith, length-append name content, i.fit.0) in
        let fits : leb (add_size 40 n) (readable_bytes w.buf) ≡ true =
          ground (arith, num.available, same, length-append (name ++ content) rest, i.fit.0.1) in
        let c = retrieve (retrieve w.buf 4) (length (name ++ content)) in
        let (w', checked, keeps, expects) =
          passed total name content xs (record w { buf = c })
            (record { fit = i.fit; empty = i.empty; status = i.status; sums = i.sums }) in
        record {
          after = w';
          round = inl (
              resv_round-passes d files w w' n c (name ++ content) num.value fits
                (rw same body.taken) checked);
          kept = expects;
          behind = rw keeps body.behind;
          same_size =
              ap (λ (b : Buffer). length b.buffer) keeps
              ∙ length-retrieve (retrieve w.buf 4) (length (name ++ content))
              ∙ length-retrieve w.buf 4;
        }

    pub waits_file :
        (x : Stored) (w : Download) (held q : Bytes)
        → Fits x
        → Holds w.buf held
        → held ++ q ≡ stored_message x
        → 4 ≤ length held
        → length held < length (stored_message x)
        → resv_round d files w ≡ some (stop w)
    unfolding resv_round
    waits_file (name, content) w held q fit k e four short =
        let n = length content in
        let (rest, num) = front-Number w.buf n held q (name ++ content) fit.1 k e four in
        let value : peek_be32 w.buf ≡ some n = num.value in
        let over : leb (add_size 40 n) (readable_bytes w.buf) ≡ false =
          ground (arith, readable-length k, length-stored_message (name, content), fit.0, fit.1) in
        rw (value, over) refl

    pub long_message : (x : Stored) → 4 ≤ length (stored_message x)
    long_message x = omega (arith, length-stored_message x)

    pub no_number : (w : Download) → Holds w.buf [] → has_number w ≡ false
    no_number w k = ground (arith, readable-length k)

    pub put_buffer :
        (total : List Effect) (xs : List Stored) (w : Download) (b : Buffer)
        → Expects total xs w
        → Expects total xs (record w { buf = b })
    put_buffer total xs w b i = record {
      fit = i.fit;
      empty = i.empty;
      status = i.status;
      sums = i.sums;
    }

    -- `resvBlockFile` on the files that a storage server sends.
    abbrev pub files_protocol : List Effect → Protocol Download Stored
    files_protocol total = record {
      buf = λ w. w.buf;
      put = λ w b. record w { buf = b };
      test = has_number;
      body = resv_round d files;
      msg = stored_message;
      Inv = Expects total;
      buf-put = λ w b. refl;
      Inv-put = put_buffer total;
      long = long_message;
      asks = λ x xs w i. refl;
      over = λ w i k. no_number w k;
      waits = λ x xs w held q i k e four short. waits_file x w held q i.fit.0 k e four short;
      takes = λ x xs w rest i k. takes_file total x.0 x.1 xs w rest i k;
    }
