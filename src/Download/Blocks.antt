-- ===== src/Download/Blocks.antt =====
-- A block that a storage server sends back goes on to the client.
use mini_distributed_storage.Base.{
  ℕ, ◌^◌, ◌<◌, ◌≡◌, refl, true, some, [], ◌∷◌, ◌++◌, Bytes, length, length-append, take_all,
  drop-append_self, leb, add_size, arith,
}
use mini_distributed_storage.Base.Loop.{next}
use mini_distributed_storage.Buffer.{
  Buffer, readable_bytes, read_as_block, retrieve, retrieve_all, cheap_prepend,
}
use mini_distributed_storage.Buffer.Contents.{
  Holds, Holds-append, reader-append, prepend_lem, read_as_string_lem, retrieve_all-Holds,
}
use mini_distributed_storage.Wire.{htonl, length-htonl, peek_be32}
use mini_distributed_storage.Md5.{Digest}
use mini_distributed_storage.Fileproxy.{Fileproxy}
use mini_distributed_storage.Upload.{reply, substr}
use mini_distributed_storage.Download.{Download, pass_on, check_block, resv_round}

-- `Bloc` between two blocks: empty, with its indices at the start.
pub record Empty (b : Buffer) : Type 0 where
  pub nothing : Holds b []
  pub front : b.reader_index ≡ cheap_prepend
  pub back : b.writer_index ≡ cheap_prepend

pub retrieve_all-Empty : {b : Buffer} {xs : Bytes} → Holds b xs → Empty (retrieve_all b)
unfolding retrieve_all
retrieve_all-Empty h = record {
  nothing = unfold retrieve_all in retrieve_all-Holds h;
  front = refl;
  back = refl;
}

-- The message to the client is the length of the block and its bytes.
pub pass_on_lem :
    (w : Download) (content : Bytes)
    → Empty w.bloc
    → length content < 2 ^ 62
    → (e : Buffer) × (pass_on w content
        ≡ some (record w {
          bloc = e;
          sent = w.sent ++ reply (htonl (length content) ++ content) ∷ [];
        }))
      × Empty e
unfolding pass_on
pass_on_lem w content m h =
    let b1 = Holds-append content m.nothing (omega (arith, m.back)) in
    let r1 = reader-append w.bloc content m.front in
    let (c, e, b2) =
      prepend_lem b1 (htonl (length content)) (omega (arith, r1, length-htonl (length content))) in
    (retrieve_all c, rw (e, read_as_string_lem b2) refl, retrieve_all-Empty b2)

pub substr_behind :
    (name block : Bytes) (n : ℕ)
    → length name ≡ n
    → substr (name ++ block) n (length (name ++ block)) ≡ some block
substr_behind name block n e = rw (← e) (
    ground (
      arith,
      length-append name block,
      drop-append_self name block,
      take_all (length (name ++ block)) block,
    ))

module _ (d : Digest) (files : Fileproxy) where
  pub resv_round-passes :
      (w w' : Download) (n : ℕ) (c : Buffer) (content : Bytes)
      → peek_be32 w.buf ≡ some n
      → leb (add_size 40 n) (readable_bytes w.buf) ≡ true
      → read_as_block (retrieve w.buf 4) (add_size 36 n) ≡ some (content, c)
      → check_block d files (record w { buf = c }) content ≡ some w'
      → resv_round d files w ≡ some (next w')
  unfolding resv_round
  resv_round-passes w w' n c content e1 e2 e3 e4 = rw (e1, e2, e3, e4)
