-- ===== src/Fixtures/Small.antt =====
-- A file of one block, what the client sends for it, and messages in two pieces, for the witnesses.
use mini_distributed_storage.Base.{
  ℕ, ◌≡◌, refl, ◌∙◌, ap, false, some, List, [], ◌∷◌, ◌++◌, append-nil, Bytes, codes, length, arith,
  length-append, take, drop, take-append-drop,
}
use mini_distributed_storage.Wire.{htonl, length-htonl}
use mini_distributed_storage.Wire.Pieces.{joined}
use mini_distributed_storage.Client.{
  File, block_count, file, init_file, send_file_block_md5info, send_file_block, send_block_file,
}
use mini_distributed_storage.Client.Messages.{stream}
use mini_distributed_storage.Fixtures.{length_digest, block}

abbrev pub small : File
small = record {
  content = block;
  block_num = 1;
  block_file_list = record { block_size = 10; id = 0; offset = 0 } ∷ [];
  upload_id = false ∷ [];
}

pub small-file : file block ≡ some small
unfolding file block_count init_file
small-file = refl

abbrev pub path : Bytes
path = codes "/home/photo"

abbrev pub md5_bytes : Bytes
md5_bytes = stream (send_file_block_md5info length_digest block small.block_file_list)

abbrev pub block_bytes : Bytes
block_bytes = stream (send_file_block block small.block_file_list small.upload_id)

pub length-block_bytes : length block_bytes ≡ 18
unfolding stream send_file_block send_block_file
length-block_bytes = omega (
  arith,
  length-append (htonl 10) (htonl 0 ++ (block ++ [])),
  length-append (htonl 0) (block ++ []),
  length-htonl 10,
  length-htonl 0,
)

-- A message in two pieces.
abbrev pub cut_at : ℕ → Bytes → List Bytes
cut_at n m = take n m ∷ drop n m ∷ []

pub joined-cut_at : (n : ℕ) (m : Bytes) → joined (cut_at n m) ≡ m
joined-cut_at n m = ap (λ zs. take n m ++ zs) (append-nil (drop n m)) ∙ take-append-drop n m
