-- ===== src/Transfer/Again.antt =====
-- A file that is uploaded again to storage servers that have kept it: `saveBlockFile` of
-- storageServer/saveFile_0/src/upLoad.h opens the files of its blocks with `std::ios::app`.
use mathlib.Core.List.{Mem, map, Pairwise-cons, mem-cons_self, mem-cons_of_mem}
use mini_distributed_storage.Base.{
  ◌≡◌, ◌≢◌, refl, sym, ap, ◌∙◌, true, false, Option, List, [], ◌∷◌, ◌++◌, append_assoc, All, Bytes,
  codes, length, take, drop, take-append_self, drop-append_self, take-append-drop, bytes_eq,
  bytes_eq_iff, bytes_eq_refl, Bool-cases, inl, inr, arith,
}
use mini_distributed_storage.Buffer.{Buffer}
use mini_distributed_storage.Md5.{Digest, get_string_md5}
use mini_distributed_storage.Storage.{Storage, Disk, Entry, append_to}
use mini_distributed_storage.Download.Files
use mini_distributed_storage.Download.Files.{delivered, deliveries}
use mini_distributed_storage.Transfer.Batch.{disk_after}
use mini_distributed_storage.Transfer.Directory.{
  files_under, block_file, front, Apart, All-end, block_path-ne,
}
use mini_distributed_storage.Transfer.Stored.{Stored}

-- A path below a directory is that of the directory and the rest.
below_lem :
    (dir q name : Bytes)
    → bytes_eq (take (length dir) q) dir ≡ true
    → bytes_eq q (dir ++ name) ≡ bytes_eq (drop (length dir) q) name
below_lem dir q name h =
    let whole : dir ++ drop (length dir) q ≡ q =
      ap (λ p. p ++ drop (length dir) q) (sym ((bytes_eq_iff (take (length dir) q) dir).0 h))
      ∙ take-append-drop (length dir) q in
    elim (Bool-cases (bytes_eq (drop (length dir) q) name)) [
      | inl same ↦
          let e = (bytes_eq_iff (drop (length dir) q) name).0 same in
          (bytes_eq_iff q (dir ++ name)).1 (sym whole ∙ ap (λ p. dir ++ p) e) ∙ sym same
      | inr other ↦ elim (Bool-cases (bytes_eq q (dir ++ name))) [
        | inl equal ↦
            let e =
              ap (drop (length dir)) ((bytes_eq_iff q (dir ++ name)).0 equal)
              ∙ drop-append_self dir name in
            let same = (bytes_eq_iff (drop (length dir) q) name).1 e in cc (same, other)
        | inr unequal ↦ unequal ∙ sym other
      ]
    ]

-- Appending to a file of a directory appends to it there.
files_under-append_to :
    (dir name bytes : Bytes) (disk : Disk)
    → files_under dir (append_to disk (dir ++ name) bytes)
      ≡ append_to (files_under dir disk) name bytes
unfolding files_under append_to
files_under-append_to dir name bytes [] =
    rw (take-append_self dir name, drop-append_self dir name, bytes_eq_refl dir) refl
files_under-append_to dir name bytes ((q, c) ∷ disk) =
    let later = files_under-append_to dir name bytes disk in
    elim (Bool-cases (bytes_eq (take (length dir) q) dir)) [
      | inl below ↦ ground (arith, below, below_lem dir q name below, later)
      | inr other ↦
          let apart : bytes_eq q (dir ++ name) ≡ false =
            elim (Bool-cases (bytes_eq q (dir ++ name))) [
              | inl equal ↦
                  let e =
                    ap (take (length dir)) ((bytes_eq_iff q (dir ++ name)).0 equal)
                    ∙ take-append_self dir name in
                  let below = (bytes_eq_iff (take (length dir) q) dir).1 e in cc (below, other)
              | inr unequal ↦ unequal
            ] in
          ground (arith, other, apart, later)
    ]

-- A file behind others.
append_to-behind :
    (fs gs : Disk) (name c bytes : Bytes)
    → All (λ f. f.0 ≢ name) fs
    → append_to (fs ++ (name, c) ∷ gs) name bytes ≡ fs ++ (name, c ++ bytes) ∷ gs
unfolding append_to
append_to-behind [] gs name c bytes h = rw (bytes_eq_refl name) refl
append_to-behind ((q, x) ∷ fs) gs name c bytes h = elim (Bool-cases (bytes_eq q name)) [
  | inl same ↦ absurd (h.0 ((bytes_eq_iff q name).0 same))
  | inr other ↦ rw other (ap (λ xs. (q, x) ∷ xs) (append_to-behind fs gs name c bytes h.1))
]

module _ (d : Digest) where
  -- What becomes of the file of a block that is stored once more.
  abbrev pub doubled : Bytes → Files.Stored
  doubled x = (get_string_md5 d x ++ codes ".txt", x ++ x)

  -- Storing blocks, seen from the directory.
  files_under-disk_after_any :
      (dir : Bytes) (xs : List Bytes) (disk : Disk)
      → files_under dir (disk_after d dir xs disk) ≡ disk_after d [] xs (files_under dir disk)
  unfolding disk_after
  files_under-disk_after_any dir [] disk = refl
  files_under-disk_after_any dir (x ∷ xs) disk =
      let name = get_string_md5 d x ++ codes ".txt" in
      files_under-disk_after_any dir xs (append_to disk (dir ++ name) x)
      ∙ ap (disk_after d [] xs) (files_under-append_to dir name x disk)

  disk_after-twice :
      (xs : List Bytes) (fs : Disk)
      → Apart d xs
      → ((x : Bytes) → Mem x xs → All (λ f. f.0 ≢ get_string_md5 d x ++ codes ".txt") fs)
      → disk_after d [] xs (fs ++ map (block_file d) xs) ≡ fs ++ map doubled xs
  unfolding disk_after
  disk_after-twice [] fs apart free = refl
  disk_after-twice (x ∷ xs) fs apart free =
      let (others, later) = Pairwise-cons.0 apart in
      let name = get_string_md5 d x ++ codes ".txt" in
      let one = append_to-behind fs (map (block_file d) xs) name x x (free x mem-cons_self) in
      rw (one, ← append_assoc fs (doubled x ∷ []) (map (block_file d) xs))
        (disk_after-twice xs (fs ++ doubled x ∷ []) later (λ y m.
            All-end d fs (doubled x) (get_string_md5 d y ++ codes ".txt")
              (free y (mem-cons_of_mem x m)) (block_path-ne d [] x y (others y m)))
          ∙ append_assoc fs (doubled x ∷ []) (map doubled xs))

  -- The files of a directory that had those of the blocks before.
  pub files_under-again :
      (dir : Bytes) (xs : List Bytes) (disk : Disk)
      → Apart d xs
      → files_under dir disk ≡ map (block_file d) xs
      → files_under dir (disk_after d dir xs disk) ≡ map doubled xs
  files_under-again dir xs disk apart before =
      files_under-disk_after_any dir xs disk
      ∙ ap (disk_after d [] xs) before
      ∙ disk_after-twice xs [] apart (λ x m. tt)

  -- The digests of the doubled blocks differ from those of the blocks.
  abbrev pub Changed : List Bytes → Type 0
  Changed = All λ x. get_string_md5 d (x ++ x) ≢ get_string_md5 d x

  -- The name of the file does not begin with the digest of its bytes.
  abbrev pub Spoilt : Files.Stored → Type 0
  Spoilt (name, content) = get_string_md5 d content ≢ take 32 name

  doubled-Spoilt : (xs : List Bytes) → Changed xs → All Spoilt (map doubled xs)
  doubled-Spoilt [] h = tt
  doubled-Spoilt (x ∷ xs) h = (rw (front d x) h.0, doubled-Spoilt xs h.1)

-- A storage server has stored the blocks `xs` of an upload, of different digests, in a directory that
-- already had just these blocks' files, as after a restart; the digest of no block is that of its
-- bytes written twice. Then the directory has just one file for each block, with the block's bytes
-- twice, and the name of none of these files begins with the digest of its bytes.
pub upload_again-Spoilt :
    (d : Digest) (list_dir : Bytes → Option (List Entry)) (st : Storage) (name path : Bytes)
    (xs : List Bytes) (a1 a2 a3 : Buffer) (u : Stored d list_dir st name path xs a1 a2 a3)
    → Apart d xs
    → Changed d xs
    → files_under (st.g_upfile_name ++ (name ++ codes "/")) st.files ≡ map (block_file d) xs
    → (let dir = st.g_upfile_name ++ (name ++ codes "/") in
        (files_under dir u.s3.files ≡ map (doubled d) xs)
        × All (Spoilt d) (files_under dir u.s3.files))
upload_again-Spoilt d list_dir st name path xs a1 a2 a3 u apart changed before =
    let dir = st.g_upfile_name ++ (name ++ codes "/") in
    let there : files_under dir u.s3.files ≡ map (doubled d) xs =
      rw u.disk (files_under-again d dir xs st.files apart before) in
    (there, rw there (doubled-Spoilt d xs changed))
