-- ===== src/Transfer/Directory.antt =====
-- The directory of an upload on a storage server: the files that `saveBlockFile` of
-- storageServer/saveFile_0/src/upLoad.h makes in it.
use mathlib.Core.List.{Mem, map, Pairwise, Pairwise-cons, mem-cons_self, mem-cons_of_mem}
use mini_distributed_storage.Base.{
  ◌≡◌, ◌≢◌, refl, sym, ap, ◌∙◌, true, List, [], ◌∷◌, ◌++◌, append_assoc, append-nil, All, Bytes,
  codes, length, take, drop, take-append_self, drop-append_self, bytes_eq, bytes_eq_iff,
  bytes_eq_refl, if◌then◌else◌, Bool-cases, inl, inr,
}
use mini_distributed_storage.Md5.{Digest, get_string_md5, length-get_string_md5}
use mini_distributed_storage.Storage.{Disk, append_to}
use mini_distributed_storage.Storage.Save.{block_path}
use mini_distributed_storage.Download.Files
use mini_distributed_storage.Download.Files.{delivered, deliveries}
use mini_distributed_storage.Transfer.Batch.{disk_after}

-- The files whose paths begin with that of a directory, by the rest of their paths.
unfoldable pub files_under : Bytes → Disk → List Files.Stored
files_under dir [] = []
files_under dir ((p, c) ∷ disk) =
    let rest = files_under dir disk in
    if bytes_eq (take (length dir) p) dir then (drop (length dir) p, c) ∷ rest else rest

files_under-append :
    (dir : Bytes) (xs ys : Disk)
    → files_under dir (xs ++ ys) ≡ files_under dir xs ++ files_under dir ys
unfolding files_under
files_under-append dir [] ys = refl
files_under-append dir ((p, c) ∷ xs) ys = elim (Bool-cases (bytes_eq (take (length dir) p) dir)) [
  | inl below ↦ rw below (ap (λ fs. (drop (length dir) p, c) ∷ fs) (files_under-append dir xs ys))
  | inr other ↦ rw other (files_under-append dir xs ys)
]

-- A path that is not among those of the disk: its file is a new one, behind the others.
append_to-new :
    (disk : Disk) (p bytes : Bytes)
    → All (λ f. f.0 ≢ p) disk
    → append_to disk p bytes ≡ disk ++ (p, bytes) ∷ []
unfolding append_to
append_to-new [] p bytes h = refl
append_to-new ((q, c) ∷ disk) p bytes h = elim (Bool-cases (bytes_eq q p)) [
  | inl same ↦ absurd (h.0 ((bytes_eq_iff q p).0 same))
  | inr other ↦ rw other (ap (λ fs. (q, c) ∷ fs) (append_to-new disk p bytes h.1))
]

-- Nothing in the directory: none of its paths is on the disk.
none_under :
    (dir name : Bytes) (disk : Disk) → files_under dir disk ≡ [] → All (λ f. f.0 ≢ dir ++ name) disk
unfolding files_under
none_under dir name [] h = tt
none_under dir name ((q, c) ∷ disk) h = elim (Bool-cases (bytes_eq (take (length dir) q) dir)) [
  | inl below ↦ absurd (cc (rw below at h))
  | inr other ↦ (
    λ e.
        let front : bytes_eq (take (length dir) q) dir ≡ true =
          (bytes_eq_iff (take (length dir) q) dir).1
            (ap (take (length dir)) e ∙ take-append_self dir name) in
        cc (front, other),
    none_under dir name disk (rw other at h),
  )
]

module _ (d : Digest) where
  -- The file of a block in its directory.
  abbrev pub block_file : Bytes → Files.Stored
  block_file x = (get_string_md5 d x ++ codes ".txt", x)

  pub front : (x : Bytes) → take 32 (get_string_md5 d x ++ codes ".txt") ≡ get_string_md5 d x
  front x = rw (length-get_string_md5 d x) at (take-append_self (get_string_md5 d x) (codes ".txt"))

  -- Blocks of different digests.
  abbrev pub Apart : List Bytes → Type 0
  Apart = Pairwise λ x y. get_string_md5 d x ≢ get_string_md5 d y

  abbrev pub path_of : Bytes → Bytes → Bytes × Bytes
  path_of dir x = (block_path dir (get_string_md5 d x), x)

  pub block_path-ne :
      (dir x y : Bytes)
      → get_string_md5 d x ≢ get_string_md5 d y
      → block_path dir (get_string_md5 d x) ≢ block_path dir (get_string_md5 d y)
  block_path-ne dir x y ne e =
      let nx = get_string_md5 d x ++ codes ".txt" in
      let ny = get_string_md5 d y ++ codes ".txt" in
      let names : nx ≡ ny =
        sym (drop-append_self dir nx) ∙ ap (drop (length dir)) e ∙ drop-append_self dir ny in
      ne (sym (front x) ∙ ap (take 32) names ∙ front y)

  pub All-end :
      (disk : Disk) (f : Bytes × Bytes) (p : Bytes)
      → All (λ g. g.0 ≢ p) disk
      → f.0 ≢ p
      → All (λ g. g.0 ≢ p) (disk ++ f ∷ [])
  All-end [] f p h ne = (ne, tt)
  All-end (g ∷ disk) f p h ne = (h.0, All-end disk f p h.1 ne)

  -- Blocks of different digests, in a directory that has no file of theirs: each gets a file of its
  -- own, and the other files stay as they are.
  disk_after-new :
      (dir : Bytes) (xs : List Bytes) (disk : Disk)
      → Apart xs
      → ((x : Bytes) → Mem x xs → All (λ f. f.0 ≢ block_path dir (get_string_md5 d x)) disk)
      → disk_after d dir xs disk ≡ disk ++ map (path_of dir) xs
  unfolding disk_after
  disk_after-new dir [] disk apart free = sym (append-nil disk)
  disk_after-new dir (x ∷ xs) disk apart free =
      let (others, later) = Pairwise-cons.0 apart in
      let new = append_to-new disk (block_path dir (get_string_md5 d x)) x (free x mem-cons_self) in
      rw new (
        disk_after-new dir xs (disk ++ path_of dir x ∷ []) later (λ y m.
          All-end disk (path_of dir x) (block_path dir (get_string_md5 d y))
            (free y (mem-cons_of_mem x m)) (block_path-ne dir x y (others y m)))
        ∙ append_assoc disk (path_of dir x ∷ []) (map (path_of dir) xs))

  pub files_under-blocks :
      (dir : Bytes) (xs : List Bytes) → files_under dir (map (path_of dir) xs) ≡ map block_file xs
  unfolding files_under
  files_under-blocks dir [] = refl
  files_under-blocks dir (x ∷ xs) =
      let name = get_string_md5 d x ++ codes ".txt" in
      rw
        (
          take-append_self dir name,
          drop-append_self dir name,
          bytes_eq_refl dir,
          files_under-blocks dir xs,
        )
        refl

  -- The files of an empty directory in which blocks of different digests have been stored.
  pub files_under-disk_after :
      (dir : Bytes) (xs : List Bytes) (disk : Disk)
      → Apart xs
      → files_under dir disk ≡ []
      → files_under dir (disk_after d dir xs disk) ≡ map block_file xs
  files_under-disk_after dir xs disk apart empty =
      let grown =
        disk_after-new dir xs disk apart
          (λ x m. none_under dir (get_string_md5 d x ++ codes ".txt") disk empty) in
      rw (grown, files_under-append dir disk (map (path_of dir) xs), empty)
        (files_under-blocks dir xs)
