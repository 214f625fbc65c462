-- ===== src/Initrd/Lookup.antt =====
-- `find_initrd_file` and the files of the archive.
use os.Base.{
  ℕ, ◌≡◌, refl, ◌∙◌, ap, inl, inr, Bool, Bool-cases, Option, none, some, List, [], ◌∷◌,
  if◌then◌else◌, ◌⊎◌, ◌++◌, All,
}
use os.Cpio.{cpio_newc_paths_equal}
use os.Cpio.Written.{Item, data_offset}
use os.Cpio.Contents.{next_item}
use os.Cpio.Files.{File, archive_files, visit_all, for_each_cpio_newc_file_lem}
use os.Initrd.{BootModule, match_initrd_file, for_each_initrd_file, find_initrd_file, looked_up}

-- The first file at a path.
pub first_file : List ℕ → List File → Option ℕ × ℕ
first_file path [] = (none, 0)
first_file path (f ∷ fs) =
    let rest = first_file path fs in
    if cpio_newc_paths_equal f.name path then (some f.offset, f.size) else rest

match-first :
    (path : List ℕ) (fs : List File) (ended : Bool)
    → looked_up (
        some (
          visit_all match_initrd_file fs ended
            (record { path = path; file_data = none; size = 0 })))
      ≡ some (first_file path fs)
unfolding first_file visit_all
match-first path [] ended = refl
match-first path (f ∷ fs) ended = elim (Bool-cases (cpio_newc_paths_equal f.name path)) [
  | inl b ↦ rw b refl
  | inr b ↦ rw b (match-first path fs ended)
]

-- `find_initrd_file` returns for any module and path, with the first regular file of the archive
-- whose path equals the one wanted, or with null and size 0 where no file has the path.
pub find_initrd_file_lem :
    (m : BootModule) (path : List ℕ)
    → find_initrd_file (some m) path ≡ some (first_file path (archive_files m.bytes m.size).0)
unfolding find_initrd_file for_each_initrd_file
find_initrd_file_lem m path =
    ap looked_up (
      for_each_cpio_newc_file_lem m.bytes m.size match_initrd_file
        (record { path = path; file_data = none; size = 0 }))
    ∙ match-first path (archive_files m.bytes m.size).0 (archive_files m.bytes m.size).1

-- The entry is a regular file at the path.
abbrev pub IsFileAt : List ℕ → Item → Type 0
IsFileAt path x = (x.type ≡ 8) × (x.path ≡ path)

-- Where the entry behind these lies.
abbrev pub offset_behind : ℕ → List Item → ℕ
offset_behind offset [] = offset
offset_behind offset (x ∷ xs) = offset_behind (next_item offset x) xs

-- The first file at the path is found, or there is none.
abbrev pub LookupOutcome : List ℕ → ℕ → List Item → Option ℕ × ℕ → Type 0
LookupOutcome path offset items result =
    ((before : List Item) × ((x : Item) × ((after : List Item) × (items ≡ before ++ x ∷ after)
          × IsFileAt path x
          × All (λ y. ¬ IsFileAt path y) before
          × (result ≡ (some (data_offset (offset_behind offset before) x), x.size)))))
    ⊎ (All (λ y. ¬ IsFileAt path y) items × (result ≡ (none, 0)))
