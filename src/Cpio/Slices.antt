-- ===== src/Cpio/Slices.antt =====
-- Where the files of an archive lie.
use os.Base.{
  ℕ, zero, suc, ◌+◌, ◌≤◌, ◌≡◌, refl, inl, inr, false, Option, none, some, [], arith, ltb,
  Bool-cases, Option-cases, All,
}
use os.Cpio.{
  Archive, Entry, read_entry, next_offset, cpio_newc_paths_equal, trailer_name, is_regular_entry,
}
use os.Cpio.Bounds.{read_entry-IsInside, IsInside}
use os.Cpio.Files.{File, Listing, with_file, files_from, archive_files}

-- A slice of the archive.
abbrev pub IsSlice : ℕ → File → Type 0
IsSlice archive_size f = f.offset + f.size ≤ archive_size

with_file-IsSlice :
    (archive_size offset : ℕ) (e : Entry) (l : Listing)
    → IsInside archive_size offset e
    → All (IsSlice archive_size) l.0
    → All (IsSlice archive_size) (with_file e l).0
with_file-IsSlice archive_size offset e (files, ended) i h =
    elim (Bool-cases (is_regular_entry e.mode)) [
      | inl b ↦ let size = i.size in let within = i.within in rw b (omega (arith, size, within), h)
      | inr b ↦ rw b h
    ]

files_from-IsSlice :
    (archive : Archive) (archive_size fuel offset : ℕ)
    → All (IsSlice archive_size) (files_from archive archive_size fuel offset).0
unfolding files_from
files_from-IsSlice archive archive_size zero offset = tt
files_from-IsSlice archive archive_size (suc fuel) offset =
    elim (Bool-cases (ltb archive_size offset)) [
      | inl b ↦ rw (b, files_from) tt
      | inr b ↦
          accepted b (λ n. files_from-IsSlice archive archive_size fuel n)
            (read_entry archive archive_size offset) refl
    ]
  where
    accepted :
        ltb archive_size offset ≡ false
        → ((n : ℕ) → All (IsSlice archive_size) (files_from archive archive_size fuel n).0)
        → (o : Option Entry) → read_entry archive archive_size offset ≡ o
        → All (IsSlice archive_size) (files_from archive archive_size (suc fuel) offset).0
    accepted b rest none h = rw (b, h, files_from) tt
    accepted b rest (some e) h = elim (Bool-cases (cpio_newc_paths_equal e.name trailer_name)) [
      | inl t ↦ rw (b, h, t, files_from) tt
      | inr t ↦ elim (Option-cases (next_offset offset e)) [
        | inl n ↦
            rw (b, h, t, n, files_from)
              (with_file-IsSlice archive_size offset e ([], false)
                (read_entry-IsInside archive archive_size offset h) tt)
        | inr (x, n) ↦
            rw (b, h, t, n, files_from)
              (with_file-IsSlice archive_size offset e (files_from archive archive_size fuel x)
                (read_entry-IsInside archive archive_size offset h) (rest x))
      ]
    ]

-- Every file that a visitor gets lies within the archive, whatever the archive holds.
pub archive_files-IsSlice :
    (archive : Archive) (archive_size : ℕ)
    → All (IsSlice archive_size) (archive_files archive archive_size).0
unfolding archive_files
archive_files-IsSlice archive archive_size =
    files_from-IsSlice archive archive_size (archive_size + 1) 0
