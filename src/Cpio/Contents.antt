-- ===== src/Cpio/Contents.antt =====
-- What `for_each_cpio_newc_file` finds in an archive that a writer has made.
use os.Base.{
  ℕ, zero, suc, ◌+◌, ◌*◌, ◌^◌, ◌<◌, ◌≤◌, ◌≡◌, ◌≢◌, refl, inl, inr, true, false, some, List, [], ◌∷◌,
  arith, ltb, ◌==◌, if◌then◌else◌, ap, ◌∙◌, sym, subst, Bool-cases, lt→ltb, All, false≢true,
}
use os.Cpio.{
  Archive, next_offset, cpio_newc_paths_equal, normalize_archive_path, strings_equal, trailer_name,
  is_regular_entry,
}
use os.Cpio.Written.{
  Item, IsWritten, stored_name, data_offset, data_end, padded, entry_of, read_entry-IsWritten,
  align_up_fits,
}
use os.Cpio.Files.{File, files_from, archive_files}

-- A path that does not begin with a dot or a slash.
abbrev pub IsPlainPath : List ℕ → Type 0
IsPlainPath [] = Unit
IsPlainPath (c ∷ cs) = (c ≢ 46) × (c ≢ 47)

pub plain_normal : (path : List ℕ) → IsPlainPath path → normalize_archive_path path ≡ path
unfolding normalize_archive_path
plain_normal [] p = refl
plain_normal (c ∷ []) p = ground (arith, p.0, p.1)
plain_normal (c ∷ d ∷ cs) p = ground (arith, p.0, p.1)

stored_normal : (x : Item) → IsPlainPath x.path → normalize_archive_path (stored_name x) ≡ x.path
unfolding normalize_archive_path
stored_normal x p = elim (Bool-cases x.dotted) [
  | inl e ↦ rw e (plain_normal x.path p)
  | inr e ↦ rw e (plain_normal x.path p)
]

strings_equal_self : (xs : List ℕ) → strings_equal xs xs ≡ true
unfolding strings_equal
strings_equal_self [] = refl
strings_equal_self (c ∷ cs) =
    let here : (c == c) ≡ true = ground arith in rw (here, strings_equal_self cs) refl

strings_equal_same : (xs ys : List ℕ) → strings_equal xs ys ≡ true → xs ≡ ys
unfolding strings_equal
strings_equal_same [] [] h = refl
strings_equal_same [] (d ∷ ds) h = absurd (false≢true h)
strings_equal_same (c ∷ cs) [] h = absurd (false≢true h)
strings_equal_same (c ∷ cs) (d ∷ ds) h = elim (Bool-cases (c == d)) [
  | inr e ↦ absurd (false≢true (sym (rw (e, strings_equal) refl) ∙ h))
  | inl e ↦
      let same : c ≡ d = ground (arith, e) in
      let rest : strings_equal cs ds ≡ true = sym (rw (e, strings_equal) refl) ∙ h in
      ap (λ z. z ∷ cs) same ∙ ap (λ l. d ∷ l) (strings_equal_same cs ds rest)
]

-- Names differ where their paths do, and else are equal.
pub stored_equal :
    (x : Item) (path wanted : List ℕ)
    → IsPlainPath x.path
    → normalize_archive_path wanted ≡ path
    → x.path ≡ path
    → cpio_newc_paths_equal (stored_name x) wanted ≡ true
unfolding cpio_newc_paths_equal
stored_equal x path wanted p n e =
    ap (λ l. strings_equal l (normalize_archive_path wanted)) (stored_normal x p ∙ e ∙ sym n)
    ∙ strings_equal_self (normalize_archive_path wanted)

pub stored_same :
    (x : Item) (path wanted : List ℕ)
    → IsPlainPath x.path
    → normalize_archive_path wanted ≡ path
    → cpio_newc_paths_equal (stored_name x) wanted ≡ true
    → x.path ≡ path
unfolding cpio_newc_paths_equal
stored_same x path wanted p n e =
    sym (stored_normal x p)
    ∙ strings_equal_same (normalize_archive_path (stored_name x)) (normalize_archive_path wanted) e
    ∙ n

pub stored_differs :
    (x : Item) (path wanted : List ℕ)
    → IsPlainPath x.path
    → normalize_archive_path wanted ≡ path
    → x.path ≢ path
    → cpio_newc_paths_equal (stored_name x) wanted ≡ false
stored_differs x path wanted p n ne =
    elim (Bool-cases (cpio_newc_paths_equal (stored_name x) wanted)) [
      | inr e ↦ e
      | inl e ↦ absurd (ne (stored_same x path wanted p n e))
    ]

abbrev pub next_item : ℕ → Item → ℕ
next_item offset x = padded (data_end offset x)

-- From `offset` on the archive holds these entries, one behind the other, and then the trailer. No
-- entry has the path of the trailer.
abbrev pub HoldsItems : Archive → ℕ → ℕ → List Item → Type 0
HoldsItems archive archive_size offset [] =
    (x : Item) × (x.path ≡ trailer_name) × IsWritten archive archive_size offset x
HoldsItems archive archive_size offset (x ∷ xs) =
    IsPlainPath x.path
    × (x.path ≢ trailer_name)
    × IsWritten archive archive_size offset x
    × HoldsItems archive archive_size (next_item offset x) xs

-- The regular files among the entries, with where their data lie.
abbrev pub files_of : ℕ → List Item → List File
files_of offset [] = []
files_of offset (x ∷ xs) =
    let rest = files_of (next_item offset x) xs in
    if x.type == 8
    then record { name = stored_name x; offset = data_offset offset x; size = x.size } ∷ rest
    else rest

regular_type :
    (type permissions : ℕ)
    → type < 16
    → permissions < 0x1000
    → is_regular_entry (type * 0x1000 + permissions) ≡ (type == 8)
regular_type type permissions h k = ap (λ n. n == 8) (omega (arith, h, k))

module _ (archive : Archive) (archive_size : ℕ) (small : archive_size < 2 ^ 63) where
  not_beyond : (a b : ℕ) → b ≤ a → ltb a b ≡ false
  not_beyond a b h = ground (arith, h)

  plain_trailer : IsPlainPath trailer_name
  plain_trailer = (omega arith, omega arith)

  next_offset-IsWritten :
      (offset : ℕ) (x : Item)
      → IsWritten archive archive_size offset x
      → next_offset offset (entry_of offset x) ≡ some (next_item offset x)
  unfolding next_offset
  next_offset-IsWritten offset x w =
      let inside : data_end offset x ≤ archive_size = w.inside in
      let aligned = align_up_fits (data_end offset x) (omega (arith, inside, small)) in
      let further : ltb offset (next_item offset x) ≡ true = lt→ltb _ _ (omega arith) in
      rw (aligned, further, next_offset) refl

  files_from-HoldsItems :
      (fuel offset : ℕ) (xs : List Item)
      → archive_size < offset + fuel
      → HoldsItems archive archive_size offset xs
      → files_from archive archive_size fuel offset ≡ (files_of offset xs, true)
  unfolding files_from
  files_from-HoldsItems zero offset [] h (x, e, w) =
      absurd (let inside = w.inside in omega (arith, h, inside))
  files_from-HoldsItems zero offset (x ∷ xs) h (p, n, w, rest) =
      absurd (let inside = w.inside in omega (arith, h, inside))
  files_from-HoldsItems (suc fuel) offset [] h (x, e, w) =
      let inside : data_end offset x ≤ archive_size = w.inside in
      let within = not_beyond archive_size offset (omega (arith, inside)) in
      let read = read_entry-IsWritten archive archive_size offset x w small in
      let ends =
        stored_equal x trailer_name trailer_name (subst IsPlainPath (sym e) plain_trailer)
          (plain_normal trailer_name plain_trailer) e in
      rw (within, read, ends, files_from) refl
  files_from-HoldsItems (suc fuel) offset (x ∷ xs) h (p, n, w, rest) =
      let inside : data_end offset x ≤ archive_size = w.inside in
      let within = not_beyond archive_size offset (omega (arith, inside)) in
      let read = read_entry-IsWritten archive archive_size offset x w small in
      let goes_on =
        stored_differs x trailer_name trailer_name p (plain_normal trailer_name plain_trailer) n in
      let next = next_offset-IsWritten offset x w in
      let later = files_from-HoldsItems fuel (next_item offset x) xs (omega (arith, h)) rest in
      let kind = regular_type x.type x.permissions w.small_type w.small_permissions in
      rw (within, read, goes_on, next, later, kind, files_from) refl

pub archive_files-HoldsItems :
    (archive : Archive) (archive_size : ℕ)
    → archive_size < 2 ^ 63
    → (items : List Item) → HoldsItems archive archive_size 0 items
    → archive_files archive archive_size ≡ (files_of 0 items, true)
unfolding archive_files
archive_files-HoldsItems archive archive_size small items w =
    files_from-HoldsItems archive archive_size small (archive_size + 1) 0 items (omega arith) w

pub plain_paths :
    (archive : Archive) (archive_size offset : ℕ) (xs : List Item)
    → HoldsItems archive archive_size offset xs
    → All (λ x. IsPlainPath x.path) xs
plain_paths archive archive_size offset [] w = tt
plain_paths archive archive_size offset (x ∷ xs) (p, n, w, rest) =
    (p, plain_paths archive archive_size (next_item offset x) xs rest)
