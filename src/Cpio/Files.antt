-- ===== src/Cpio/Files.antt =====
-- The files of an archive, and `for_each_cpio_newc_file` as a walk over them.
use os.Base.{
  ℕ, zero, suc, ◌+◌, ◌<◌, ◌≡◌, refl, inl, inr, Bool, true, false, Option, none, some, List, [], ◌∷◌,
  arith, ltb, if◌then◌else◌, ap, sym, ◌∙◌, Bool-cases,
}
use os.Cpio.{
  Archive, Entry, Visitor, Round, returns, continues, read_entry, next_offset,
  cpio_newc_paths_equal, trailer_name, is_regular_entry, visit_entry, visited_round, visit_round,
  visit_from, for_each_cpio_newc_file,
}
use os.Cpio.Bounds.{read_entry-IsInside, next_offset-lt}

pub record File : Type 0 where
  pub name : List ℕ
  pub offset : ℕ
  pub size : ℕ

-- The regular files of an archive, in order, and whether the trailer ends them.
abbrev pub Listing : Type 0
Listing = List File × Bool

abbrev pub with_file : Entry → Listing → Listing
with_file e (files, ended) = (
  if is_regular_entry e.mode
      then record { name = e.name; offset = e.file_offset; size = e.file_size } ∷ files
      else files,
  ended,
)

unfoldable pub files_from : Archive → ℕ → ℕ → ℕ → Listing
files_from archive archive_size zero offset = ([], false)
files_from archive archive_size (suc fuel) offset =
    if ltb archive_size offset then ([], false) else elim (read_entry archive archive_size offset) [
      | none ↦ ([], false)
      | some e ↦
          if cpio_newc_paths_equal e.name trailer_name
          then ([], true)
          else with_file e (elim (next_offset offset e) [
            | none ↦ ([], false)
            | some next ↦ files_from archive archive_size fuel next
          ])
    ]

-- The files of the archive.
unfoldable pub archive_files : Archive → ℕ → Listing
archive_files archive archive_size = files_from archive archive_size (archive_size + 1) 0

-- The visitor is called for one file after the other until it returns false.
unfoldable pub visit_all : {C : Type 0} → Visitor C → List File → Bool → C → C × Bool
visit_all visitor [] ended c = (c, ended)
visit_all visitor (f ∷ fs) ended c =
    let (c1, go) = visitor f.name f.offset f.size c in
    let rest = visit_all visitor fs ended c1 in if go then rest else (c1, false)

module _ {C : Type 0} (archive : Archive) (archive_size : ℕ) (visitor : Visitor C) where
  abbrev listed : Listing → C → Option (C × Bool)
  listed (files, ended) c = some (visit_all visitor files ended c)

  abbrev Walks : ℕ → ℕ → Type 0
  Walks fuel offset =
      (c : C)
      → visit_from archive archive_size visitor fuel offset c
        ≡ listed (files_from archive archive_size fuel offset) c

  abbrev after_round : ℕ → Round C → Option (C × Bool)
  after_round fuel (returns c result) = some (c, result)
  after_round fuel (continues next c) = visit_from archive archive_size visitor fuel next c

  abbrev after_next : ℕ → Option ℕ → Listing
  after_next fuel none = ([], false)
  after_next fuel (some next) = files_from archive archive_size fuel next

  module _ (fuel offset : ℕ) (e : Entry)
      (next : (n : ℕ) → next_offset offset e ≡ some n → Walks fuel n) where
    abbrev later : Listing
    later = after_next fuel (next_offset offset e)

    next_walks :
        (o : Option ℕ)
        → next_offset offset e ≡ o
        → (c : C) → after_round fuel (visited_round offset e (c, true)) ≡ listed later c
    unfolding visit_all
    next_walks none h c = rw (h, visited_round) refl
    next_walks (some n) h c = rw (h, visited_round) (next n h c)

    visitor_walks :
        (c : C) (r : C × Bool)
        → visitor e.name e.file_offset e.file_size c ≡ r
        → after_round fuel (visited_round offset e r)
          ≡ listed
              (
                record { name = e.name; offset = e.file_offset; size = e.file_size } ∷ later.0,
                later.1,
              )
              c
    unfolding visit_all
    visitor_walks c (c1, true) h = rw h (next_walks (next_offset offset e) refl c1)
    visitor_walks c (c1, false) h = rw h refl

    -- A round that has accepted an entry.
    entry_walks :
        (c : C)
        → after_round fuel (visited_round offset e (visit_entry visitor e c))
          ≡ listed (with_file e later) c
    entry_walks c = elim (Bool-cases (is_regular_entry e.mode)) [
      | inl b ↦ rw b (visitor_walks c (visitor e.name e.file_offset e.file_size c) refl)
      | inr b ↦ rw b (next_walks (next_offset offset e) refl c)
    ]

  visit_from-round :
      (fuel offset : ℕ) (c : C) (r : Round C)
      → visit_round archive archive_size visitor offset c ≡ r
      → visit_from archive archive_size visitor (suc fuel) offset c ≡ after_round fuel r
  unfolding visit_from
  visit_from-round fuel offset c (returns c1 b) h = rw (h, visit_from) refl
  visit_from-round fuel offset c (continues n c1) h = rw (h, visit_from) refl

  module _ (fuel offset : ℕ) (c : C) (inside : ltb archive_size offset ≡ false) where
    refused :
        read_entry archive archive_size offset ≡ none
        → visit_from archive archive_size visitor (suc fuel) offset c
          ≡ listed (files_from archive archive_size (suc fuel) offset) c
    unfolding visit_round files_from visit_all
    refused h =
        let r : visit_round archive archive_size visitor offset c ≡ returns c false =
          rw (inside, h) refl in
        let l : files_from archive archive_size (suc fuel) offset ≡ ([], false) =
          rw (inside, h) refl in
        visit_from-round fuel offset c (returns c false) r ∙ ap (λ x. listed x c) (sym l)

    trailer :
        (e : Entry)
        → read_entry archive archive_size offset ≡ some e
        → cpio_newc_paths_equal e.name trailer_name ≡ true
        → visit_from archive archive_size visitor (suc fuel) offset c
          ≡ listed (files_from archive archive_size (suc fuel) offset) c
    unfolding visit_round files_from visit_all
    trailer e h t =
        let r : visit_round archive archive_size visitor offset c ≡ returns c true =
          rw (inside, h, t) refl in
        let l : files_from archive archive_size (suc fuel) offset ≡ ([], true) =
          rw (inside, h, t) refl in
        visit_from-round fuel offset c (returns c true) r ∙ ap (λ x. listed x c) (sym l)

    files-next :
        (e : Entry)
        → read_entry archive archive_size offset ≡ some e
        → cpio_newc_paths_equal e.name trailer_name ≡ false
        → (o : Option ℕ) → next_offset offset e ≡ o
        → files_from archive archive_size (suc fuel) offset ≡ with_file e (after_next fuel o)
    unfolding files_from
    files-next e h t none n = rw (inside, h, t, n) refl
    files-next e h t (some x) n = rw (inside, h, t, n) refl

    entry :
        (e : Entry)
        → read_entry archive archive_size offset ≡ some e
        → cpio_newc_paths_equal e.name trailer_name ≡ false
        → ((n : ℕ) → next_offset offset e ≡ some n → Walks fuel n)
        → visit_from archive archive_size visitor (suc fuel) offset c
          ≡ listed (files_from archive archive_size (suc fuel) offset) c
    unfolding visit_round
    entry e h t next =
        let r : visit_round archive archive_size visitor offset c
            ≡ visited_round offset e (visit_entry visitor e c) =
          rw (inside, h, t) refl in
        visit_from-round fuel offset c (visited_round offset e (visit_entry visitor e c)) r
        ∙ entry_walks fuel offset e next c
        ∙ ap (λ x. listed x c) (sym (files-next e h t (next_offset offset e) refl))

    accepted :
        (o : Option Entry)
        → read_entry archive archive_size offset ≡ o
        → archive_size < offset + suc fuel
        → ((n : ℕ) → 0 < fuel → archive_size < n + fuel → Walks fuel n)
        → visit_from archive archive_size visitor (suc fuel) offset c
          ≡ listed (files_from archive archive_size (suc fuel) offset) c
    accepted none h b next = refused h
    accepted (some e) h b next = elim (Bool-cases (cpio_newc_paths_equal e.name trailer_name)) [
      | inl t ↦ trailer e h t
      | inr t ↦
          let i = read_entry-IsInside archive archive_size offset h in
          let i1 = i.after_header in
          let i2 = i.size in
          let i3 = i.within in
          entry e h t (λ n q.
            let l = next_offset-lt offset e q in
            next n (omega (arith, i1, i2, i3, b)) (omega (arith, l, b)))
    ]

  outside :
      (fuel offset : ℕ) (c : C)
      → ltb archive_size offset ≡ true
      → visit_from archive archive_size visitor (suc fuel) offset c
        ≡ listed (files_from archive archive_size (suc fuel) offset) c
  unfolding visit_round files_from visit_all
  outside fuel offset c b =
      let r : visit_round archive archive_size visitor offset c ≡ returns c false = rw b refl in
      let l : files_from archive archive_size (suc fuel) offset ≡ ([], false) = rw b refl in
      visit_from-round fuel offset c (returns c false) r ∙ ap (λ x. listed x c) (sym l)

  -- With fuel for the bytes that are left the loop returns what the walk over the files returns.
  walks : (fuel offset : ℕ) → 0 < fuel → archive_size < offset + fuel → Walks fuel offset
  unfolding visit_from
  walks zero offset p h = absurd (omega (arith, p))
  walks (suc fuel) offset p h = λ c. elim (Bool-cases (ltb archive_size offset)) [
    | inl b ↦ outside fuel offset c b
    | inr b ↦
        accepted fuel offset c b (read_entry archive archive_size offset) refl h
          (λ n q z. walks fuel n q z)
  ]

-- `for_each_cpio_newc_file` returns, for any archive and visitor: the visitor is called for the regular
-- files of the archive in order until it returns false; the result is then false, or else whether the
-- trailer ends the archive.
pub for_each_cpio_newc_file_lem :
    {C : Type 0} (archive : Archive) (archive_size : ℕ) (visitor : Visitor C) (c : C)
    → let (files, ended) = archive_files archive archive_size in
      for_each_cpio_newc_file archive archive_size visitor c
      ≡ some (visit_all visitor files ended c)
unfolding for_each_cpio_newc_file archive_files
for_each_cpio_newc_file_lem archive archive_size visitor c =
    walks archive archive_size visitor (archive_size + 1) 0 (omega arith) (omega arith) c
