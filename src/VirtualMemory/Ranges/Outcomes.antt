-- ===== src/VirtualMemory/Ranges/Outcomes.antt =====
-- `protect` and `free` of a range, as `translate` sees them.
use os.Base.{
  ℕ, zero, suc, ◌+◌, ◌*◌, ◌/◌, ◌%◌, ◌^◌, ◌≤◌, ◌<◌, ◌≡◌, refl, inl, inr, Bool, true, false, Option,
  none, some, List, ◌==◌, if◌then◌else◌, arith, ap, ◌∙◌, sym, Bool-cases,
}
use os.PageFrame.{page_size}
use os.PageFrame.Inv.{WellFormed}
use os.VirtualMemory.{
  VirtualMemory, PageFlags, entry_page, flags_to_entry, with_present, translate, translate_leaf,
}
use os.VirtualMemory.Tree.{IsTree, leaf_entry, entry_cases}
use os.VirtualMemory.Store.{page_number}
use os.VirtualMemory.Translate.{translate-leaf, flags-translate}
use os.VirtualMemory.Ranges.{protect_page, release_page, each_page, protect, free_range}
use os.VirtualMemory.Ranges.Teardown.{Frees, Frees-refl, Frees-trans}
use os.VirtualMemory.Ranges.Loop.{RangeStep, in_pages, each_page_lem}
use os.VirtualMemory.Ranges.Protect.{
  protect_page_lem, protected_leaf, release_page_lem, release_page-Frees,
}

-- A translation with the flags of `protect`.
abbrev pub reflagged : PageFlags → Option (ℕ × ℕ) → Option (ℕ × ℕ)
reflagged flags none = none
reflagged flags (some (physical, _)) = some (physical, flags_to_entry (with_present flags))

-- Each translation after a change `h` of those of the first `end` pages of a range.
abbrev pub RangeOutcome :
    (ℕ → ℕ)
    → (ℕ → List ℕ)
    → (Option (ℕ × ℕ) → Option (ℕ × ℕ))
    → VirtualMemory
    → ℕ
    → ℕ
    → VirtualMemory × Bool
    → Type 0
RangeOutcome level path h v va n (v', done) =
    (end : ℕ) × IsTree v' level path
    × ((a : ℕ)
        → translate v' a
          ≡ (if in_pages (page_number va) 0 end a then h (translate v a) else translate v a))
    × (if done then end ≡ n else (end < n) × (translate v ((va + end * page_size) % 2 ^ 64) ≡ none))

range_outcome :
    {v : VirtualMemory} {level : ℕ → ℕ} {path : ℕ → List ℕ} (h : Option (ℕ × ℕ) → Option (ℕ × ℕ))
    (g : ℕ → ℕ) (va n : ℕ)
    → IsTree v level path
    → ((a e : ℕ) → translate_leaf (g e) a ≡ h (translate_leaf e a))
    → (r : VirtualMemory × Bool) → RangeStep level path g (leaf_entry v) va 0 n r
    → RangeOutcome level path h v va n r
range_outcome {v} {level} {path} h g va n w same (v', done) (end, _, w', leaf, c) =
    (end, w', translations, all done c)
  where
    translations :
        (a : ℕ)
        → translate v' a
          ≡ (if in_pages (page_number va) 0 end a then h (translate v a) else translate v a)
    translations a = elim (Bool-cases (in_pages (page_number va) 0 end a)) [
      | inl b ↦
          let e : leaf_entry v' a ≡ g (leaf_entry v a) =
            leaf a ∙ ap (λ t. if t then g (leaf_entry v a) else leaf_entry v a) b in
          translate-leaf w' a
          ∙ ap (λ x. translate_leaf x a) e
          ∙ same a (leaf_entry v a)
          ∙ ap h (sym (translate-leaf w a))
          ∙ sym (ap (λ t. if t then h (translate v a) else translate v a) b)
      | inr b ↦
          let e : leaf_entry v' a ≡ leaf_entry v a =
            leaf a ∙ ap (λ t. if t then g (leaf_entry v a) else leaf_entry v a) b in
          translate-leaf w' a
          ∙ ap (λ x. translate_leaf x a) e
          ∙ sym (translate-leaf w a)
          ∙ sym (ap (λ t. if t then h (translate v a) else translate v a) b)
    ]

    all :
        (m : Bool)
        → (if m
            then end ≡ 0 + n
            else (end < 0 + n) × (leaf_entry v ((va + end * page_size) % 2 ^ 64) ≡ 0))
        → (if m
            then end ≡ n
            else (end < n) × (translate v ((va + end * page_size) % 2 ^ 64) ≡ none))
    all true c = omega (arith, c)
    all false (l, z) = (
      omega (arith, l),
      translate-leaf w ((va + end * page_size) % 2 ^ 64)
          ∙ ap (λ x. translate_leaf x ((va + end * page_size) % 2 ^ 64)) z,
    )

reflag-leaf :
    (flags : PageFlags) (a e : ℕ)
    → translate_leaf (protected_leaf flags e) a ≡ reflagged flags (translate_leaf e a)
reflag-leaf flags a e = elim (entry_cases e) [
  | inl z ↦ let b : (e == 0) ≡ true = ground (arith, z) in rw b refl
  | inr n ↦
      let b : (e == 0) ≡ false = ground (arith, n) in rw b (flags-translate (e / page_size) flags a)
]

-- On a tree of tables, and for a range of pages that does not leave the 48-bit address space,
-- `protect` gives the first `end` pages of the range the new flags, at the physical addresses that
-- they had, changes no other translation, and leaves a tree of tables in which every table has the level
-- and the place it had; it returns true and `end` is the number of pages asked for, or it returns false
-- and page `end` of the range is not mapped.
pub protect_lem :
    {v : VirtualMemory} {level : ℕ → ℕ} {path : ℕ → List ℕ}
    → IsTree v level path
    → (va n : ℕ) (flags : PageFlags) → 0 < n
    → va % page_size ≡ 0
    → page_number va + n ≤ 2 ^ 36
    → RangeOutcome level path (reflagged flags) v va n (protect v va n flags)
unfolding protect
protect_lem {v} {level} {path} w va n flags h x b =
    let some_pages : (n == 0) ≡ false = ground (arith, h) in
    rw (some_pages, x)
      (range_outcome (reflagged flags) (protected_leaf flags) va n w (reflag-leaf flags)
        (each_page (λ u a. protect_page u a flags) v va n 0)
        (each_page_lem (λ u a. protect_page u a flags) (protected_leaf flags) (λ e. Unit)
          (λ u a wu _. protect_page_lem flags u a wu) va x n 0 v (leaf_entry v) w (λ a. refl)
          (omega (arith, b)) (λ k l m. tt)))

each_page-Frees :
    (v : VirtualMemory) (va r i : ℕ)
    → v.initialized ≡ true
    → WellFormed v.frames
    → v.frames.initialized ≡ true
    → Frees v (each_page release_page v va r i).0
unfolding each_page
each_page-Frees v va zero i ready w on = Frees-refl v w on
each_page-Frees v va (suc r) i ready w on =
    let now = release_page-Frees v ((va + i * page_size) % 2 ^ 64) ready w on in
    let later =
      each_page-Frees (release_page v ((va + i * page_size) % 2 ^ 64)).0 va r (i + 1)
        (now.initialized ∙ ready) now.frames now.frames_ready in
    elim (Bool-cases (release_page v ((va + i * page_size) % 2 ^ 64)).1) [
      | inl e ↦ rw e (Frees-trans now later)
      | inr e ↦ rw e now
    ]

-- On a tree of tables, for a range of pages that does not leave the 48-bit address space and none of
-- whose pages is mapped to a table, `free` unmaps the first `end` pages of the range and changes no other
-- translation; it returns true and `end` is the number of pages asked for, or it returns false and page
-- `end` of the range is not mapped. It makes no page busy, and an entry that it clears names a page that
-- is not busy afterwards.
pub free_range_lem :
    {v : VirtualMemory} {level : ℕ → ℕ} {path : ℕ → List ℕ}
    → IsTree v level path
    → (va n : ℕ) → 0 < n
    → va % page_size ≡ 0
    → page_number va + n ≤ 2 ^ 36
    → ((i : ℕ) → i < n → level (entry_page (leaf_entry v ((va + i * page_size) % 2 ^ 64))) ≡ 0)
    → RangeOutcome level path (λ t. none) v va n (free_range v va n) × Frees v (free_range v va n).0
unfolding free_range
free_range_lem {v} {level} {path} w va n h x b no_table =
    let some_pages : (n == 0) ≡ false = ground (arith, h) in
    rw (some_pages, x)
      (
        range_outcome (λ t. none) (λ e. 0) va n w (λ a e. refl) (each_page release_page v va n 0)
            (each_page_lem release_page (λ e. 0) (λ e. level (entry_page e) ≡ 0)
              (λ u a wu ok. release_page_lem u a wu ok) va x n 0 v (leaf_entry v) w (λ a. refl)
              (omega (arith, b)) (λ k l m. no_table k (omega (arith, m)))),
        each_page-Frees v va n 0 w.ready w.frames w.frames_ready,
      )
