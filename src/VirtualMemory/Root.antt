-- ===== src/VirtualMemory/Root.antt =====
-- `ensure_root`.
use os.Base.{
  ℕ, ◌*◌, ◌/◌, ◌%◌, ◌^◌, ◌≤◌, ◌<◌, ◌≡◌, refl, inl, inr, Bool, true, false, none, some, List, [],
  ◌∷◌, if◌then◌else◌, arith, ap, ◌∙◌, subst, update, update_self,
}
use os.PageFrame.{page_size}
use os.PageFrame.Inv.{WellFormed}
use os.PageFrame.Single.{allocate_lem, taken, taken-WellFormed, IsLowest}
use os.VirtualMemory.{
  VirtualMemory, page_index, ensure_root, root_allocated, translate, translate_leaf,
}
use os.VirtualMemory.Tree.{IsTree}
use os.VirtualMemory.Ensure.{AllBusy, entry_at-missing}
use os.VirtualMemory.Translate.{translate-leaf}

-- What `ensure_root` of an address space without tables ends with.
abbrev pub RootOutcome : VirtualMemory × Bool → Type 0
RootOutcome (v', made) =
    if made
    then ((level : ℕ → ℕ) × (path : ℕ → List ℕ) × IsTree v' level path)
      × ((a : ℕ) → translate v' a ≡ none)
    else AllBusy v'.frames

module _ (v : VirtualMemory) (w : WellFormed v.frames) (on : v.frames.initialized ≡ true)
    (b : v.frames.page_count ≤ 2 ^ 40) (n : ℕ) (l : IsLowest v.frames n) where
  abbrev pub made : VirtualMemory
  made = (root_allocated v (taken v.frames n, some (n * page_size))).0

  same_page_number : n * page_size / page_size ≡ n
  same_page_number = omega arith

  blank : (j : ℕ) → made.table n j ≡ 0
  blank j = ground (arith, same_page_number)

  abbrev pub root_only : ℕ → ℕ
  root_only = update (λ q. 0) n 4

  only_root : (q : ℕ) → 1 < root_only q → n ≡ q
  only_root q h = ground (arith, h)

  nothing_below : (p i : ℕ) → 1 < root_only p → made.table p i ≡ 0
  nothing_below p i h = subst (λ q. made.table q i ≡ 0) (only_root p h) (blank i)

  pub root-IsTree : IsTree made root_only (λ p. [])
  root-IsTree = record {
    ready = refl;
    root_level = ap root_only same_page_number ∙ update_self (λ q. 0) n 4;
    root_path = refl;
    child_level = λ p i x h m. absurd (m (nothing_below p i h));
    child_path = λ p i x h m. absurd (m (nothing_below p i h));
    small_pages = λ p i x h. ap (λ e. e / 128 % 2) (nothing_below p i (omega (arith, h)));
    free_pages = λ p h f. ground (arith, f);
    frames = taken-WellFormed w l;
    frames_ready = on;
    addressable = b;
  }

  root-unmapped : (a : ℕ) → translate made a ≡ none
  root-unmapped a =
      translate-leaf root-IsTree a
      ∙ ap (λ e. translate_leaf e a)
          (entry_at-missing made.table (made.root / page_size) (page_index a 39)
            (page_index a 30 ∷ page_index a 21 ∷ []) (page_index a 12)
            (ap (λ p. made.table p (page_index a 39)) same_page_number ∙ blank (page_index a 39)))

root_outcome :
    (v : VirtualMemory)
    → WellFormed v.frames
    → v.frames.initialized ≡ true
    → v.frames.page_count ≤ 2 ^ 40
    → (n : ℕ) → IsLowest v.frames n
    → RootOutcome (root_allocated v (taken v.frames n, some (n * page_size)))
root_outcome v w on b n l =
    ((root_only v w on b n l, λ p. [], root-IsTree v w on b n l), root-unmapped v w on b n l)

-- `ensure_root` on an address space without tables, over a well-formed allocator of at most 2^40
-- pages, makes a tree of tables in which no address is translated, or returns false and no page
-- frame is free.
pub ensure_root_lem :
    (v : VirtualMemory)
    → v.initialized ≡ false
    → WellFormed v.frames
    → v.frames.initialized ≡ true
    → v.frames.page_count ≤ 2 ^ 40
    → RootOutcome (ensure_root v)
unfolding ensure_root
ensure_root_lem v off w on b = elim (allocate_lem w on) [
  | inl (e, busy) ↦ rw (off, e) busy
  | inr (n, l, e) ↦ rw (off, e) (root_outcome v w on b n l)
]
