-- ===== src/VirtualMemory/Ranges/Protect.antt =====
-- `protect` and `free` of a range of pages.
use os.Base.{
  ℕ, ◌+◌, ◌*◌, ◌/◌, ◌^◌, ◌≤◌, ◌<◌, ◌≡◌, refl, ◌≢◌, inl, inr, true, false, Option, none, some, List,
  ◌==◌, if◌then◌else◌, arith, ap, ◌∙◌, sym, subst, update_ne, ℕ_discrete,
}
use os.PageFrame.{page_size, free}
use os.PageFrame.Inv.{WellFormed}
use os.PageFrame.Release.{returned, free_lem, free-WellFormed}
use os.VirtualMemory.{
  VirtualMemory, PageFlags, entry_page, find_table, page_index, path_of, flags_to_entry,
  with_present, ensure_root, walk_to_leaf, store_leaf,
}
use os.VirtualMemory.Tree.{IsTree, leaf_entry, entry_of, entry_cases, find_table-level}
use os.VirtualMemory.Store.{page_number, path_IsIndex, stored-IsTree, leaf-stored, leaf-other}
use os.VirtualMemory.Map.{same_leaf}
use os.VirtualMemory.Ranges.{page_protected, protect_page, page_released, release_page}
use os.VirtualMemory.Ranges.Teardown.{Frees, Frees-refl, free_word-Frees}
use os.VirtualMemory.Ranges.Loop.{PageStep}

walk_found :
    (v : VirtualMemory) (va : ℕ)
    → v.initialized ≡ true
    → walk_to_leaf v va false false ≡ (v, find_table v.table (v.root / page_size) (path_of va))
unfolding walk_to_leaf ensure_root
walk_found v va ready = rw ready refl

module _ {v : VirtualMemory} {level : ℕ → ℕ} {path : ℕ → List ℕ} (w : IsTree v level path)
    (va : ℕ) where
  lowest_level :
      (t : ℕ) → find_table v.table (v.root / page_size) (path_of va) ≡ some t → level t ≡ 1
  lowest_level t f =
      let top = w.root_level in
      let d =
        find_table-level w (v.root / page_size) (path_of va) t (path_IsIndex va)
          (omega (arith, top)) f in
      omega (arith, top, d.0)

  -- Nothing is mapped.
  unmapped_step : (g : ℕ → ℕ) → leaf_entry v va ≡ 0 → PageStep level path g v va (v, false)
  unmapped_step g z = (w, λ a. refl, z)

  -- The leaf entry is written, perhaps with other page frames.
  written_step :
      (g : ℕ → ℕ) (u : VirtualMemory) (t : ℕ)
      → IsTree u level path
      → u.table ≡ v.table
      → u.root ≡ v.root
      → find_table v.table (v.root / page_size) (path_of va) ≡ some t
      → leaf_entry v va ≢ 0
      → PageStep level path g v va (store_leaf u t va (g (leaf_entry v va)), true)
  written_step g u t wu tables root f n =
      (stored-IsTree wu t va (g (leaf_entry v va)) (lowest_level t f), leaves, n)
    where
      found : find_table u.table (u.root / page_size) (path_of va) ≡ some t
      found =
          ap (λ x. find_table x (u.root / page_size) (path_of va)) tables
          ∙ ap (λ r. find_table v.table (r / page_size) (path_of va)) root
          ∙ f

      same : (a : ℕ) → leaf_entry u a ≡ leaf_entry v a
      same a =
          ap (λ x. leaf_entry (record u { table = x }) a) tables
          ∙ ap (λ r. leaf_entry (record v { root = r }) a) root

      leaves :
          (a : ℕ)
          → leaf_entry (store_leaf u t va (g (leaf_entry v va))) a
            ≡ (if page_number a == page_number va then g (leaf_entry v a) else leaf_entry v a)
      leaves a = elim (ℕ_discrete (page_number a) (page_number va)) [
        | yes e ↦
            let b : (page_number a == page_number va) ≡ true = ground (arith, e) in
            rw b (
              same_leaf (store_leaf u t va (g (leaf_entry v va))) a va e
              ∙ leaf-stored wu t va (g (leaf_entry v va)) (lowest_level t f) found
              ∙ ap g (sym (same_leaf v a va e)))
        | no n ↦
            let b : (page_number a == page_number va) ≡ false = ground (arith, n) in
            rw b (
              leaf-other wu t va (g (leaf_entry v va)) (lowest_level t f) found a (λ e. n (sym e))
              ∙ same a)
      ]

  leaf_found :
      (t : ℕ)
      → find_table v.table (v.root / page_size) (path_of va) ≡ some t
      → leaf_entry v va ≡ v.table t (page_index va 12)
  leaf_found t f = ap (λ o. entry_of v.table o (page_index va 12)) f

-- What `protect` makes of a leaf entry.
abbrev pub protected_leaf : PageFlags → ℕ → ℕ
protected_leaf flags e =
    if e == 0 then 0 else entry_page e * page_size + flags_to_entry (with_present flags)

pub protect_page_lem :
    {level : ℕ → ℕ} {path : ℕ → List ℕ} (flags : PageFlags) (v : VirtualMemory) (va : ℕ)
    → IsTree v level path
    → PageStep level path (protected_leaf flags) v va (protect_page v va flags)
unfolding protect_page
protect_page_lem {level} {path} flags v va w =
    subst (λ r. PageStep level path (protected_leaf flags) v va (page_protected r va flags))
      (sym (walk_found v va w.ready))
      (go (find_table v.table (v.root / page_size) (path_of va)) refl)
  where
    go :
        (o : Option ℕ)
        → find_table v.table (v.root / page_size) (path_of va) ≡ o
        → PageStep level path (protected_leaf flags) v va (page_protected (v, o) va flags)
    go none f =
        unmapped_step w va (protected_leaf flags)
          (ap (λ o. entry_of v.table o (page_index va 12)) f)
    go (some t) f = elim (entry_cases (v.table t (page_index va 12))) [
      | inl z ↦
          let b : (v.table t (page_index va 12) == 0) ≡ true = ground (arith, z) in
          rw b (unmapped_step w va (protected_leaf flags) (leaf_found w va t f ∙ z))
      | inr n ↦
          let b : (v.table t (page_index va 12) == 0) ≡ false = ground (arith, n) in
          let new : protected_leaf flags (leaf_entry v va)
              ≡ entry_page (v.table t (page_index va 12)) * page_size
                + flags_to_entry (with_present flags) =
            ap (protected_leaf flags) (leaf_found w va t f) ∙ rw b refl in
          rw b (
            subst (λ e. PageStep level path (protected_leaf flags) v va (store_leaf v t va e, true))
              new
              (written_step w va (protected_leaf flags) v t w refl refl f
                (λ z. n (sym (leaf_found w va t f) ∙ z))))
    ]

-- The tables stay a tree when a page that is no table is freed.
freed-IsTree :
    {v : VirtualMemory} {level : ℕ → ℕ} {path : ℕ → List ℕ}
    → IsTree v level path
    → (p : ℕ) → level p ≡ 0
    → IsTree (record v { frames = (free v.frames (p * page_size)).0 }) level path
freed-IsTree {v} {level} {path} w p h = elim (free_lem v.frames (p * page_size) w.frames_ready) [
  | inr (_, e) ↦ subst (λ r. IsTree (record v { frames = r.0 }) level path) (sym e) w
  | inl (_, e) ↦ record {
    ready = w.ready;
    root_level = w.root_level;
    root_path = w.root_path;
    child_level = w.child_level;
    child_path = w.child_path;
    small_pages = w.small_pages;
    free_pages = free_pages e;
    frames = free-WellFormed (p * page_size) w.frames w.frames_ready;
    frames_ready = ap (λ r. r.0.initialized) e ∙ w.frames_ready;
    addressable = subst (λ r. r.0.page_count ≤ 2 ^ 40) (sym e) w.addressable;
  }
]
  where
    number : p * page_size / page_size ≡ p
    number = omega arith

    free_pages :
        free v.frames (p * page_size) ≡ (returned v.frames (p * page_size / page_size), true)
        → (q : ℕ) → q < (free v.frames (p * page_size)).0.page_count
        → (free v.frames (p * page_size)).0.bitmap q ≡ true
        → level q ≡ 0
    free_pages e q l b = elim (ℕ_discrete p q) [
      | yes k ↦ ap level (sym k) ∙ h
      | no n ↦ w.free_pages q (subst (λ r. q < r.0.page_count) e l) (
          sym
            (update_ne v.frames.bitmap (p * page_size / page_size) q true (λ k. n (sym number ∙ k)))
          ∙ sym (ap (λ r. r.0.bitmap q) e)
          ∙ b)
    ]

pub release_page_lem :
    {level : ℕ → ℕ} {path : ℕ → List ℕ} (v : VirtualMemory) (va : ℕ)
    → IsTree v level path
    → level (entry_page (leaf_entry v va)) ≡ 0
    → PageStep level path (λ e. 0) v va (release_page v va)
unfolding release_page
release_page_lem {level} {path} v va w h =
    subst (λ r. PageStep level path (λ e. 0) v va (page_released r va))
      (sym (walk_found v va w.ready))
      (go (find_table v.table (v.root / page_size) (path_of va)) refl)
  where
    go :
        (o : Option ℕ)
        → find_table v.table (v.root / page_size) (path_of va) ≡ o
        → PageStep level path (λ e. 0) v va (page_released (v, o) va)
    go none f = unmapped_step w va (λ e. 0) (ap (λ o. entry_of v.table o (page_index va 12)) f)
    go (some t) f = elim (entry_cases (v.table t (page_index va 12))) [
      | inl z ↦
          let b : (v.table t (page_index va 12) == 0) ≡ true = ground (arith, z) in
          rw b (unmapped_step w va (λ e. 0) (leaf_found w va t f ∙ z))
      | inr n ↦
          let b : (v.table t (page_index va 12) == 0) ≡ false = ground (arith, n) in
          rw b (
            written_step w va (λ e. 0) _ t
              (freed-IsTree w (entry_page (v.table t (page_index va 12)))
                (ap (λ e. level (entry_page e)) (sym (leaf_found w va t f)) ∙ h))
              refl refl f (λ z. n (sym (leaf_found w va t f) ∙ z)))
    ]

-- `release_page` only frees, on any tables.
pub release_page-Frees :
    (v : VirtualMemory) (va : ℕ)
    → v.initialized ≡ true
    → WellFormed v.frames
    → v.frames.initialized ≡ true
    → Frees v (release_page v va).0
unfolding release_page
release_page-Frees v va ready w on =
    subst (λ r. Frees v (page_released r va).0) (sym (walk_found v va ready))
      (go (find_table v.table (v.root / page_size) (path_of va)))
  where
    go : (o : Option ℕ) → Frees v (page_released (v, o) va).0
    go none = Frees-refl v w on
    go (some t) = elim (entry_cases (v.table t (page_index va 12))) [
      | inl z ↦
          let b : (v.table t (page_index va 12) == 0) ≡ true = ground (arith, z) in
          rw b (Frees-refl v w on)
      | inr n ↦
          let b : (v.table t (page_index va 12) == 0) ≡ false = ground (arith, n) in
          rw b (free_word-Frees v w on t (page_index va 12))
    ]
