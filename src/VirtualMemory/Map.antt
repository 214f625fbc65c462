-- ===== src/VirtualMemory/Map.antt =====
-- One round of the loop of `map_physical`.
use os.Base.{
  ℕ, ◌+◌, ◌-◌, ◌*◌, ◌/◌, ◌%◌, ◌^◌, ◌≡◌, refl, Bool, true, false, Option, none, some, List, ◌==◌,
  if◌then◌else◌, arith, ap, ◌∙◌, sym, ℕ_discrete, leb, ltb, ◌&&◌,
}
use os.PageFrame.{page_size}
use os.VirtualMemory.{
  VirtualMemory, PageFlags, entry_page, find_table, page_index, path_of, with_present,
  flags_to_entry, ensure_root, walk_to_leaf, create_tables, store_leaf, leaf_stored, map_page,
}
use os.VirtualMemory.Tree.{IsTree, leaf_entry}
use os.VirtualMemory.Ensure.{Keeps, AllBusy}
use os.VirtualMemory.Walk.{CreateResult, create_tables_lem}
use os.VirtualMemory.Store.{
  indices_same, page_number, SamePage, path_IsIndex, stored-IsTree, leaf-stored, leaf-other,
}

-- The leaf entry of page `i` of a range that begins at `physical_address`.
abbrev pub leaf_value : ℕ → PageFlags → ℕ → ℕ
leaf_value physical_address flags i =
    (physical_address / page_size + i) % 2 ^ 40 * page_size + flags_to_entry (with_present flags)

-- The leaf entry of address `a` once the pages `start` to `end` of a range have been mapped, from the
-- leaf entry `old` that it had; page `first` is where the range begins.
abbrev pub mapped_leaf : ℕ → ℕ → PageFlags → ℕ → ℕ → ℕ → ℕ → ℕ
mapped_leaf first physical_address flags start end a old =
    if leb (first + start) (page_number a) && ltb (page_number a) (first + end)
    then leaf_value physical_address flags (page_number a - first)
    else old

-- The tables form a tree whose leaf entries are `leaf`.
abbrev pub HasLeaves : VirtualMemory → ℕ → (ℕ → ℕ) → Type 0
HasLeaves v root leaf =
    (level : ℕ → ℕ) × (path : ℕ → List ℕ) × IsTree v level path
    × (v.root ≡ root)
    × ((a : ℕ) → leaf_entry v a ≡ leaf a)

abbrev pub page_leaf : ℕ → ℕ → Bool → (ℕ → ℕ) → ℕ → ℕ
page_leaf va e mapped old a = if mapped && (page_number a == page_number va) then e else old a

abbrev pub MapPageResult : VirtualMemory → ℕ → ℕ → VirtualMemory × Bool → Type 0
MapPageResult v va e (v', mapped) =
    HasLeaves v' v.root (page_leaf va e mapped (leaf_entry v))
    × (if mapped then v'.initialized ≡ true else AllBusy v'.frames)

-- Addresses in the same page have the same leaf entry.
pub same_leaf : (v : VirtualMemory) (a b : ℕ) → SamePage a b → leaf_entry v a ≡ leaf_entry v b
same_leaf v a b h = let (x, y, z, u) = indices_same a b h in rw (x, y, z, u) refl

module _ {v : VirtualMemory} {level : ℕ → ℕ} {path : ℕ → List ℕ} (w : IsTree v level path)
    (va pa : ℕ) (flags : PageFlags) where
  abbrev entry : ℕ
  entry = entry_page pa * page_size + flags_to_entry (with_present flags)

  walk_create :
      walk_to_leaf v va true flags.user
      ≡ create_tables v flags.user (v.root / page_size) (path_of va)
  unfolding walk_to_leaf ensure_root
  walk_create = rw w.ready refl

  kept_leaf :
      (v' : VirtualMemory) (level' : ℕ → ℕ)
      → Keeps v v' level level'
      → (a : ℕ) → leaf_entry v' a ≡ leaf_entry v a
  kept_leaf v' level' k a =
      let top = w.root_level in
      ap (λ r. leaf_entry (record v' { root = r }) a) k.root
      ∙ k.entries (v.root / page_size) (path_of a) (page_index a 12) (path_IsIndex a) (omega arith)
          (omega (arith, top))

  stored_leaf :
      (v' : VirtualMemory) (level' : ℕ → ℕ) (path' : ℕ → List ℕ) (t : ℕ)
      → IsTree v' level' path'
      → Keeps v v' level level'
      → level' t ≡ 1
      → find_table v'.table (v'.root / page_size) (path_of va) ≡ some t
      → (a : ℕ) → leaf_entry (store_leaf v' t va entry) a ≡ page_leaf va entry true (leaf_entry v) a
  stored_leaf v' level' path' t w' k l f a = elim (ℕ_discrete (page_number a) (page_number va)) [
    | yes e ↦
        let b : (page_number a == page_number va) ≡ true = ground (arith, e) in
        rw b (same_leaf (store_leaf v' t va entry) a va e ∙ leaf-stored w' t va entry l f)
    | no n ↦
        let b : (page_number a == page_number va) ≡ false = ground (arith, n) in
        rw b (leaf-other w' t va entry l f a (λ e. n (sym e)) ∙ kept_leaf v' level' k a)
  ]

  stored_page :
      (r : VirtualMemory × Option ℕ)
      → CreateResult v level (v.root / page_size) (path_of va) r
      → MapPageResult v va entry (leaf_stored r va pa flags)
  stored_page (v', none) (level', path', w', k, busy) =
      ((level', path', w', k.root, kept_leaf v' level' k), busy)
  stored_page (v', some t) (level', path', w', k, (f, l)) = (
    (
      level',
      path',
      stored-IsTree w' t va entry l,
      k.root,
      stored_leaf v' level' path' t w' k l
          (ap (λ r. find_table v'.table (r / page_size) (path_of va)) k.root ∙ f),
    ),
    w'.ready,
  )

  -- One page is mapped and every other leaf entry stays, or nothing changes and no page is free.
  pub map_page_lem : MapPageResult v va entry (map_page v va pa flags)
  unfolding map_page
  map_page_lem =
      let top = w.root_level in
      rw walk_create (
        stored_page (create_tables v flags.user (v.root / page_size) (path_of va)) (
          create_tables_lem v level path flags.user (v.root / page_size) (path_of va) w
            (path_IsIndex va) (omega (arith, top))))
