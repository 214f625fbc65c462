-- ===== src/VirtualMemory/Translate.antt =====
-- `translate`, from leaf entries, after `map_physical` and on a new root.
use os.Base.{
  ℕ, ◌+◌, ◌-◌, ◌*◌, ◌/◌, ◌%◌, ◌^◌, ◌≤◌, ◌<◌, ◌≡◌, refl, inl, inr, Bool, true, false, Option, none,
  some, List, [], ◌∷◌, ◌==◌, if◌then◌else◌, arith, ap, ◌∙◌, sym, subst, Bool-cases, leb, ltb, ◌&&◌,
}
use os.PageFrame.{page_size}
use os.VirtualMemory.{
  VirtualMemory, PageFlags, entry_page, entry_flags, find_table, page_index, with_present,
  flags_to_entry, bit_value, map_physical, map_pages, translate, translate_leaf, translate_second,
}
use os.VirtualMemory.Tree.{
  IsTree, leaf_entry, entry_of, entry_at, find_table-level, find_table-append, find_table-stops,
  entry_cases,
}
use os.VirtualMemory.Ensure.{AllBusy, entry_at-nil, entry_at-missing, entry_at-present}
use os.VirtualMemory.Store.{page_number, path_IsIndex}
use os.VirtualMemory.Map.{mapped_leaf}
use os.VirtualMemory.MapLoop.{MapResult, map_pages_lem}

module _ {v : VirtualMemory} {level : ℕ → ℕ} {path : ℕ → List ℕ} (w : IsTree v level path)
    (a : ℕ) where
  abbrev top : ℕ
  top = v.root / page_size

  translate_at : Option ℕ → Option (ℕ × ℕ)
  translate_at none = none
  translate_at (some p) = translate_second v.table (v.table p (page_index a 21)) a

  translate-find :
      (o : Option ℕ)
      → find_table v.table top (page_index a 39 ∷ page_index a 30 ∷ []) ≡ o
      → translate v a ≡ translate_at o
  unfolding translate translate_at
  translate-find none e = rw (w.ready, e) refl
  translate-find (some p) e = rw (w.ready, e) refl

  level_two :
      (p : ℕ)
      → find_table v.table top (page_index a 39 ∷ page_index a 30 ∷ []) ≡ some p
      → level p ≡ 2
  level_two p e =
      let h = w.root_level in
      let x = path_IsIndex a in
      let d =
        find_table-level w top (page_index a 39 ∷ page_index a 30 ∷ []) p (x.0, (x.1.0, tt))
          (omega (arith, h)) e in
      omega (arith, h, d.0)

  second_leaf :
      (p : ℕ)
      → level p ≡ 2
      → translate_second v.table (v.table p (page_index a 21)) a
        ≡ translate_leaf (entry_at v.table p (page_index a 21 ∷ []) (page_index a 12)) a
  second_leaf p l = elim (entry_cases (v.table p (page_index a 21))) [
    | inl z ↦
        ap (λ e. translate_second v.table e a) z
        ∙ ap (λ e. translate_leaf e a)
            (sym (entry_at-missing v.table p (page_index a 21) [] (page_index a 12) z))
    | inr n ↦
        let small = w.small_pages p (page_index a 21) (path_IsIndex a).1.1.0 l in
        let present : (v.table p (page_index a 21) == 0) ≡ false = ground (arith, n) in
        let table : (v.table p (page_index a 21) / 128 % 2 == 1) ≡ false = ground (arith, small) in
        rw (present, table)
          (ap (λ e. translate_leaf e a)
            (sym (
              entry_at-present v.table p (page_index a 21) [] (page_index a 12) n
              ∙ entry_at-nil v.table (entry_page (v.table p (page_index a 21))) (page_index a 12))))
  ]

  -- The translation of an address is read off its leaf entry.
  pub translate-leaf : translate v a ≡ translate_leaf (leaf_entry v a) a
  unfolding translate_at
  translate-leaf = go (find_table v.table top (page_index a 39 ∷ page_index a 30 ∷ [])) refl
    where
      go :
          (o : Option ℕ)
          → find_table v.table top (page_index a 39 ∷ page_index a 30 ∷ []) ≡ o
          → translate v a ≡ translate_leaf (leaf_entry v a) a
      go none e =
          translate-find none e
          ∙ ap (λ o. translate_leaf (entry_of v.table o (page_index a 12)) a)
              (sym (
                find_table-stops v.table top (page_index a 39 ∷ page_index a 30 ∷ [])
                  (page_index a 21 ∷ []) e))
      go (some p) e =
          translate-find (some p) e
          ∙ second_leaf p (level_two p e)
          ∙ ap (λ o. translate_leaf (entry_of v.table o (page_index a 12)) a)
              (sym (
                find_table-append v.table top (page_index a 39 ∷ page_index a 30 ∷ [])
                  (page_index a 21 ∷ []) p e))

bit_value-small : (b : Bool) (n : ℕ) → bit_value b n ≤ n
bit_value-small true n = omega arith
bit_value-small false n = omega arith

no_execute-high : (b : Bool) → bit_value b (2 ^ 63) ≡ bit_value b 2048 * 2 ^ 52
no_execute-high true = refl
no_execute-high false = refl

leaf_parts :
    (page low high a : ℕ)
    → 0 < low
    → low < page_size
    → translate_leaf (page % 2 ^ 40 * page_size + (low + high * 2 ^ 52)) a
      ≡ some (page % 2 ^ 40 * page_size + a % page_size, low + high * 2 ^ 52)
leaf_parts page low high a l h =
    let present : (page % 2 ^ 40 * page_size + (low + high * 2 ^ 52) == 0) ≡ false =
      ground (arith, l) in
    let to : entry_page (page % 2 ^ 40 * page_size + (low + high * 2 ^ 52)) ≡ page % 2 ^ 40 =
      omega (arith, h) in
    let with : entry_flags (page % 2 ^ 40 * page_size + (low + high * 2 ^ 52))
        ≡ low + high * 2 ^ 52 =
      omega (arith, h) in
    rw (present, to, with) refl

-- What an entry with the flags of a mapping says.
pub flags-translate :
    (page : ℕ) (flags : PageFlags) (a : ℕ)
    → translate_leaf (page % 2 ^ 40 * page_size + flags_to_entry (with_present flags)) a
      ≡ some (page % 2 ^ 40 * page_size + a % page_size, flags_to_entry (with_present flags))
flags-translate page f a =
    let x = bit_value-small f.write 2 in
    let y = bit_value-small f.user 4 in
    rw (no_execute-high f.no_execute) (
      leaf_parts page (1 + bit_value f.write 2 + bit_value f.user 4) (bit_value f.no_execute 2048) a
        (omega arith) (omega (arith, x, y)))

-- The translation of address `a` once `end` pages from page `first` on are mapped to the frames from
-- `pa` on, from the translation `old` that it had.
abbrev pub mapped_translation : ℕ → ℕ → PageFlags → ℕ → ℕ → Option (ℕ × ℕ) → Option (ℕ × ℕ)
mapped_translation first pa flags end a old =
    if leb first (page_number a) && ltb (page_number a) (first + end)
    then some (
      (pa / page_size + (page_number a - first)) % 2 ^ 40 * page_size + a % page_size,
      flags_to_entry (with_present flags),
    )
    else old

mapped_leaf-translates :
    (first pa : ℕ) (flags : PageFlags) (end a old : ℕ)
    → translate_leaf (mapped_leaf first pa flags 0 end a old) a
      ≡ mapped_translation first pa flags end a (translate_leaf old a)
mapped_leaf-translates first pa flags end a old =
    let zero_start : first + 0 ≡ first = omega arith in
    elim (Bool-cases (leb first (page_number a) && ltb (page_number a) (first + end))) [
      | inl e ↦
          rw (zero_start, e) (flags-translate (pa / page_size + (page_number a - first)) flags a)
      | inr e ↦ rw (zero_start, e) refl
    ]

map_physical-loop :
    (v : VirtualMemory) (va pa n : ℕ) (flags : PageFlags)
    → 0 < n
    → va % page_size ≡ 0
    → pa % page_size ≡ 0
    → map_physical v va pa n flags ≡ map_pages v va pa flags n 0
unfolding map_physical
map_physical-loop v va pa n flags h x y =
    let some_pages : (n == 0) ≡ false = ground (arith, h) in rw (some_pages, x, y) refl

-- What `map_physical` of `n` pages leaves of the translations of `v`.
abbrev pub MapOutcome : VirtualMemory → ℕ → ℕ → PageFlags → ℕ → VirtualMemory × Bool → Type 0
MapOutcome v va pa flags n (v', mapped) =
    (end : ℕ) × ((level' : ℕ → ℕ) × (path' : ℕ → List ℕ) × IsTree v' level' path')
    × ((a : ℕ)
        → translate v' a ≡ mapped_translation (page_number va) pa flags end a (translate v a))
    × (if mapped then end ≡ n else (end < n) × AllBusy v'.frames)

-- On a tree of tables, and for a range of pages that does not leave the 48-bit address space,
-- `map_physical` maps the first `end` pages of the range to the frames from the physical address on
-- with the flags given and Present, leaves the translation of every other address as it was, and
-- leaves a tree of tables; it returns true and `end` is the number of pages asked for, or it
-- returns false, `end` is smaller and no page frame is free.
pub map_physical_lem :
    {v : VirtualMemory} {level : ℕ → ℕ} {path : ℕ → List ℕ}
    → IsTree v level path
    → (va pa n : ℕ) (flags : PageFlags) → 0 < n
    → va % page_size ≡ 0
    → pa % page_size ≡ 0
    → page_number va + n ≤ 2 ^ 36
    → MapOutcome v va pa flags n (map_physical v va pa n flags)
map_physical_lem {v} {level} {path} w va pa n flags h x y b =
    subst (MapOutcome v va pa flags n) (sym (map_physical-loop v va pa n flags h x y)) (
      go (map_pages v va pa flags n 0) (
        map_pages_lem va pa flags x y n 0 v v.root (leaf_entry v) (level, path, w, refl, λ a. refl)
          (omega (arith, b))))
  where
    go :
        (r : VirtualMemory × Bool)
        → MapResult v.root (leaf_entry v) (page_number va) pa flags 0 n r
        → MapOutcome v va pa flags n r
    go (v', mapped) (end, _, (level', path', w', _, leaf), c) = (
      end,
      (level', path', w'),
      λ a.
          translate-leaf w' a
          ∙ ap (λ e. translate_leaf e a) (leaf a)
          ∙ mapped_leaf-translates (page_number va) pa flags end a (leaf_entry v a)
          ∙ ap (mapped_translation (page_number va) pa flags end a) (sym (translate-leaf w a)),
      subst (λ m. if mapped then end ≡ m else (end < m) × AllBusy v'.frames) (omega arith) c,
    )
