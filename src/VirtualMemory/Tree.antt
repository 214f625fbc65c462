-- ===== src/VirtualMemory/Tree.antt =====
-- When the page tables form a tree over busy pages, and the leaf entry that an address has.
use os.Base.{
  ℕ, zero, suc, ◌+◌, ◌/◌, ◌%◌, ◌^◌, ◌≤◌, ◌<◌, ◌≡◌, refl, ◌≢◌, ◌⊎◌, inl, inr, true, false, Option,
  none, some, List, [], ◌∷◌, ◌++◌, length, All, ◌==◌, arith, ap, ◌∙◌, sym, none-ne-some, some_inj,
}
use os.PageFrame.{page_size}
use os.PageFrame.Inv.{WellFormed}
use os.VirtualMemory.{VirtualMemory, Tables, entry_page, find_table, page_index, path_of}

abbrev pub IsIndex : ℕ → Type 0
IsIndex i = i < 512

-- `level` is 4 for the root, 3, 2 and 1 for the tables below it and 0 for other pages; `path` lists
-- the indices that lead to a table, the last one first. No page of 2 MiB is mapped.
pub record IsTree (v : VirtualMemory) (level : ℕ → ℕ) (path : ℕ → List ℕ) : Type 0 where
  pub ready : v.initialized ≡ true
  pub root_level : level (v.root / page_size) ≡ 4
  pub root_path : path (v.root / page_size) ≡ []
  pub child_level :
      (p i : ℕ)
      → IsIndex i
      → 1 < level p
      → v.table p i ≢ 0
      → level (entry_page (v.table p i)) + 1 ≡ level p
  pub child_path :
      (p i : ℕ)
      → IsIndex i
      → 1 < level p
      → v.table p i ≢ 0
      → path (entry_page (v.table p i)) ≡ i ∷ path p
  pub small_pages : (p i : ℕ) → IsIndex i → level p ≡ 2 → v.table p i / 128 % 2 ≡ 0
  pub free_pages : (p : ℕ) → p < v.frames.page_count → v.frames.bitmap p ≡ true → level p ≡ 0
  pub frames : WellFormed v.frames
  pub frames_ready : v.frames.initialized ≡ true
  pub addressable : v.frames.page_count ≤ 2 ^ 40

-- The entry `j` of the table that the indices lead to from `p`; 0 where a table is missing.
abbrev pub entry_of : Tables → Option ℕ → ℕ → ℕ
entry_of table none j = 0
entry_of table (some t) j = table t j

abbrev pub entry_at : Tables → ℕ → List ℕ → ℕ → ℕ
entry_at table p is j = entry_of table (find_table table p is) j

-- The leaf entry of a virtual address.
abbrev pub leaf_entry : VirtualMemory → ℕ → ℕ
leaf_entry v virtual_address =
    entry_at v.table (v.root / page_size) (path_of virtual_address) (page_index virtual_address 12)

pub find_table-present :
    (table : Tables) (p i : ℕ) (is : List ℕ)
    → table p i ≢ 0
    → find_table table p (i ∷ is) ≡ find_table table (entry_page (table p i)) is
unfolding find_table
find_table-present table p i is h =
    let e : (table p i == 0) ≡ false = ground (arith, h) in rw e refl

pub find_table-missing :
    (table : Tables) (p i : ℕ) (is : List ℕ) → table p i ≡ 0 → find_table table p (i ∷ is) ≡ none
unfolding find_table
find_table-missing table p i is h = let e : (table p i == 0) ≡ true = ground (arith, h) in rw e refl

pub entry_cases : (n : ℕ) → (n ≡ 0) ⊎ (n ≢ 0)
entry_cases zero = inl refl
entry_cases (suc n) = inr (λ e. omega (arith, e))

-- A walk over more indices goes on from the table of the first ones, or stops with it.
pub find_table-append :
    (table : Tables) (p : ℕ) (is js : List ℕ) (q : ℕ)
    → find_table table p is ≡ some q
    → find_table table p (is ++ js) ≡ find_table table q js
unfolding find_table
find_table-append table p [] js q e = ap (λ r. find_table table r js) (some_inj e)
find_table-append table p (i ∷ is) js q e = elim (entry_cases (table p i)) [
  | inl z ↦ absurd (none-ne-some (sym (find_table-missing table p i is z) ∙ e))
  | inr n ↦
      find_table-present table p i (is ++ js) n
      ∙ find_table-append table (entry_page (table p i)) is js q
          (sym (find_table-present table p i is n) ∙ e)
]

pub find_table-stops :
    (table : Tables) (p : ℕ) (is js : List ℕ)
    → find_table table p is ≡ none
    → find_table table p (is ++ js) ≡ none
unfolding find_table
find_table-stops table p [] js e = absurd (none-ne-some (sym e))
find_table-stops table p (i ∷ is) js e = elim (entry_cases (table p i)) [
  | inl z ↦ find_table-missing table p i (is ++ js) z
  | inr n ↦
      find_table-present table p i (is ++ js) n
      ∙ find_table-stops table (entry_page (table p i)) is js
          (sym (find_table-present table p i is n) ∙ e)
]

abbrev pub reverse_onto : List ℕ → List ℕ → List ℕ
reverse_onto [] acc = acc
reverse_onto (i ∷ is) acc = reverse_onto is (i ∷ acc)

-- The table that indices lead to has their number of levels below, and knows the indices.
pub find_table-level :
    {v : VirtualMemory} {level : ℕ → ℕ} {path : ℕ → List ℕ}
    → IsTree v level path
    → (p : ℕ) (is : List ℕ) (t : ℕ) → All IsIndex is
    → length is < level p
    → find_table v.table p is ≡ some t
    → (level t + length is ≡ level p) × (path t ≡ reverse_onto is (path p))
unfolding find_table
find_table-level {v} {level} {path} w p [] t a l e =
    let k : p ≡ t = some_inj e in rw k (omega arith, refl)
find_table-level {v} {level} {path} w p (i ∷ is) t a l e = elim (entry_cases (v.table p i)) [
  | inl z ↦ absurd (none-ne-some (sym (find_table-missing v.table p i is z) ∙ e))
  | inr n ↦
      let down = w.child_level p i a.0 (omega arith) n in
      let known = w.child_path p i a.0 (omega arith) n in
      let rest =
        find_table-level w (entry_page (v.table p i)) is t a.1 (omega (arith, down))
          (sym (find_table-present v.table p i is n) ∙ e) in
      (omega (arith, rest.0, down), rest.1 ∙ ap (reverse_onto is) known)
]

-- Two paths of three indices from the root that lead to the same table are the same.
pub same_path :
    {v : VirtualMemory} {level : ℕ → ℕ} {path : ℕ → List ℕ}
    → IsTree v level path
    → (a b c a' b' c' t : ℕ) → All IsIndex (a ∷ b ∷ c ∷ [])
    → All IsIndex (a' ∷ b' ∷ c' ∷ [])
    → find_table v.table (v.root / page_size) (a ∷ b ∷ c ∷ []) ≡ some t
    → find_table v.table (v.root / page_size) (a' ∷ b' ∷ c' ∷ []) ≡ some t
    → (a ≡ a') × (b ≡ b') × (c ≡ c')
same_path {v} w a b c a' b' c' t h h' e e' =
    let top = w.root_level in
    let one = find_table-level w (v.root / page_size) (a ∷ b ∷ c ∷ []) t h (omega (arith, top)) e in
    let two =
      find_table-level w (v.root / page_size) (a' ∷ b' ∷ c' ∷ []) t h' (omega (arith, top)) e' in
    let eq = sym one.1 ∙ two.1 in (cc eq, cc eq, cc eq)
