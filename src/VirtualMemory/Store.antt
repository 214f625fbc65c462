-- ===== src/VirtualMemory/Store.antt =====
-- Writing a leaf entry, as `map_physical`, `protect` and `free` do.
use os.Base.{
  ℕ, ◌+◌, ◌/◌, ◌%◌, ◌^◌, ◌<◌, ◌≡◌, refl, inl, inr, Option, none, some, List, [], ◌∷◌, length, All,
  arith, ap, ◌∙◌, sym, subst, ℕ_discrete,
}
use os.PageFrame.{page_size}
use os.VirtualMemory.{VirtualMemory, entry_page, find_table, page_index, path_of, store_leaf}
use os.VirtualMemory.Tree.{
  IsTree, IsIndex, entry_of, leaf_entry, find_table-present, find_table-missing, entry_cases,
  same_path,
}
use os.VirtualMemory.Ensure.{write_table, write_index, write_self}

-- The page of the 48-bit address space that an address is in.
unfoldable pub page_number : ℕ → ℕ
page_number a = a / page_size % 2 ^ 36

abbrev pub SamePage : ℕ → ℕ → Type 0
SamePage a b = page_number a ≡ page_number b

pub same_indices :
    (a b : ℕ)
    → page_index a 39 ≡ page_index b 39
    → page_index a 30 ≡ page_index b 30
    → page_index a 21 ≡ page_index b 21
    → page_index a 12 ≡ page_index b 12
    → SamePage a b
unfolding page_number
same_indices a b x y z u = omega (arith, x, y, z, u)

pub indices_same :
    (a b : ℕ)
    → SamePage a b
    → (page_index a 39 ≡ page_index b 39)
      × (page_index a 30 ≡ page_index b 30)
      × (page_index a 21 ≡ page_index b 21)
      × (page_index a 12 ≡ page_index b 12)
unfolding page_number
indices_same a b h = (omega (arith, h), omega (arith, h), omega (arith, h), omega (arith, h))

pub path_IsIndex : (va : ℕ) → All IsIndex (path_of va)
path_IsIndex va = (omega arith, (omega arith, (omega arith, tt)))

module _ {v : VirtualMemory} {level : ℕ → ℕ} {path : ℕ → List ℕ} (w : IsTree v level path)
    (t va e : ℕ) (lowest : level t ≡ 1) where
  abbrev pub stored : VirtualMemory
  stored = store_leaf v t va e

  upper : (q j : ℕ) → 1 < level q → stored.table q j ≡ v.table q j
  upper q j h =
      write_table v.table t (page_index va 12) e q j (λ x. let k = ap level x in omega (arith, k))

  pub stored-IsTree : IsTree stored level path
  stored-IsTree = record {
    ready = w.ready;
    root_level = w.root_level;
    root_path = w.root_path;
    child_level = λ p i x l n.
        let u = upper p i l in
        ap (λ y. level (entry_page y) + 1) u ∙ w.child_level p i x l (λ z. n (u ∙ z));
    child_path = λ p i x l n.
        let u = upper p i l in
        ap (λ y. path (entry_page y)) u ∙ w.child_path p i x l (λ z. n (u ∙ z));
    small_pages =
        λ p i x l. ap (λ y. y / 128 % 2) (upper p i (omega (arith, l))) ∙ w.small_pages p i x l;
    free_pages = w.free_pages;
    frames = w.frames;
    frames_ready = w.frames_ready;
    addressable = w.addressable;
  }

  find-stored :
      (p : ℕ) (is : List ℕ)
      → All IsIndex is
      → level p ≡ length is + 1
      → find_table stored.table p is ≡ find_table v.table p is
  unfolding find_table
  find-stored p [] a l = refl
  find-stored p (i ∷ is) a l =
      let u = upper p i (omega (arith, l)) in
      elim (entry_cases (v.table p i)) [
        | inl z ↦
            find_table-missing stored.table p i is (u ∙ z)
            ∙ sym (find_table-missing v.table p i is z)
        | inr n ↦
            let down = w.child_level p i a.0 (omega (arith, l)) n in
            find_table-present stored.table p i is (λ z. n (sym u ∙ z))
            ∙ ap (λ y. find_table stored.table (entry_page y) is) u
            ∙ find-stored (entry_page (v.table p i)) is a.1 (omega (arith, down, l))
            ∙ sym (find_table-present v.table p i is n)
      ]

  find_leaf :
      (a : ℕ)
      → find_table stored.table (v.root / page_size) (path_of a)
        ≡ find_table v.table (v.root / page_size) (path_of a)
  find_leaf a =
      let top = w.root_level in
      find-stored (v.root / page_size) (path_of a) (path_IsIndex a) (omega (arith, top))

  -- The leaf entry that was written is the entry of its address.
  pub leaf-stored :
      find_table v.table (v.root / page_size) (path_of va) ≡ some t → leaf_entry stored va ≡ e
  leaf-stored f =
      ap (λ o. entry_of stored.table o (page_index va 12)) (find_leaf va ∙ f)
      ∙ write_self v.table t (page_index va 12) e

  -- No other page's leaf entry changes.
  pub leaf-other :
      find_table v.table (v.root / page_size) (path_of va) ≡ some t
      → (a : ℕ) → ¬ SamePage va a
      → leaf_entry stored a ≡ leaf_entry v a
  leaf-other f a ne =
      ap (λ o. entry_of stored.table o (page_index a 12)) (find_leaf a)
      ∙ at (find_table v.table (v.root / page_size) (path_of a)) refl
    where
      same :
          (q : ℕ)
          → find_table v.table (v.root / page_size) (path_of a) ≡ some q
          → t ≡ q
          → page_index va 12 ≡ page_index a 12
          → SamePage va a
      same q g k z =
          let (x, y, u) =
            same_path w (page_index va 39) (page_index va 30) (page_index va 21) (page_index a 39)
              (page_index a 30) (page_index a 21) t (path_IsIndex va) (path_IsIndex a) f
              (g ∙ ap some (sym k)) in
          same_indices va a x y u z

      at :
          (o : Option ℕ)
          → find_table v.table (v.root / page_size) (path_of a) ≡ o
          → entry_of stored.table o (page_index a 12) ≡ entry_of v.table o (page_index a 12)
      at none g = refl
      at (some q) g = elim (ℕ_discrete t q) [
        | no k ↦ write_table v.table t (page_index va 12) e q (page_index a 12) k
        | yes k ↦
            subst (λ r. stored.table r (page_index a 12) ≡ v.table r (page_index a 12)) k
              (write_index v.table t (page_index va 12) e (page_index a 12)
                (λ z. ne (same q g k z)))
      ]
