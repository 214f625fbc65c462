-- ===== src/VirtualMemory/Grow.antt =====
-- A new table in the tree, and `ensure_table_entry` on every branch.
use os.Base.{
  ℕ, ◌+◌, ◌-◌, ◌*◌, ◌/◌, ◌%◌, ◌^◌, ◌<◌, ◌≡◌, refl, ◌≢◌, ◌⊎◌, inl, inr, Bool, true, false, List, [],
  ◌∷◌, length, All, arith, ap, ◌∙◌, sym, subst, Bool-cases, update, update_self, update_ne,
  ℕ_discrete, false≢true,
}
use os.PageFrame.{page_size}
use os.PageFrame.Single.{taken-WellFormed, taken, IsLowest}
use os.VirtualMemory.{VirtualMemory, entry_page, write_entry, zero_page, table_entry_flags}
use os.VirtualMemory.Tree.{IsTree, IsIndex, entry_at, entry_cases}
use os.VirtualMemory.Ensure.{
  Extends, Keeps, entry_at-present, entry_at-missing, entry_at-nil, write_self, write_table,
  write_index,
}

module _ (v : VirtualMemory) (level : ℕ → ℕ) (path : ℕ → List ℕ) (w : IsTree v level path)
    (p i n : ℕ) (user : Bool) (table_level : 1 < level p) (index : IsIndex i)
    (absent : v.table p i ≡ 0) (lowest : IsLowest v.frames n) where
  abbrev new_entry : ℕ
  new_entry = entry_page (n * page_size) * page_size + table_entry_flags user

  abbrev pub grown : VirtualMemory
  grown = record v {
    frames = taken v.frames n;
    table = write_entry (zero_page v.table (n * page_size / page_size)) p i new_entry;
  }

  abbrev level' : ℕ → ℕ
  level' = update level n (level p - 1)

  abbrev path' : ℕ → List ℕ
  path' = update path n (i ∷ path p)

  new_level : level n ≡ 0
  new_level = w.free_pages n lowest.in_range lowest.free_before

  new_ne : (q : ℕ) → 0 < level q → n ≢ q
  new_ne q h e = let l = new_level in let k = ap level e in omega (arith, k)

  same_page_number : n * page_size / page_size ≡ n
  same_page_number = omega arith

  below : n < 2 ^ 40
  below = let a = lowest.in_range in let b = w.addressable in omega arith

  new_target : (entry_page new_entry ≡ n) × (new_entry ≢ 0) × (new_entry / 128 % 2 ≡ 0)
  new_target = elim (Bool-cases user) [
    | inl u ↦ let b = below in rw u (omega arith, λ z. omega (arith, z), omega arith)
    | inr u ↦ let b = below in rw u (omega arith, λ z. omega (arith, z), omega arith)
  ]

  -- What a word of the new tables is.
  at_new : (j : ℕ) → grown.table n j ≡ 0
  at_new j =
      let ne : p ≢ n = λ e. new_ne p (omega arith) (sym e) in
      write_table (zero_page v.table (n * page_size / page_size)) p i new_entry n j ne
      ∙ ground (arith, same_page_number)

  at_entry : grown.table p i ≡ new_entry
  at_entry = write_self (zero_page v.table (n * page_size / page_size)) p i new_entry

  elsewhere : (q j : ℕ) → n ≢ q → (p ≡ q → i ≢ j) → grown.table q j ≡ v.table q j
  elsewhere q j h k = elim (ℕ_discrete p q) [
    | no ne ↦
        write_table (zero_page v.table (n * page_size / page_size)) p i new_entry q j ne ∙ zeroed
    | yes e ↦
        subst
          (λ r.
            write_entry (zero_page v.table (n * page_size / page_size)) p i new_entry r j
            ≡ zero_page v.table (n * page_size / page_size) r j)
          e (write_index (zero_page v.table (n * page_size / page_size)) p i new_entry j (k e))
        ∙ zeroed
  ]
    where
      zeroed : zero_page v.table (n * page_size / page_size) q j ≡ v.table q j
      zeroed = ground (arith, same_page_number, h)

  -- An entry of a table of the old tree: the new one, or as it was.
  old_or_new : (q j : ℕ) → 0 < level q → ((q ≡ p) × (j ≡ i)) ⊎ (grown.table q j ≡ v.table q j)
  old_or_new q j h = elim (ℕ_discrete p q) [
    | no ne ↦ inr (elsewhere q j (new_ne q h) (λ e. absurd (ne e)))
    | yes e ↦ elim (ℕ_discrete i j) [
      | yes k ↦ inl (sym e, sym k)
      | no k ↦ inr (elsewhere q j (new_ne q h) (λ _. k))
    ]
  ]

  level_old : (q : ℕ) → 0 < level q → level' q ≡ level q
  level_old q h = update_ne level n q (level p - 1) (new_ne q h)

  path_old : (q : ℕ) → 0 < level q → path' q ≡ path q
  path_old q h = update_ne path n q (i ∷ path p) (new_ne q h)

  empty_below : (is : List ℕ) (j : ℕ) → entry_at grown.table n is j ≡ 0
  empty_below [] j = entry_at-nil grown.table n j ∙ at_new j
  empty_below (a ∷ is) j = entry_at-missing grown.table n a is j (at_new a)

  entries_kept :
      (q : ℕ) (is : List ℕ) (j : ℕ)
      → All IsIndex is
      → level q ≡ length is + 1
      → entry_at grown.table q is j ≡ entry_at v.table q is j
  entries_kept q [] j a l = elim (old_or_new q j (omega (arith, l))) [
    | inl (e, _) ↦ absurd (let k = ap level e in omega (arith, k, l))
    | inr e ↦ entry_at-nil grown.table q j ∙ e ∙ sym (entry_at-nil v.table q j)
  ]
  entries_kept q (b ∷ is) j a l = elim (old_or_new q b (omega (arith, l))) [
    | inl (e, k) ↦
        let old : v.table q b ≡ 0 = ap (λ x. v.table x b) e ∙ ap (v.table p) k ∙ absent in
        let new : grown.table q b ≡ new_entry =
          ap (λ x. grown.table x b) e ∙ ap (grown.table p) k ∙ at_entry in
        let present : grown.table q b ≢ 0 = λ z. new_target.1 (sym new ∙ z) in
        entry_at-present grown.table q b is j present
        ∙ ap (λ x. entry_at grown.table x is j) (ap (λ x. entry_page x) new ∙ new_target.0)
        ∙ empty_below is j
        ∙ sym (entry_at-missing v.table q b is j old)
    | inr e ↦ elim (entry_cases (v.table q b)) [
      | inl z ↦
          entry_at-missing grown.table q b is j (e ∙ z) ∙ sym (entry_at-missing v.table q b is j z)
      | inr m ↦
          let down = w.child_level q b a.0 (omega (arith, l)) m in
          entry_at-present grown.table q b is j (λ z. m (sym e ∙ z))
          ∙ ap (λ x. entry_at grown.table x is j) (ap (λ x. entry_page x) e)
          ∙ entries_kept (entry_page (v.table q b)) is j a.1 (omega (arith, down, l))
          ∙ sym (entry_at-present v.table q b is j m)
    ]
  ]

  grown-Keeps : Keeps v grown level level'
  grown-Keeps = record {
    root = refl;
    levels = level_old;
    targets = targets;
    entries = λ q is j a b l. entries_kept q is j a l;
  }
    where
      targets :
          (q j : ℕ)
          → IsIndex j
          → 1 < level q
          → v.table q j ≢ 0
          → (grown.table q j ≢ 0) × (entry_page (grown.table q j) ≡ entry_page (v.table q j))
      targets q j x l m = elim (old_or_new q j (omega arith)) [
        | inl (e, k) ↦ absurd (m (ap (λ y. v.table y j) e ∙ ap (v.table p) k ∙ absent))
        | inr e ↦ (λ z. m (sym e ∙ z), ap (λ y. entry_page y) e)
      ]

  grown-IsTree : IsTree grown level' path'
  grown-IsTree = record {
    ready = w.ready;
    root_level = level_old (v.root / page_size) top ∙ w.root_level;
    root_path = path_old (v.root / page_size) top ∙ w.root_path;
    child_level = child_below;
    child_path = child_known;
    small_pages = small;
    free_pages = free;
    frames = taken-WellFormed w.frames lowest;
    frames_ready = w.frames_ready;
    addressable = w.addressable;
  }
    where
      top : 0 < level (v.root / page_size)
      top = let t = w.root_level in omega arith

      -- An entry of a table of the tree that leads somewhere: the new one, or an old one.
      lead :
          (q j : ℕ)
          → 1 < level' q
          → grown.table q j ≢ 0
          → (0 < level q)
            × (((q ≡ p) × (j ≡ i)) ⊎ ((v.table q j ≢ 0) × (grown.table q j ≡ v.table q j)))
      lead q j l m = elim (ℕ_discrete n q) [
        | yes e ↦ absurd (m (subst (λ x. grown.table x j ≡ 0) e (at_new j)))
        | no ne ↦
            let old = update_ne level n q (level p - 1) ne in
            let busy : 0 < level q = omega (arith, old) in
            elim (old_or_new q j busy) [
              | inl e ↦ (busy, inl e)
              | inr e ↦ (busy, inr (λ z. m (e ∙ z), e))
            ]
      ]

      child_below :
          (q j : ℕ)
          → IsIndex j
          → 1 < level' q
          → grown.table q j ≢ 0
          → level' (entry_page (grown.table q j)) + 1 ≡ level' q
      child_below q j x l m =
          let (busy, c) = lead q j l m in
          let same = level_old q busy in
          elim c [
            | inl (e, k) ↦
                let to : grown.table q j ≡ new_entry =
                  ap (λ y. grown.table y j) e ∙ ap (grown.table p) k ∙ at_entry in
                let there : level' (entry_page (grown.table q j)) ≡ level p - 1 =
                  ap (λ y. level' (entry_page y)) to
                  ∙ ap level' new_target.0
                  ∙ update_self level n (level p - 1) in
                let here = ap level e in omega (arith, there, same, here)
            | inr (old, e) ↦
                let down = w.child_level q j x (omega (arith, same)) old in
                let there =
                  ap (λ y. level' (entry_page y)) e
                  ∙ level_old (entry_page (v.table q j)) (omega (arith, down, same)) in
                omega (arith, there, same, down)
          ]

      child_known :
          (q j : ℕ)
          → IsIndex j
          → 1 < level' q
          → grown.table q j ≢ 0
          → path' (entry_page (grown.table q j)) ≡ j ∷ path' q
      child_known q j x l m =
          let (busy, c) = lead q j l m in
          let same = level_old q busy in
          elim c [
            | inl (e, k) ↦
                let to : grown.table q j ≡ new_entry =
                  ap (λ y. grown.table y j) e ∙ ap (grown.table p) k ∙ at_entry in
                ap (λ y. path' (entry_page y)) to
                ∙ ap path' new_target.0
                ∙ update_self path n (i ∷ path p)
                ∙ ap (λ y. y ∷ path p) (sym k)
                ∙ ap (λ y. j ∷ y) (ap path (sym e) ∙ sym (path_old q busy))
            | inr (old, e) ↦
                let down = w.child_level q j x (omega (arith, same)) old in
                ap (λ y. path' (entry_page y)) e
                ∙ path_old (entry_page (v.table q j)) (omega (arith, down, same))
                ∙ w.child_path q j x (omega (arith, same)) old
                ∙ ap (λ y. j ∷ y) (sym (path_old q busy))
          ]

      small : (q j : ℕ) → IsIndex j → level' q ≡ 2 → grown.table q j / 128 % 2 ≡ 0
      small q j x l = elim (entry_cases (grown.table q j)) [
        | inl z ↦ rw z refl
        | inr m ↦
            let (busy, c) = lead q j (omega (arith, l)) m in
            elim c [
              | inl (e, k) ↦
                  ap (λ y. y / 128 % 2)
                    (ap (λ y. grown.table y j) e ∙ ap (grown.table p) k ∙ at_entry)
                  ∙ new_target.2
              | inr (old, e) ↦
                  ap (λ y. y / 128 % 2) e ∙ w.small_pages q j x (sym (level_old q busy) ∙ l)
            ]
      ]

      free : (q : ℕ) → q < v.frames.page_count → (taken v.frames n).bitmap q ≡ true → level' q ≡ 0
      free q h f = elim (ℕ_discrete n q) [
        | yes e ↦ absurd (
            false≢true
              (sym (update_self v.frames.bitmap n false) ∙ ap (taken v.frames n).bitmap e ∙ f))
        | no ne ↦
            update_ne level n q (level p - 1) ne
            ∙ w.free_pages q h (sym (update_ne v.frames.bitmap n q false ne) ∙ f)
      ]

  pub table_grown : Extends v level grown × (grown.table p i ≢ 0)
  table_grown = ((level', path', grown-IsTree, grown-Keeps), λ z. new_target.1 (sym at_entry ∙ z))
