-- ===== src/VirtualMemory/Walk.antt =====
-- `ensure_table_entry` and the creating walk of `walk_to_leaf` on the tree of tables.
use os.Base.{
  ℕ, ◌+◌, ◌<◌, ◌≡◌, refl, ◌≢◌, inl, inr, Bool, true, false, Option, none, some, List, [], ◌∷◌,
  length, All, ◌==◌, if◌then◌else◌, arith, ap, ◌∙◌, sym, subst,
}
use os.PageFrame.{allocate}
use os.PageFrame.Single.{allocate_lem}
use os.VirtualMemory.{
  VirtualMemory, entry_page, find_table, write_entry, with_user, table_allocated,
  ensure_table_entry, create_tables,
}
use os.VirtualMemory.Tree.{IsTree, IsIndex, find_table-present, entry_cases}
use os.VirtualMemory.Ensure.{
  Extends, Ensured, AllBusy, Alike, Keeps, Keeps-refl, alike-IsTree, alike-Keeps, user-Alike,
  write_table,
}
use os.VirtualMemory.Grow.{table_grown}

module _ {v : VirtualMemory} {level : ℕ → ℕ} {path : ℕ → List ℕ} (w : IsTree v level path) (p i : ℕ)
    (user : Bool) (deep : 1 < level p) (index : IsIndex i) where
  ensure-present :
      v.table p i ≢ 0
      → ensure_table_entry v p i user ≡ (
        if user then record v { table = write_entry v.table p i (with_user (v.table p i)) } else v,
        true,
      )
  unfolding ensure_table_entry
  ensure-present h = let e : (v.table p i == 0) ≡ false = ground (arith, h) in rw e refl

  ensure-absent :
      v.table p i ≡ 0
      → ensure_table_entry v p i user ≡ table_allocated v p i user (allocate v.frames)
  unfolding ensure_table_entry
  ensure-absent h = let e : (v.table p i == 0) ≡ true = ground (arith, h) in rw e refl

  abbrev EnsureResult : VirtualMemory × Bool → Type 0
  EnsureResult (v', made) = Extends v level v' × Ensured v' p i made

  ensure_user :
      v.table p i ≢ 0
      → EnsureResult (record v { table = write_entry v.table p i (with_user (v.table p i)) }, true)
  ensure_user h = (
    (
      level,
      path,
      alike-IsTree w refl refl refl alike leaves,
      alike-Keeps w refl refl refl alike leaves,
    ),
    (alike p i).1 h,
  )
    where
      alike :
          (q j : ℕ) → Alike (v.table q j) (write_entry v.table p i (with_user (v.table p i)) q j)
      alike = user-Alike v.table p i h

      leaves :
          (q j : ℕ)
          → level q ≡ 1
          → write_entry v.table p i (with_user (v.table p i)) q j ≡ v.table q j
      leaves q j l = write_table v.table p i _ q j (λ e. let k = ap level e in omega (arith, k, l))

  ensure_flags :
      v.table p i ≢ 0
      → (b : Bool)
      → EnsureResult (
        if b then record v { table = write_entry v.table p i (with_user (v.table p i)) } else v,
        true,
      )
  ensure_flags h false = ((level, path, w, Keeps-refl v level), h)
  ensure_flags h true = ensure_user h

  -- The tree stays a tree with the tables and leaf entries it had, and the entry then leads to a table
  -- unless every page is busy.
  pub ensure_lem : EnsureResult (ensure_table_entry v p i user)
  ensure_lem = elim (entry_cases (v.table p i)) [
    | inr h ↦ subst EnsureResult (sym (ensure-present h)) (ensure_flags h user)
    | inl z ↦
        subst EnsureResult (sym (ensure-absent z)) (elim (allocate_lem w.frames w.frames_ready) [
          | inl (e, busy) ↦
              subst (λ r. EnsureResult (table_allocated v p i user r)) (sym e)
                ((level, path, w, Keeps-refl v level), busy)
          | inr (n, lowest, e) ↦
              subst (λ r. EnsureResult (table_allocated v p i user r)) (sym e)
                (table_grown v level path w p i n user deep index z lowest)
        ])
  ]

pub Keeps-trans :
    {v v' v'' : VirtualMemory} {level level' level'' : ℕ → ℕ}
    → Keeps v v' level level'
    → Keeps v' v'' level' level''
    → Keeps v v'' level level''
Keeps-trans {v} {v'} {v''} {level} {level'} {level''} a b = record {
  root = b.root ∙ a.root;
  levels = λ q h. b.levels q (let e = a.levels q h in omega arith) ∙ a.levels q h;
  targets = λ q j x h n.
      let one = a.targets q j x h n in
      let same = a.levels q (omega arith) in
      let two = b.targets q j x (omega (arith, same)) one.0 in (two.0, two.1 ∙ one.1);
  entries = λ q is j x y l.
      let same = a.levels q (omega (arith, l)) in
      b.entries q is j x y (same ∙ l) ∙ a.entries q is j x y l;
}

-- What the creating walk ends with: the table that the indices now lead to, or no page was free.
abbrev pub Reached : VirtualMemory → (ℕ → ℕ) → ℕ → List ℕ → Option ℕ → Type 0
Reached v level p is none = AllBusy v.frames
Reached v level p is (some t) = (find_table v.table p is ≡ some t) × (level t ≡ 1)

abbrev pub CreateResult : VirtualMemory → (ℕ → ℕ) → ℕ → List ℕ → VirtualMemory × Option ℕ → Type 0
CreateResult v level p is (v', o) =
    (level' : ℕ → ℕ) × (path' : ℕ → List ℕ) × IsTree v' level' path'
    × Keeps v v' level level'
    × Reached v' level' p is o

create_tables_made :
    (v : VirtualMemory) (user : Bool) (p i : ℕ) (is : List ℕ) (v1 : VirtualMemory)
    → ensure_table_entry v p i user ≡ (v1, true)
    → create_tables v user p (i ∷ is) ≡ create_tables v1 user (entry_page (v1.table p i)) is
unfolding create_tables
create_tables_made v user p i is v1 e = rw e refl

create_tables_failed :
    (v : VirtualMemory) (user : Bool) (p i : ℕ) (is : List ℕ) (v1 : VirtualMemory)
    → ensure_table_entry v p i user ≡ (v1, false)
    → create_tables v user p (i ∷ is) ≡ (v1, none)
unfolding create_tables
create_tables_failed v user p i is v1 e = rw e refl

-- The walk below an entry that leads to a table gives the walk with the entry.
Reached-below :
    {v1 v' : VirtualMemory} {level1 level' : ℕ → ℕ}
    → Keeps v1 v' level1 level'
    → (p i : ℕ) (is : List ℕ) (o : Option ℕ) → IsIndex i
    → 1 < level1 p
    → v1.table p i ≢ 0
    → Reached v' level' (entry_page (v1.table p i)) is o
    → Reached v' level' p (i ∷ is) o
Reached-below k p i is none x l n r = r
Reached-below {v1} {v'} k p i is (some t) x l n r =
    let go = k.targets p i x l n in
    (find_table-present v'.table p i is go.0 ∙ ap (λ q. find_table v'.table q is) go.1 ∙ r.0, r.1)

-- The creating walk keeps the tree and every leaf entry, and ends at the lowest table of its
-- indices, or no page was free.
pub create_tables_lem :
    (v : VirtualMemory) (level : ℕ → ℕ) (path : ℕ → List ℕ) (user : Bool) (p : ℕ) (is : List ℕ)
    → IsTree v level path
    → All IsIndex is
    → level p ≡ length is + 1
    → CreateResult v level p is (create_tables v user p is)
unfolding create_tables find_table
create_tables_lem v level path user p [] w a l = (level, path, w, Keeps-refl v level, (refl, l))
create_tables_lem v level path user p (i ∷ is) w a l =
    go (λ v1 level1 path1. create_tables_lem v1 level1 path1 user (entry_page (v1.table p i)) is)
      (ensure_table_entry v p i user) refl (ensure_lem w p i user (omega (arith, l)) a.0)
  where
    Below : Type 0
    Below =
        (v1 : VirtualMemory) (level1 : ℕ → ℕ) (path1 : ℕ → List ℕ)
        → IsTree v1 level1 path1
        → All IsIndex is
        → level1 (entry_page (v1.table p i)) ≡ length is + 1
        → CreateResult v1 level1 (entry_page (v1.table p i)) is
            (create_tables v1 user (entry_page (v1.table p i)) is)

    after :
        (v1 : VirtualMemory) (level1 : ℕ → ℕ)
        → Keeps v v1 level level1
        → v1.table p i ≢ 0
        → (r : VirtualMemory × Option ℕ) → CreateResult v1 level1 (entry_page (v1.table p i)) is r
        → CreateResult v level p (i ∷ is) r
    after v1 level1 k1 n (v2, o) (level2, path2, w2, k2, r) =
        let same = k1.levels p (omega (arith, l)) in
        (
          level2,
          path2,
          w2,
          Keeps-trans k1 k2,
          Reached-below k2 p i is o a.0 (omega (arith, same, l)) n r,
        )

    go :
        Below
        → (r : VirtualMemory × Bool) → ensure_table_entry v p i user ≡ r
        → Extends v level r.0 × Ensured r.0 p i r.1
        → CreateResult v level p (i ∷ is) (create_tables v user p (i ∷ is))
    go below (v1, false) e ((level1, path1, w1, k1), busy) =
        subst (CreateResult v level p (i ∷ is)) (sym (create_tables_failed v user p i is v1 e))
          (level1, path1, w1, k1, busy)
    go below (v1, true) e ((level1, path1, w1, k1), n) =
        let same = k1.levels p (omega (arith, l)) in
        let down = w1.child_level p i a.0 (omega (arith, same, l)) n in
        subst (CreateResult v level p (i ∷ is)) (sym (create_tables_made v user p i is v1 e)) (
          after v1 level1 k1 n (create_tables v1 user (entry_page (v1.table p i)) is)
            (below v1 level1 path1 w1 a.1 (omega (arith, down, same, l))))
