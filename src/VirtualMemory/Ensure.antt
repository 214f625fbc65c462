-- ===== src/VirtualMemory/Ensure.antt =====
-- `ensure_table_entry` and the tree of tables.
use os.Base.{
  ℕ, ◌+◌, ◌/◌, ◌%◌, ◌^◌, ◌≤◌, ◌<◌, ◌≡◌, refl, ◌≢◌, inl, inr, Bool, true, false, List, [], ◌∷◌,
  length, All, ◌==◌, if◌then◌else◌, arith, ap, ◌∙◌, sym, subst, Bool-cases, ℕ_discrete,
}
use os.PageFrame.{PageFrameContainer, page_size}
use os.PageFrame.Inv.{WellFormed}
use os.VirtualMemory.{VirtualMemory, Tables, entry_page, find_table, write_entry, with_user}
use os.VirtualMemory.Tree.{
  IsTree, IsIndex, entry_at, entry_of, find_table-present, find_table-missing, entry_cases,
}

-- What a change of the tables keeps for the tables that were there: their levels, where their entries
-- lead, and every leaf entry that is reached through them.
pub record Keeps (v v' : VirtualMemory) (level level' : ℕ → ℕ) : Type 0 where
  pub root : v'.root ≡ v.root
  pub levels : (q : ℕ) → 0 < level q → level' q ≡ level q
  pub targets :
      (q j : ℕ)
      → IsIndex j
      → 1 < level q
      → v.table q j ≢ 0
      → (v'.table q j ≢ 0) × (entry_page (v'.table q j) ≡ entry_page (v.table q j))
  pub entries :
      (q : ℕ) (is : List ℕ) (j : ℕ)
      → All IsIndex is
      → IsIndex j
      → level q ≡ length is + 1
      → entry_at v'.table q is j ≡ entry_at v.table q is j

-- `v'` holds the tables of `v`, and perhaps more of them.
abbrev pub Extends : VirtualMemory → (ℕ → ℕ) → VirtualMemory → Type 0
Extends v level v' =
    (level' : ℕ → ℕ) × (path' : ℕ → List ℕ) × IsTree v' level' path' × Keeps v v' level level'

abbrev pub AllBusy : PageFrameContainer → Type 0
AllBusy c = (i : ℕ) → i < c.page_count → c.bitmap i ≡ false

-- After `ensure_table_entry`: the entry leads to a table, or no page was free.
abbrev pub Ensured : VirtualMemory → ℕ → ℕ → Bool → Type 0
Ensured v p i made = if made then v.table p i ≢ 0 else AllBusy v.frames

pub Keeps-refl : (v : VirtualMemory) (level : ℕ → ℕ) → Keeps v v level level
Keeps-refl v level = record {
  root = refl;
  levels = λ q h. refl;
  targets = λ q j x h n. (n, refl);
  entries = λ q is j a b l. refl;
}

pub entry_at-present :
    (table : Tables) (p i : ℕ) (is : List ℕ) (j : ℕ)
    → table p i ≢ 0
    → entry_at table p (i ∷ is) j ≡ entry_at table (entry_page (table p i)) is j
entry_at-present table p i is j h = ap (λ o. entry_of table o j) (find_table-present table p i is h)

pub entry_at-missing :
    (table : Tables) (p i : ℕ) (is : List ℕ) (j : ℕ)
    → table p i ≡ 0
    → entry_at table p (i ∷ is) j ≡ 0
entry_at-missing table p i is j h = ap (λ o. entry_of table o j) (find_table-missing table p i is h)

pub entry_at-nil : (table : Tables) (p j : ℕ) → entry_at table p [] j ≡ table p j
unfolding find_table
entry_at-nil table p j = refl

-- An entry that leads to the same page, with the same size of page.
abbrev pub Alike : ℕ → ℕ → Type 0
Alike e e' =
    (e ≡ 0 → e' ≡ 0)
    × (e ≢ 0 → e' ≢ 0)
    × (entry_page e' ≡ entry_page e)
    × (e' / 128 % 2 ≡ e / 128 % 2)

with_user-Alike : (e : ℕ) → e ≢ 0 → Alike e (with_user e)
with_user-Alike e h = elim (Bool-cases (e / 4 % 2 == 1)) [
  | inl u ↦ rw u (λ k. k, λ k. k, refl, refl)
  | inr u ↦
      let clear : e / 4 % 2 ≡ 0 = ground arith in
      rw u (λ k. absurd (h k), λ k z. omega (arith, z), omega arith, omega arith)
]

module _ {v v' : VirtualMemory} {level : ℕ → ℕ} {path : ℕ → List ℕ} (w : IsTree v level path)
    (frames : v'.frames ≡ v.frames) (root : v'.root ≡ v.root) (on : v'.initialized ≡ v.initialized)
    (alike : (q j : ℕ) → Alike (v.table q j) (v'.table q j))
    (leaves : (q j : ℕ) → level q ≡ 1 → v'.table q j ≡ v.table q j) where
  -- The tables are the same but for flags of their entries.
  pub alike-IsTree : IsTree v' level path
  alike-IsTree = record {
    ready = on ∙ w.ready;
    root_level = ap (λ r. level (r / page_size)) root ∙ w.root_level;
    root_path = ap (λ r. path (r / page_size)) root ∙ w.root_path;
    child_level = λ p i x l n.
        ap (λ e. level e + 1) (alike p i).2 ∙ w.child_level p i x l (λ z. n ((alike p i).0 z));
    child_path =
        λ p i x l n. ap path (alike p i).2 ∙ w.child_path p i x l (λ z. n ((alike p i).0 z));
    small_pages = λ p i x l. (alike p i).3 ∙ w.small_pages p i x l;
    free_pages = λ p h f.
        w.free_pages p (subst (λ c. p < c.page_count) frames h)
          (subst (λ c. c.bitmap p ≡ true) frames f);
    frames = subst WellFormed (sym frames) w.frames;
    frames_ready = ap (λ c. c.initialized) frames ∙ w.frames_ready;
    addressable = subst (λ c. c.page_count ≤ 2 ^ 40) (sym frames) w.addressable;
  }

  alike-entries :
      (q : ℕ) (is : List ℕ) (j : ℕ)
      → All IsIndex is
      → level q ≡ length is + 1
      → entry_at v'.table q is j ≡ entry_at v.table q is j
  unfolding find_table
  alike-entries q [] j a l = leaves q j (omega (arith, l))
  alike-entries q (i ∷ is) j a l = elim (entry_cases (v.table q i)) [
    | inl z ↦
        entry_at-missing v'.table q i is j ((alike q i).0 z)
        ∙ sym (entry_at-missing v.table q i is j z)
    | inr n ↦
        let down = w.child_level q i a.0 (omega (arith, l)) n in
        entry_at-present v'.table q i is j ((alike q i).1 n)
        ∙ ap (λ p. entry_at v'.table p is j) (alike q i).2
        ∙ alike-entries (entry_page (v.table q i)) is j a.1 (omega (arith, down, l))
        ∙ sym (entry_at-present v.table q i is j n)
  ]

  pub alike-Keeps : Keeps v v' level level
  alike-Keeps = record {
    root = root;
    levels = λ q h. refl;
    targets = λ q j x l n. ((alike q j).1 n, (alike q j).2);
    entries = λ q is j a b l. alike-entries q is j a l;
  }

pub write_self : (table : Tables) (p i e : ℕ) → write_entry table p i e p i ≡ e
write_self table p i e = ground arith

pub write_table : (table : Tables) (p i e q j : ℕ) → p ≢ q → write_entry table p i e q j ≡ table q j
write_table table p i e q j h = ground (arith, h)

pub write_index : (table : Tables) (p i e j : ℕ) → i ≢ j → write_entry table p i e p j ≡ table p j
write_index table p i e j h = ground (arith, h)

pub Alike-refl : (e : ℕ) → Alike e e
Alike-refl e = (λ k. k, λ k. k, refl, refl)

pub user-Alike :
    (table : Tables) (p i : ℕ)
    → table p i ≢ 0
    → (q j : ℕ) → Alike (table q j) (write_entry table p i (with_user (table p i)) q j)
user-Alike table p i h q j = elim (ℕ_discrete p q) [
  | no k ↦ subst (Alike (table q j)) (sym (write_table table p i _ q j k)) (Alike-refl _)
  | yes k ↦
      subst (λ r. Alike (table r j) (write_entry table p i (with_user (table p i)) r j)) k
        (elim (ℕ_discrete i j) [
          | no n ↦ subst (Alike (table p j)) (sym (write_index table p i _ j n)) (Alike-refl _)
          | yes n ↦
              subst (λ r. Alike (table p r) (write_entry table p i (with_user (table p i)) p r)) n
                (subst (Alike (table p i)) (sym (write_self table p i _)) (with_user-Alike _ h))
        ])
]
