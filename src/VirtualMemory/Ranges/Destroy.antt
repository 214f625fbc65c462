-- ===== src/VirtualMemory/Ranges/Destroy.antt =====
-- The loops over tables of `destroy_table`, at any level.
use os.Base.{
  ℕ, zero, suc, ◌+◌, ◌≤◌, ◌<◌, ◌≡◌, refl, ◌≢◌, inl, inr, Bool, true, false, ◌==◌, if◌then◌else◌,
  arith, ◌∙◌, sym, subst, ℕ_discrete,
}
use os.PageFrame.Inv.{WellFormed}
use os.VirtualMemory.{VirtualMemory, entry_page}
use os.VirtualMemory.Tree.{entry_cases}
use os.VirtualMemory.Ensure.{write_self}
use os.VirtualMemory.Ranges.{free_word, each_word, destroy_last, destroy_table}
use os.VirtualMemory.Ranges.Teardown.{Frees, Frees-refl, Frees-trans, IsGone, free_word-Frees}

-- A step that only frees, on any address space over a well-formed allocator.
abbrev pub IsFreeing : (VirtualMemory → ℕ → VirtualMemory) → Type 0
IsFreeing f =
    (v : VirtualMemory) (i : ℕ)
    → WellFormed v.frames
    → v.frames.initialized ≡ true
    → Frees v (f v i)

each_word_zero :
    (f : VirtualMemory → ℕ → VirtualMemory) (v : VirtualMemory) (p r i : ℕ)
    → v.table p i ≡ 0
    → each_word f v p (suc r) i ≡ each_word f v p r (i + 1)
unfolding each_word
each_word_zero f v p r i h = let e : (v.table p i == 0) ≡ true = ground (arith, h) in rw e refl

each_word_step :
    (f : VirtualMemory → ℕ → VirtualMemory) (v : VirtualMemory) (p r i : ℕ)
    → v.table p i ≢ 0
    → each_word f v p (suc r) i ≡ each_word f (f v i) p r (i + 1)
unfolding each_word
each_word_step f v p r i h = let e : (v.table p i == 0) ≡ false = ground (arith, h) in rw e refl

pub each_word-Frees :
    (f : VirtualMemory → ℕ → VirtualMemory)
    → IsFreeing f
    → (v : VirtualMemory) (p r i : ℕ) → WellFormed v.frames
    → v.frames.initialized ≡ true
    → Frees v (each_word f v p r i)
unfolding each_word
each_word-Frees f g v p zero i w on = Frees-refl v w on
each_word-Frees f g v p (suc r) i w on = elim (entry_cases (v.table p i)) [
  | inl z ↦
      subst (Frees v) (sym (each_word_zero f v p r i z)) (each_word-Frees f g v p r (i + 1) w on)
  | inr n ↦
      let now = g v i w on in
      subst (Frees v) (sym (each_word_step f v p r i n))
        (Frees-trans now (each_word-Frees f g (f v i) p r (i + 1) now.frames now.frames_ready))
]

-- A word that is 0 stays 0.
pub stays_zero :
    {v v' : VirtualMemory} → Frees v v' → (p i : ℕ) → v.table p i ≡ 0 → v'.table p i ≡ 0
stays_zero f p i z = elim (f.words p i) [ inl e ↦ e ∙ z | inr (e, _) ↦ e ]

-- A word that has become 0 named a page that is free now.
pub was_named :
    {v v' : VirtualMemory}
    → Frees v v'
    → (p i : ℕ) → v.table p i ≢ 0
    → v'.table p i ≡ 0
    → IsGone v' (entry_page (v.table p i))
was_named f p i n z = elim (f.words p i) [ inl e ↦ absurd (n (sym e ∙ z)) | inr (_, h) ↦ h ]

-- A step that leaves its own word 0.
abbrev pub Clears : ℕ → (VirtualMemory → ℕ → VirtualMemory) → Type 0
Clears p f = (v : VirtualMemory) (i : ℕ) → (f v i).table p i ≡ 0

pub each_word-Clears :
    (f : VirtualMemory → ℕ → VirtualMemory) (p : ℕ)
    → IsFreeing f
    → Clears p f
    → (v : VirtualMemory) (r i j : ℕ) → WellFormed v.frames
    → v.frames.initialized ≡ true
    → i ≤ j
    → j < i + r
    → (each_word f v p r i).table p j ≡ 0
unfolding each_word
each_word-Clears f p g c v zero i j w on l h = absurd (omega (arith, l, h))
each_word-Clears f p g c v (suc r) i j w on l h = elim (entry_cases (v.table p i)) [
  | inl z ↦
      subst (λ x. x.table p j ≡ 0) (sym (each_word_zero f v p r i z))
        (later z (each_word-Frees f g v p r (i + 1) w on)
          (λ k. each_word-Clears f p g c v r (i + 1) j w on k (omega (arith, h))))
  | inr n ↦
      let now = g v i w on in
      subst (λ x. x.table p j ≡ 0) (sym (each_word_step f v p r i n))
        (later (c v i) (each_word-Frees f g (f v i) p r (i + 1) now.frames now.frames_ready) (λ k.
          each_word-Clears f p g c (f v i) r (i + 1) j now.frames now.frames_ready k
            (omega (arith, h))))
]
  where
    later :
        {v1 v2 : VirtualMemory}
        → v1.table p i ≡ 0
        → Frees v1 v2
        → (i + 1 ≤ j → v2.table p j ≡ 0)
        → v2.table p j ≡ 0
    later {v1} {v2} z k rest = elim (ℕ_discrete i j) [
      | yes e ↦ subst (λ x. v2.table p x ≡ 0) e (stays_zero k p i z)
      | no n ↦ rest (omega (arith, l, n))
    ]

pub free_word-IsFreeing : (t : ℕ) → IsFreeing (λ w j. free_word w t j)
free_word-IsFreeing t v i w on = free_word-Frees v w on t i

pub free_word-Clears : (v : VirtualMemory) (p i : ℕ) → (free_word v p i).table p i ≡ 0
free_word-Clears v p i = write_self v.table p i 0

-- The words of a table and then the entry that names the table.
pub then_entry : {v v' : VirtualMemory} → Frees v v' → (p i : ℕ) → Frees v (free_word v' p i)
then_entry {v} {v'} f p i = Frees-trans f (free_word-Frees v' f.frames f.frames_ready p i)

destroy_last-Frees :
    (leaf : Bool) (v : VirtualMemory) (p i : ℕ)
    → WellFormed v.frames
    → v.frames.initialized ≡ true
    → Frees v (destroy_last leaf v p i)
destroy_last-Frees leaf v p i w on = elim (entry_cases (v.table p i)) [
  | inl z ↦ let e : (v.table p i == 0) ≡ true = ground (arith, z) in rw e (Frees-refl v w on)
  | inr n ↦
      let e : (v.table p i == 0) ≡ false = ground (arith, n) in rw e (then_entry (leaves leaf) p i)
]
  where
    leaves :
        (b : Bool)
        → Frees v (
            if b
            then each_word
                (λ x j. free_word x (entry_page (v.table p i)) j)
                v
                (entry_page (v.table p i))
                512
                0
            else v)
    leaves true =
        each_word-Frees _ (free_word-IsFreeing (entry_page (v.table p i))) v
          (entry_page (v.table p i)) 512 0 w on
    leaves false = Frees-refl v w on

destroy_last-Clears :
    (leaf : Bool) (v : VirtualMemory) (p i : ℕ) → (destroy_last leaf v p i).table p i ≡ 0
destroy_last-Clears leaf v p i = elim (entry_cases (v.table p i)) [
  | inl z ↦ let e : (v.table p i == 0) ≡ true = ground (arith, z) in rw e z
  | inr n ↦
      let e : (v.table p i == 0) ≡ false = ground (arith, n) in
      rw e (
        free_word-Clears
          (if leaf
            then each_word (λ x j. free_word x (entry_page (v.table p i)) j) v
                (entry_page (v.table p i)) 512 0
            else v)
          p i)
]

destroy_below_zero :
    (level : ℕ) (leaf : Bool) (v : VirtualMemory) (p i : ℕ)
    → v.table p i ≡ 0
    → destroy_table (suc (suc level)) leaf v p i ≡ v
unfolding destroy_table
destroy_below_zero level leaf v p i z =
    let e : (v.table p i == 0) ≡ true = ground (arith, z) in rw (e, destroy_table) refl

destroy_below :
    (level : ℕ) (leaf : Bool) (v : VirtualMemory) (p i : ℕ)
    → v.table p i ≢ 0
    → destroy_table (suc (suc level)) leaf v p i
      ≡ free_word
          (each_word
            (λ w j. destroy_table (suc level) leaf w (entry_page (v.table p i)) j)
            v
            (entry_page (v.table p i))
            512
            0)
          p
          i
unfolding destroy_table
destroy_below level leaf v p i n =
    let e : (v.table p i == 0) ≡ false = ground (arith, n) in rw (e, destroy_table) refl

-- At any level `destroy_table` only frees.
pub destroy_table-Frees :
    (level : ℕ) (leaf : Bool) (p : ℕ) → IsFreeing (λ v i. destroy_table level leaf v p i)
unfolding destroy_table
destroy_table-Frees zero leaf p = λ v i w on. destroy_last-Frees leaf v p i w on
destroy_table-Frees (suc zero) leaf p = λ v i w on. destroy_last-Frees leaf v p i w on
destroy_table-Frees (suc (suc level)) leaf p = λ v i w on. elim (entry_cases (v.table p i)) [
  | inl z ↦ subst (Frees v) (sym (destroy_below_zero level leaf v p i z)) (Frees-refl v w on)
  | inr n ↦ subst (Frees v) (sym (destroy_below level leaf v p i n)) (
      then_entry
        (each_word-Frees _ (destroy_table-Frees (suc level) leaf (entry_page (v.table p i))) v
          (entry_page (v.table p i)) 512 0 w on)
        p i)
]

-- It leaves the entry 0.
pub destroy_table-Clears :
    (level : ℕ) (leaf : Bool) (p : ℕ) → Clears p (λ v i. destroy_table level leaf v p i)
unfolding destroy_table
destroy_table-Clears zero leaf p = λ v i. destroy_last-Clears leaf v p i
destroy_table-Clears (suc zero) leaf p = λ v i. destroy_last-Clears leaf v p i
destroy_table-Clears (suc (suc level)) leaf p = λ v i. elim (entry_cases (v.table p i)) [
  | inl z ↦ subst (λ x. x.table p i ≡ 0) (sym (destroy_below_zero level leaf v p i z)) z
  | inr n ↦
      subst (λ x. x.table p i ≡ 0) (sym (destroy_below level leaf v p i n))
        (free_word-Clears
          (each_word (λ w j. destroy_table (suc level) leaf w (entry_page (v.table p i)) j) v
            (entry_page (v.table p i)) 512 0)
          p i)
]
