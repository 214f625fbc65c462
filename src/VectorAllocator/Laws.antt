-- ===== src/VectorAllocator/Laws.antt =====
-- Who owns which vector after each operation of the vector allocator.
use os.Base.{
  ℕ, zero, suc, ◌+◌, ◌≤◌, ◌<◌, ◌≡◌, refl, ◌≢◌, ◌⊎◌, inl, inr, true, false, none, some, arith,
  Bool-cases, ◌∙◌, sym, subst, none-ne-some, some_inj, ℕ_discrete,
}
use os.Bitmap.{Bitmap}
use os.VectorAllocator.{
  irq_allocate_vector, irq_reserve_vector, irq_free_vector, irq_vector_is_allocated,
  irq_vector_is_allocatable, find_vector, vector_index, bitmap_set, bitmap_clear,
  dynamic_irq_vector_base,
}

-- A vector that may be handed out and is not.
abbrev pub IsFree : Bitmap → ℕ → Type 0
IsFree bm v = (irq_vector_is_allocatable v ≡ true) × (irq_vector_is_allocated bm v ≡ false)

-- The same vectors are allocated, but `v` is.
abbrev pub OnlyAdds : Bitmap → ℕ → Bitmap → Type 0
OnlyAdds bm v bm' =
    (irq_vector_is_allocated bm' v ≡ true)
    × ((w : ℕ) → w ≢ v → irq_vector_is_allocated bm' w ≡ irq_vector_is_allocated bm w)

IsFree-test : (bm : Bitmap) (v : ℕ) → (¬ IsFree bm v) ⊎ IsFree bm v
IsFree-test bm v = elim (Bool-cases (irq_vector_is_allocatable v)) [
  | inl a ↦ elim (Bool-cases (irq_vector_is_allocated bm v)) [
    | inl b ↦ inl (λ f. cc (f.1, b))
    | inr b ↦ inr (a, b)
  ]
  | inr a ↦ inl (λ f. cc (f.0, a))
]

step_free : (bm : Bitmap) (r v : ℕ) → IsFree bm v → find_vector bm (suc r) v ≡ some v
unfolding find_vector
step_free bm r v f = rw (f.0, f.1) refl

step_taken :
    (bm : Bitmap) (r v : ℕ) → ¬ IsFree bm v → find_vector bm (suc r) v ≡ find_vector bm r (v + 1)
unfolding find_vector
step_taken bm r v h = elim (Bool-cases (irq_vector_is_allocatable v)) [
  | inl a ↦ elim (Bool-cases (irq_vector_is_allocated bm v)) [
    | inl b ↦ rw (a, b) refl
    | inr b ↦ absurd (h (a, b))
  ]
  | inr a ↦ rw a refl
]

find_vector_lem :
    (bm : Bitmap) (r v : ℕ)
    → ((find_vector bm r v ≡ none) × ((w : ℕ) → v ≤ w → w < v + r → ¬ IsFree bm w))
      ⊎ ((x : ℕ) × (find_vector bm r v ≡ some x)
          × IsFree bm x
          × ((w : ℕ) → v ≤ w → w < x → ¬ IsFree bm w))
unfolding find_vector
find_vector_lem bm zero v = inl (refl, λ w a b. absurd (omega arith))
find_vector_lem bm (suc r) v = elim (IsFree-test bm v) [
  | inr f ↦ inr (v, step_free bm r v f, f, λ w a b. absurd (omega arith))
  | inl h ↦ elim (find_vector_lem bm r (v + 1)) [
    | inl (e, none_free) ↦ inl (
      step_taken bm r v h ∙ e,
      λ w a b. elim (ℕ_discrete v w) [
        | yes k ↦ subst (λ x. ¬ IsFree bm x) k h
        | no k ↦ none_free w (omega (arith, k)) (omega arith)
      ],
    )
    | inr (x, e, f, none_free) ↦ inr (
      x,
      step_taken bm r v h ∙ e,
      f,
      λ w a b. elim (ℕ_discrete v w) [
        | yes k ↦ subst (λ y. ¬ IsFree bm y) k h
        | no k ↦ none_free w (omega (arith, k)) b
      ],
    )
  ]
]

in_window :
    (v : ℕ)
    → irq_vector_is_allocatable v ≡ true
    → (dynamic_irq_vector_base ≤ v) × (v < dynamic_irq_vector_base + 160)
unfolding irq_vector_is_allocatable
in_window v h = (ground arith, ground arith)

set-OnlyAdds :
    (bm : Bitmap) (v : ℕ)
    → irq_vector_is_allocatable v ≡ true
    → OnlyAdds bm v (bitmap_set bm (vector_index v))
unfolding irq_vector_is_allocated irq_vector_is_allocatable
set-OnlyAdds bm v h = (ground arith, λ w ne. ground (arith, ne))

-- `irq_allocate_vector` either returns false, changes nothing and every vector of the window is
-- allocated, or it returns the lowest vector that is free, which is allocated then, while every
-- other vector is as it was.
pub irq_allocate_vector_lem :
    (bm : Bitmap)
    → let (bm', result) = irq_allocate_vector bm in
      ((result ≡ none) × (bm' ≡ bm) × ((w : ℕ) → ¬ IsFree bm w))
      ⊎ ((v : ℕ) × (result ≡ some v)
          × IsFree bm v
          × ((w : ℕ) → w < v → ¬ IsFree bm w)
          × OnlyAdds bm v bm')
unfolding irq_allocate_vector
irq_allocate_vector_lem bm = elim (find_vector_lem bm 160 dynamic_irq_vector_base) [
  | inl (e, none_free) ↦
      inl (rw e refl, rw e refl, λ w f. let k = in_window w f.0 in none_free w k.0 k.1 f)
  | inr (v, e, f, none_free) ↦ inr (
    v,
    rw e refl,
    f,
    (λ w b g. let k = in_window w g.0 in none_free w k.0 b g),
    rw e (set-OnlyAdds bm v f.0),
  )
]

-- `irq_reserve_vector` succeeds exactly for a free vector, which is allocated then, while every
-- other vector is as it was; else it changes nothing.
pub irq_reserve_vector_lem :
    (bm : Bitmap) (v : ℕ)
    → (IsFree bm v
        × ((irq_reserve_vector bm v).1 ≡ true)
        × OnlyAdds bm v (irq_reserve_vector bm v).0)
      ⊎ ((¬ IsFree bm v) × (irq_reserve_vector bm v ≡ (bm, false)))
unfolding irq_reserve_vector
irq_reserve_vector_lem bm v = elim (IsFree-test bm v) [
  | inr f ↦ inl (f, rw (f.0, f.1) refl, rw (f.0, f.1) (set-OnlyAdds bm v f.0))
  | inl h ↦ elim (Bool-cases (irq_vector_is_allocatable v)) [
    | inl a ↦ elim (Bool-cases (irq_vector_is_allocated bm v)) [
      | inl b ↦ inr (h, rw (a, b) refl)
      | inr b ↦ absurd (h (a, b))
    ]
    | inr a ↦ inr (h, rw a refl)
  ]
]

freed_lem :
    (b : Bitmap) (v : ℕ)
    → irq_vector_is_allocatable v ≡ true
    → irq_vector_is_allocated b v ≡ true
    → irq_free_vector b v ≡ (bitmap_clear b (vector_index v), true)
unfolding irq_free_vector
freed_lem b v a h = rw (a, h) refl

clear_self :
    (b : Bitmap) (v : ℕ)
    → irq_vector_is_allocatable v ≡ true
    → irq_vector_is_allocated (bitmap_clear b (vector_index v)) v ≡ false
unfolding irq_vector_is_allocated irq_vector_is_allocatable
clear_self b v a = ground arith

clear_other :
    (b : Bitmap) (v w : ℕ)
    → irq_vector_is_allocatable v ≡ true
    → w ≢ v
    → irq_vector_is_allocated (bitmap_clear b (vector_index v)) w ≡ irq_vector_is_allocated b w
unfolding irq_vector_is_allocated irq_vector_is_allocatable
clear_other b v w a ne = ground (arith, ne)

-- A vector that `irq_allocate_vector` returned can be freed, and then exactly the vectors are
-- allocated that were allocated before.
pub irq_free_vector-irq_allocate_vector :
    (bm : Bitmap) (v : ℕ)
    → (irq_allocate_vector bm).1 ≡ some v
    → let (bm', freed) = irq_free_vector (irq_allocate_vector bm).0 v in
      (freed ≡ true) × ((w : ℕ) → irq_vector_is_allocated bm' w ≡ irq_vector_is_allocated bm w)
irq_free_vector-irq_allocate_vector bm v e = elim (irq_allocate_vector_lem bm) [
  | inl (r, _, _) ↦ absurd (none-ne-some (sym r ∙ e))
  | inr (x, r, f, _, adds) ↦
      let k : x ≡ v = some_inj (sym r ∙ e) in
      restored (irq_allocate_vector bm).0 (subst (IsFree bm) k f)
        (subst (λ y. OnlyAdds bm y (irq_allocate_vector bm).0) k adds)
]
  where
    restored :
        (b : Bitmap)
        → IsFree bm v
        → OnlyAdds bm v b
        → let (bm', freed) = irq_free_vector b v in
          (freed ≡ true) × ((w : ℕ) → irq_vector_is_allocated bm' w ≡ irq_vector_is_allocated bm w)
    restored b f adds = rw (freed_lem b v f.0 adds.0) (
      refl,
      λ w. elim (ℕ_discrete w v) [
        | yes k ↦ rw k (clear_self b v f.0 ∙ sym f.1)
        | no k ↦ clear_other b v w f.0 k ∙ adds.1 w k
      ],
    )
