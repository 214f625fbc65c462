-- ===== src/Balance/Pick.antt =====
-- Which thread the walk over the donor's queue picks, and which CPU the pass over the CPUs picks.
use os.Base.{
  ℕ, ◌≡◌, refl, ◌≢◌, ◌⊎◌, inl, inr, Bool, true, false, Option, some, List, [], ◌∷◌, ◌++◌, All,
  last_node, or_else, or_else-cons, Bool-cases, arith, ap, ◌∙◌,
}
use os.Machine.{Machine}
use os.Balance.{last_candidate, measure_depths, measure_step, Depths}

-- The walk found no thread and kept `best`, or it found the last thread of `xs` that passes.
abbrev pub Picked :
    (ℕ → Bool) → Option ℕ → Option (Option ℕ × ℕ) → List ℕ → Option (Option ℕ × ℕ) → Type 0
Picked test previous best xs o =
    ((o ≡ best) × All (λ x. test x ≡ false) xs)
    ⊎ ((ys : List ℕ) × (t : ℕ) × (zs : List ℕ) × (xs ≡ ys ++ t ∷ zs)
        × (test t ≡ true)
        × All (λ x. test x ≡ false) zs
        × (o ≡ some (or_else (last_node ys) previous, t)))

pub last_candidate-Picked :
    (test : ℕ → Bool) (previous : Option ℕ) (best : Option (Option ℕ × ℕ)) (xs : List ℕ)
    → Picked test previous best xs (last_candidate test previous best xs)
unfolding last_candidate
last_candidate-Picked test previous best [] = inl (refl, tt)
last_candidate-Picked test previous best (x ∷ xs) = elim (Bool-cases (test x)) [
  | inl e ↦ rw e (elim (last_candidate-Picked test (some x) (some (previous, x)) xs) [
    | inl (o, a) ↦ inr ([], x, xs, refl, e, a, o)
    | inr (ys, t, zs, k, p, a, o) ↦ inr (
      x ∷ ys,
      t,
      zs,
      ap (λ l. x ∷ l) k,
      p,
      a,
      o ∙ ap (λ q. some (q, t)) (or_else-cons x ys previous),
    )
  ])
  | inr e ↦ rw e (elim (last_candidate-Picked test (some x) best xs) [
    | inl (o, a) ↦ inl (o, (refl, a))
    | inr (ys, t, zs, k, p, a, o) ↦ inr (
      x ∷ ys,
      t,
      zs,
      ap (λ l. x ∷ l) k,
      p,
      a,
      o ∙ ap (λ q. some (q, t)) (or_else-cons x ys previous),
    )
  ])
]

measure_step-ne :
    (m : Machine) (target : ℕ) (d : Depths) (owner : ℕ)
    → d.donor ≢ some target
    → (measure_step m target d owner).donor ≢ some target
unfolding measure_step
measure_step-ne m target d owner h = ground (arith, h)

-- The donor is another CPU than the target.
pub measure_depths-ne :
    (m : Machine) (target : ℕ) (d : Depths) (cs : List ℕ)
    → d.donor ≢ some target
    → (measure_depths m target d cs).donor ≢ some target
unfolding measure_depths
measure_depths-ne m target d [] h = h
measure_depths-ne m target d (owner ∷ rest) h =
    measure_depths-ne m target (measure_step m target d owner) rest
      (measure_step-ne m target d owner h)
