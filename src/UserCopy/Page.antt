-- ===== src/UserCopy/Page.antt =====
-- `translate` within a page.
use os.Base.{
  ℕ, ◌+◌, ◌*◌, ◌/◌, ◌%◌, ◌^◌, ◌<◌, ◌≡◌, refl, inl, inr, Bool-cases, Option-cases, Option, none,
  some, [], ◌∷◌, ◌==◌, arith, ap,
}
use os.PageFrame.{page_size}
use os.VirtualMemory.{
  VirtualMemory, Tables, page_index, find_table, entry_page, entry_flags, translate, translate_leaf,
  translate_second,
}

-- The same translation, `k` bytes further on.
abbrev pub further : ℕ → Option (ℕ × ℕ) → Option (ℕ × ℕ)
further k none = none
further k (some (physical, flags)) = some (physical + k, flags)

module _ (a k : ℕ) (within : a % page_size + k < page_size) where
  leaf-further : (e : ℕ) → translate_leaf e (a + k) ≡ further k (translate_leaf e a)
  leaf-further e = elim (Bool-cases (e == 0)) [
    | inl z ↦ rw z refl
    | inr z ↦ rw z (ap (λ x. some (x, entry_flags e)) (omega (arith, within)))
  ]

  second-further :
      (table : Tables) (e : ℕ)
      → translate_second table e (a + k) ≡ further k (translate_second table e a)
  second-further table e = elim (Bool-cases (e == 0)) [
    | inl z ↦ rw z refl
    | inr z ↦ elim (Bool-cases (e / 128 % 2 == 1)) [
      | inl b ↦
          rw (z, b) (ap (λ x. some (x, e % 2 ^ 21 + e / 2 ^ 52 * 2 ^ 52)) (omega (arith, within)))
      | inr b ↦
          let i : page_index (a + k) 12 ≡ page_index a 12 = omega (arith, within) in
          rw (z, b, i) (leaf-further (table (entry_page e) (page_index a 12)))
    ]
  ]

  pub translate-further : (v : VirtualMemory) → translate v (a + k) ≡ further k (translate v a)
  unfolding translate
  translate-further v =
      let i39 : page_index (a + k) 39 ≡ page_index a 39 = omega (arith, within) in
      let i30 : page_index (a + k) 30 ≡ page_index a 30 = omega (arith, within) in
      let i21 : page_index (a + k) 21 ≡ page_index a 21 = omega (arith, within) in
      elim (Bool-cases v.initialized) [
        | inr b ↦ rw b refl
        | inl b ↦
            elim (Option-cases
              (find_table v.table (v.root / page_size) (page_index a 39 ∷ page_index a 30 ∷ []))) [
                | inl e ↦ rw (b, i39, i30, e) refl
                | inr (p, e) ↦
                    rw (b, i39, i30, e, i21) (second-further v.table (v.table p (page_index a 21)))
              ]
      ]
