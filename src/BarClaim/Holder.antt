-- ===== src/BarClaim/Holder.antt =====
-- The list of claims as a map from BARs to claims.
use os.Base.{
  ℕ, ◌+◌, ◌≡◌, refl, inl, inr, Bool, true, false, none, some, List, [], ◌∷◌, ◌++◌, length, ◌&&◌,
  ◌==◌, arith, ap, ◌∙◌, sym, subst, subst₂, Bool-cases, none-ne-some, some_inj,
}
use os.BarClaim.{PciBarClaim, is_claim_of, find_claim_locked, unlink_claim}

abbrev pub is_same_bar : ℕ → ℕ → ℕ → ℕ → Bool
is_same_bar p b p' b' = (p == p') && (b == b')

-- No BAR is claimed twice.
abbrev pub Unique : List PciBarClaim → Type 0
Unique [] = Unit
Unique (c ∷ cs) = (find_claim_locked cs c.pci_index c.bar_index ≡ none) × Unique cs

pub matches_key :
    (p b : ℕ) (c : PciBarClaim) → is_claim_of p b c ≡ true → (c.pci_index ≡ p) × (c.bar_index ≡ b)
unfolding is_claim_of
matches_key p b c h = (ground arith, ground arith)

other_key :
    (p b p' b' : ℕ) (c : PciBarClaim)
    → is_same_bar p b p' b' ≡ false
    → is_claim_of p b c ≡ true
    → is_claim_of p' b' c ≡ false
unfolding is_claim_of
other_key p b p' b' c ne h = ground arith

pub find_hit :
    (c : PciBarClaim) (cs : List PciBarClaim) (p b : ℕ)
    → is_claim_of p b c ≡ true
    → find_claim_locked (c ∷ cs) p b ≡ some c
unfolding find_claim_locked
find_hit c cs p b h = rw h refl

pub find_miss :
    (c : PciBarClaim) (cs : List PciBarClaim) (p b : ℕ)
    → is_claim_of p b c ≡ false
    → find_claim_locked (c ∷ cs) p b ≡ find_claim_locked cs p b
unfolding find_claim_locked
find_miss c cs p b h = rw h refl

pub find_claim_locked-append :
    (cs : List PciBarClaim) (c : PciBarClaim) (p b : ℕ)
    → find_claim_locked cs p b ≡ none
    → find_claim_locked (cs ++ c ∷ []) p b ≡ find_claim_locked (c ∷ []) p b
unfolding find_claim_locked
find_claim_locked-append [] c p b e = refl
find_claim_locked-append (x ∷ cs) c p b e = elim (Bool-cases (is_claim_of p b x)) [
  | inl h ↦ absurd (none-ne-some (sym e ∙ find_hit x cs p b h))
  | inr h ↦
      find_miss x (cs ++ c ∷ []) p b h
      ∙ find_claim_locked-append cs c p b (sym (find_miss x cs p b h) ∙ e)
]

pub find_claim_locked-append_some :
    (cs : List PciBarClaim) (c d : PciBarClaim) (p b : ℕ)
    → find_claim_locked cs p b ≡ some d
    → find_claim_locked (cs ++ c ∷ []) p b ≡ some d
unfolding find_claim_locked
find_claim_locked-append_some [] c d p b e = absurd (none-ne-some e)
find_claim_locked-append_some (x ∷ cs) c d p b e = elim (Bool-cases (is_claim_of p b x)) [
  | inl h ↦ find_hit x (cs ++ c ∷ []) p b h ∙ sym (find_hit x cs p b h) ∙ e
  | inr h ↦
      find_miss x (cs ++ c ∷ []) p b h
      ∙ find_claim_locked-append_some cs c d p b (sym (find_miss x cs p b h) ∙ e)
]

-- A claim that is found has the BAR's indices.
pub find_claim_locked-key :
    (cs : List PciBarClaim) (p b : ℕ) (c : PciBarClaim)
    → find_claim_locked cs p b ≡ some c
    → (c.pci_index ≡ p) × (c.bar_index ≡ b)
unfolding find_claim_locked
find_claim_locked-key [] p b c e = absurd (none-ne-some e)
find_claim_locked-key (x ∷ cs) p b c e = elim (Bool-cases (is_claim_of p b x)) [
  | inl h ↦
      let k : x ≡ c = some_inj (sym (find_hit x cs p b h) ∙ e) in
      subst (λ y. (y.pci_index ≡ p) × (y.bar_index ≡ b)) k (matches_key p b x h)
  | inr h ↦ find_claim_locked-key cs p b c (sym (find_miss x cs p b h) ∙ e)
]

pub find_claim_locked-one_same :
    (c : PciBarClaim) → find_claim_locked (c ∷ []) c.pci_index c.bar_index ≡ some c
unfolding find_claim_locked is_claim_of
find_claim_locked-one_same c = ground arith

pub find_claim_locked-one_other :
    (c : PciBarClaim) (p b : ℕ)
    → is_same_bar c.pci_index c.bar_index p b ≡ false
    → find_claim_locked (c ∷ []) p b ≡ none
unfolding find_claim_locked is_claim_of
find_claim_locked-one_other c p b h = ground arith

pub is_same_bar_sym : (p b p' b' : ℕ) → is_same_bar p b p' b' ≡ is_same_bar p' b' p b
is_same_bar_sym p b p' b' = ground arith

same_bar : (p b p' b' : ℕ) → is_same_bar p b p' b' ≡ true → (p ≡ p') × (b ≡ b')
same_bar p b p' b' h = (ground arith, ground arith)

other_bar :
    (p b : ℕ) (c : PciBarClaim)
    → is_claim_of p b c ≡ false
    → is_same_bar p b c.pci_index c.bar_index ≡ false
unfolding is_claim_of
other_bar p b c h = ground arith

pub Unique-append_one :
    (cs : List PciBarClaim) (c : PciBarClaim)
    → Unique cs
    → find_claim_locked cs c.pci_index c.bar_index ≡ none
    → Unique (cs ++ c ∷ [])
unfolding find_claim_locked
Unique-append_one [] c u e = (refl, tt)
Unique-append_one (x ∷ cs) c u e = elim (Bool-cases (is_claim_of c.pci_index c.bar_index x)) [
  | inl h ↦ absurd (none-ne-some (sym e ∙ find_hit x cs c.pci_index c.bar_index h))
  | inr h ↦ (
    find_claim_locked-append cs c x.pci_index x.bar_index u.0
        ∙ find_claim_locked-one_other c x.pci_index x.bar_index
            (other_bar c.pci_index c.bar_index x h),
    Unique-append_one cs c u.1 (sym (find_miss x cs c.pci_index c.bar_index h) ∙ e),
  )
]

unlink_hit :
    (c : PciBarClaim) (cs : List PciBarClaim) (p b : ℕ)
    → is_claim_of p b c ≡ true
    → unlink_claim (c ∷ cs) p b ≡ cs
unfolding unlink_claim
unlink_hit c cs p b h = rw h refl

unlink_miss :
    (c : PciBarClaim) (cs : List PciBarClaim) (p b : ℕ)
    → is_claim_of p b c ≡ false
    → unlink_claim (c ∷ cs) p b ≡ c ∷ unlink_claim cs p b
unfolding unlink_claim
unlink_miss c cs p b h = rw h refl

-- Unlinking one BAR's claim does not touch the others.
pub unlink_claim-other :
    (cs : List PciBarClaim) (p b p' b' : ℕ)
    → is_same_bar p b p' b' ≡ false
    → find_claim_locked (unlink_claim cs p b) p' b' ≡ find_claim_locked cs p' b'
unfolding unlink_claim
unlink_claim-other [] p b p' b' ne = refl
unlink_claim-other (c ∷ cs) p b p' b' ne = elim (Bool-cases (is_claim_of p b c)) [
  | inl h ↦
      ap (λ l. find_claim_locked l p' b') (unlink_hit c cs p b h)
      ∙ sym (find_miss c cs p' b' (other_key p b p' b' c ne h))
  | inr h ↦
      ap (λ l. find_claim_locked l p' b') (unlink_miss c cs p b h)
      ∙ elim (Bool-cases (is_claim_of p' b' c)) [
        | inl k ↦ find_hit c (unlink_claim cs p b) p' b' k ∙ sym (find_hit c cs p' b' k)
        | inr k ↦
            find_miss c (unlink_claim cs p b) p' b' k
            ∙ unlink_claim-other cs p b p' b' ne
            ∙ sym (find_miss c cs p' b' k)
      ]
]

pub unlink_claim-same :
    (cs : List PciBarClaim) (p b : ℕ)
    → Unique cs
    → find_claim_locked (unlink_claim cs p b) p b ≡ none
unfolding unlink_claim find_claim_locked
unlink_claim-same [] p b u = refl
unlink_claim-same (c ∷ cs) p b u = elim (Bool-cases (is_claim_of p b c)) [
  | inl h ↦
      let k = matches_key p b c h in
      ap (λ l. find_claim_locked l p b) (unlink_hit c cs p b h)
      ∙ subst₂ (λ x y. find_claim_locked cs x y ≡ none) k.0 k.1 u.0
  | inr h ↦
      ap (λ l. find_claim_locked l p b) (unlink_miss c cs p b h)
      ∙ find_miss c (unlink_claim cs p b) p b h
      ∙ unlink_claim-same cs p b u.1
]

pub unlink_claim-Unique :
    (cs : List PciBarClaim) (p b : ℕ) → Unique cs → Unique (unlink_claim cs p b)
unfolding unlink_claim
unlink_claim-Unique [] p b u = tt
unlink_claim-Unique (c ∷ cs) p b u = elim (Bool-cases (is_claim_of p b c)) [
  | inl h ↦ subst Unique (sym (unlink_hit c cs p b h)) u.1
  | inr h ↦ subst Unique (sym (unlink_miss c cs p b h)) (
    unlink_claim-other cs p b c.pci_index c.bar_index (other_bar p b c h) ∙ u.0,
    unlink_claim-Unique cs p b u.1,
  )
]

pub length-unlink_claim :
    (cs : List PciBarClaim) (p b : ℕ) (c : PciBarClaim)
    → find_claim_locked cs p b ≡ some c
    → length cs ≡ length (unlink_claim cs p b) + 1
unfolding find_claim_locked
length-unlink_claim [] p b c e = absurd (none-ne-some e)
length-unlink_claim (x ∷ cs) p b c e = elim (Bool-cases (is_claim_of p b x)) [
  | inl h ↦ let k = ap length (unlink_hit x cs p b h) in omega (arith, k)
  | inr h ↦
      let k = ap length (unlink_miss x cs p b h) in
      let rest = length-unlink_claim cs p b c (sym (find_miss x cs p b h) ∙ e) in
      omega (arith, k, rest)
]
