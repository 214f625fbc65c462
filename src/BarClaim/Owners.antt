-- ===== src/BarClaim/Owners.antt =====
-- What the release of all the claims of one owner leaves.
use os.Base.{
  ℕ, ◌+◌, ◌-◌, ◌%◌, ◌^◌, ◌≤◌, ◌<◌, ◌≡◌, refl, inl, inr, true, false, Option, none, some, List, [],
  ◌∷◌, length, if◌then◌else◌, arith, ap, ◌∙◌, sym, subst, subst₂, Bool-cases,
}
use os.BarClaim.{
  PciBarClaim, DeviceId, is_claim_of, find_claim_locked, drop_owner, count_drops, device_id_equal,
}
use os.BarClaim.Holder.{Unique, find_hit, find_miss, matches_key}

-- The claim that a BAR keeps.
abbrev pub unless_owner : DeviceId → Option PciBarClaim → Option PciBarClaim
unless_owner owner none = none
unless_owner owner (some c) = if device_id_equal c.owner owner then none else some c

drop_hit :
    (owner : DeviceId) (c : PciBarClaim) (cs : List PciBarClaim)
    → device_id_equal c.owner owner ≡ true
    → drop_owner owner (c ∷ cs) ≡ drop_owner owner cs
unfolding drop_owner
drop_hit owner c cs h = rw h refl

drop_miss :
    (owner : DeviceId) (c : PciBarClaim) (cs : List PciBarClaim)
    → device_id_equal c.owner owner ≡ false
    → drop_owner owner (c ∷ cs) ≡ c ∷ drop_owner owner cs
unfolding drop_owner
drop_miss owner c cs h = rw h refl

kept_hit :
    (owner : DeviceId) (c : PciBarClaim)
    → device_id_equal c.owner owner ≡ true
    → unless_owner owner (some c) ≡ none
kept_hit owner c h = rw h refl

kept_miss :
    (owner : DeviceId) (c : PciBarClaim)
    → device_id_equal c.owner owner ≡ false
    → unless_owner owner (some c) ≡ some c
kept_miss owner c h = rw h refl

pub drop_owner_lem :
    (owner : DeviceId) (cs : List PciBarClaim) (p b : ℕ)
    → Unique cs
    → find_claim_locked (drop_owner owner cs) p b ≡ unless_owner owner (find_claim_locked cs p b)
unfolding drop_owner find_claim_locked
drop_owner_lem owner [] p b u = refl
drop_owner_lem owner (c ∷ cs) p b u = elim (Bool-cases (device_id_equal c.owner owner)) [
  | inl d ↦
      ap (λ l. find_claim_locked l p b) (drop_hit owner c cs d)
      ∙ drop_owner_lem owner cs p b u.1
      ∙ elim (Bool-cases (is_claim_of p b c)) [
        | inl h ↦
            let k = matches_key p b c h in
            ap (unless_owner owner) (subst₂ (λ x y. find_claim_locked cs x y ≡ none) k.0 k.1 u.0)
            ∙ sym (ap (unless_owner owner) (find_hit c cs p b h) ∙ kept_hit owner c d)
        | inr h ↦ ap (unless_owner owner) (sym (find_miss c cs p b h))
      ]
  | inr d ↦
      ap (λ l. find_claim_locked l p b) (drop_miss owner c cs d)
      ∙ elim (Bool-cases (is_claim_of p b c)) [
        | inl h ↦
            find_hit c (drop_owner owner cs) p b h
            ∙ sym (ap (unless_owner owner) (find_hit c cs p b h) ∙ kept_miss owner c d)
        | inr h ↦
            find_miss c (drop_owner owner cs) p b h
            ∙ drop_owner_lem owner cs p b u.1
            ∙ ap (unless_owner owner) (sym (find_miss c cs p b h))
      ]
]

pub drop_owner-Unique :
    (owner : DeviceId) (cs : List PciBarClaim) → Unique cs → Unique (drop_owner owner cs)
unfolding drop_owner
drop_owner-Unique owner [] u = tt
drop_owner-Unique owner (c ∷ cs) u = elim (Bool-cases (device_id_equal c.owner owner)) [
  | inl d ↦ subst Unique (sym (drop_hit owner c cs d)) (drop_owner-Unique owner cs u.1)
  | inr d ↦ subst Unique (sym (drop_miss owner c cs d)) (
    drop_owner_lem owner cs c.pci_index c.bar_index u.1 ∙ ap (unless_owner owner) u.0,
    drop_owner-Unique owner cs u.1,
  )
]

pub length-drop_owner :
    (owner : DeviceId) (cs : List PciBarClaim) → length (drop_owner owner cs) ≤ length cs
unfolding drop_owner
length-drop_owner owner [] = omega arith
length-drop_owner owner (c ∷ cs) = ground (arith, length-drop_owner owner cs)

-- The count goes down by one for every claim that is dropped.
pub count_drops_lem :
    (owner : DeviceId) (cs : List PciBarClaim) (n : ℕ)
    → length cs ≤ n
    → n < 2 ^ 64
    → count_drops owner cs n + length cs ≡ n + length (drop_owner owner cs)
unfolding count_drops drop_owner
count_drops_lem owner [] n a b = refl
count_drops_lem owner (c ∷ cs) n a b = elim (Bool-cases (device_id_equal c.owner owner)) [
  | inl d ↦
      let less : (n + 2 ^ 64 - 1) % 2 ^ 64 ≡ n - 1 = omega arith in
      let rest = count_drops_lem owner cs (n - 1) (omega arith) (omega arith) in
      rw (d, less) (omega (arith, rest))
  | inr d ↦ let rest = count_drops_lem owner cs n (omega arith) b in rw d (omega (arith, rest))
]
