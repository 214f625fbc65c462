-- ===== src/BarClaim/Laws.antt =====
-- What a claim does to the owners of the BARs.
use os.Base.{
  ℕ, ◌+◌, ◌^◌, ◌≤◌, ◌<◌, ◌≡◌, refl, ◌⊎◌, inl, inr, Bool, true, false, Option, none, some, List, [],
  ◌∷◌, ◌++◌, length, length-append, arith, ap, ◌∙◌, sym, subst, Bool-cases, Option-cases,
}
use os.Machine.{increment}
use os.BarClaim.{
  PciBarClaim, PciBarClaimRegistry, PciBarResource, Platform, Memory, DeviceId, device_id_equal,
  find_claim_locked, bar_is_claimable, new_claim, resource_of, publish_claim, make_claim,
  claim_pci_bar, ensure_snapshot_capacity, ensure_pci_bar_claim_cache,
}
use os.BarClaim.Holder.{
  Unique, is_same_bar, find_claim_locked-append, find_claim_locked-append_some,
  find_claim_locked-one_same, find_claim_locked-one_other, Unique-append_one,
}
use os.BarClaim.Capacity.{Grown, ensure_snapshot_capacity_lem, ensure_pci_bar_claim_cache_lem}
use os.BarClaim.Inv.{WellFormed}

Grown-WellFormed : {r r' : PciBarClaimRegistry} → Grown r r' → WellFormed r → WellFormed r'
Grown-WellFormed {r} {r'} g w = record {
  unique = subst Unique (sym g.claims) w.unique;
  counted = g.count ∙ w.counted ∙ ap length (sym g.claims);
  fits = let f = w.fits in let c = g.count in let k = g.capacity in omega arith;
}

both : {r r' r'' : PciBarClaimRegistry} → Grown r r' → Grown r' r'' → Grown r r''
both g h = record {
  claims = h.claims ∙ g.claims;
  count = h.count ∙ g.count;
  capacity = let a = g.capacity in let b = h.capacity in omega arith;
}

-- The claims after a successful claim: one more, behind the others.
abbrev Joined :
    PciBarClaimRegistry → PciBarClaim → PciBarClaimRegistry × Option PciBarResource → Type 0
Joined r claim (r', result) =
    ((result ≡ none) × (r'.claims ≡ r.claims))
    ⊎ ((result ≡ some (resource_of claim)) × (r'.claims ≡ r.claims ++ claim ∷ []))

published :
    {r : PciBarClaimRegistry} (memory : Memory) (claim : PciBarClaim)
    → WellFormed r
    → r.count + 1 ≤ r.snapshot_capacity
    → r.count < 2 ^ 63
    → find_claim_locked r.claims claim.pci_index claim.bar_index ≡ none
    → WellFormed (publish_claim r memory claim).0 × Joined r claim (publish_claim r memory claim)
unfolding publish_claim
published {r} memory claim w room small absent = elim (Bool-cases memory.node) [
  | inr n ↦ rw n (w, inl (refl, refl))
  | inl n ↦
      let one_more : increment r.count ≡ r.count + 1 = omega arith in
      rw n (
        record {
          unique = Unique-append_one r.claims claim w.unique absent;
          counted =
              one_more ∙ ap (λ c. c + 1) w.counted ∙ sym (length-append r.claims (claim ∷ []));
          fits = omega (arith, one_more);
        },
        inr (refl, refl),
      )
]

made :
    {r : PciBarClaimRegistry} (memory : Memory) (claim : PciBarClaim)
    → WellFormed r
    → r.count < 2 ^ 63
    → find_claim_locked r.claims claim.pci_index claim.bar_index ≡ none
    → WellFormed (make_claim r memory claim).0 × Joined r claim (make_claim r memory claim)
made {r} memory claim w small absent = elim (Bool-cases step1.1) [
  | inr f ↦ rw f (Grown-WellFormed grown1.0 w, inl (refl, grown1.0.claims))
  | inl f ↦ elim (Bool-cases step2.1) [
    | inr k ↦ rw (f, k) (Grown-WellFormed grown2 w, inl (refl, grown2.claims))
    | inl k ↦
        let last = ready f in
        rw (f, k)
          (
            last.0,
            subst
                (λ l.
                  (((publish_claim step2.0 memory claim).1 ≡ none)
                    × ((publish_claim step2.0 memory claim).0.claims ≡ l))
                  ⊎ (((publish_claim step2.0 memory claim).1 ≡ some (resource_of claim))
                      × ((publish_claim step2.0 memory claim).0.claims ≡ l ++ claim ∷ [])))
                grown2.claims last.1,
          )
  ]
]
  where
    one_more : increment r.count ≡ r.count + 1
    one_more = omega arith

    step1 : PciBarClaimRegistry × Bool
    step1 = ensure_snapshot_capacity r memory (increment r.count)

    step2 : PciBarClaimRegistry × Bool
    step2 = ensure_pci_bar_claim_cache step1.0 memory

    grown1 : Grown r step1.0 × (step1.1 ≡ true → increment r.count ≤ step1.0.snapshot_capacity)
    grown1 = ensure_snapshot_capacity_lem r memory (increment r.count) (omega (arith, one_more))

    grown2 : Grown r step2.0
    grown2 = both grown1.0 (ensure_pci_bar_claim_cache_lem step1.0 memory)

    room : step1.1 ≡ true → step2.0.count + 1 ≤ step2.0.snapshot_capacity
    room f =
        let a = grown1.1 f in
        let g = ensure_pci_bar_claim_cache_lem step1.0 memory in
        let b = g.capacity in let c = grown2.count in omega (arith, one_more)

    ready :
        step1.1 ≡ true
        → WellFormed (publish_claim step2.0 memory claim).0
          × Joined step2.0 claim (publish_claim step2.0 memory claim)
    ready f =
        published memory claim (Grown-WellFormed grown2 w) (room f)
          (let c = grown2.count in omega arith)
          (ap (λ l. find_claim_locked l claim.pci_index claim.bar_index) grown2.claims ∙ absent)

-- After a claim succeeded: the BAR is the owner's, and every other BAR is held as before.
abbrev pub NowHeld :
    PciBarClaimRegistry → DeviceId → ℕ → ℕ → PciBarClaimRegistry × Option PciBarResource → Type 0
NowHeld r owner p b (r', result) =
    (c : PciBarClaim) × (result ≡ some (resource_of c))
    × (device_id_equal c.owner owner ≡ true)
    × (find_claim_locked r'.claims p b ≡ some c)
    × ((p' b' : ℕ)
        → is_same_bar p b p' b' ≡ false
        → find_claim_locked r'.claims p' b' ≡ find_claim_locked r.claims p' b')

device_id_equal_refl : (id : DeviceId) → device_id_equal id id ≡ true
unfolding device_id_equal
device_id_equal_refl id = ground arith

append-other :
    (cs : List PciBarClaim) (c : PciBarClaim) (p b : ℕ)
    → is_same_bar c.pci_index c.bar_index p b ≡ false
    → find_claim_locked (cs ++ c ∷ []) p b ≡ find_claim_locked cs p b
append-other cs c p b h = elim (Option-cases (find_claim_locked cs p b)) [
  | inl e ↦ find_claim_locked-append cs c p b e ∙ find_claim_locked-one_other c p b h ∙ sym e
  | inr (d, e) ↦ find_claim_locked-append_some cs c d p b e ∙ sym e
]

-- On a well-formed registry of less than 2 ^ 63 claims `claim_pci_bar` keeps it well formed, and
-- either it fails and no claim changed, or it returns the claim that now holds the BAR for the
-- owner, and every other BAR is held as before.
pub claim_pci_bar_lem :
    {r : PciBarClaimRegistry} (platform : Platform) (memory : Memory) (owner : DeviceId) (p b : ℕ)
    → WellFormed r
    → r.count < 2 ^ 63
    → let (r', result) = claim_pci_bar platform r memory owner p b in
      WellFormed r'
      × (((result ≡ none) × (r'.claims ≡ r.claims)) ⊎ NowHeld r owner p b (r', result))
unfolding claim_pci_bar
claim_pci_bar_lem {r} platform memory owner p b w small =
    elim (Bool-cases (bar_is_claimable platform p b)) [
      | inr n ↦ rw n (w, inl (refl, refl))
      | inl n ↦ elim (Option-cases (find_claim_locked r.claims p b)) [
        | inl e ↦
            let done = made memory claim w small e in
            rw (n, e) (done.0, elim done.1 [ inl l ↦ inl l | inr j ↦ inr (held e j) ])
        | inr (c, e) ↦ elim (Bool-cases (device_id_equal c.owner owner)) [
          | inl d ↦ rw (n, e, d) (w, inr (c, refl, d, e, λ p' b' ne. refl))
          | inr d ↦ rw (n, e, d) (w, inl (refl, refl))
        ]
      ]
    ]
  where
    claim : PciBarClaim
    claim = new_claim owner p b (platform.bars p b)

    held :
        find_claim_locked r.claims p b ≡ none
        → ((make_claim r memory claim).1 ≡ some (resource_of claim))
          × ((make_claim r memory claim).0.claims ≡ r.claims ++ claim ∷ [])
        → NowHeld r owner p b (make_claim r memory claim)
    held e j = (
      claim,
      j.0,
      device_id_equal_refl owner,
      ap (λ l. find_claim_locked l p b) j.1
          ∙ find_claim_locked-append r.claims claim p b e
          ∙ find_claim_locked-one_same claim,
      λ p' b' ne. ap (λ l. find_claim_locked l p' b') j.1 ∙ append-other r.claims claim p' b' ne,
    )

-- A BAR that one device holds is refused to a device of another identity, and nothing changes.
pub claim_pci_bar-held :
    {r : PciBarClaimRegistry} (platform : Platform) (memory : Memory) (owner : DeviceId) (p b : ℕ)
    (c : PciBarClaim)
    → find_claim_locked r.claims p b ≡ some c
    → device_id_equal c.owner owner ≡ false
    → claim_pci_bar platform r memory owner p b ≡ (r, none)
unfolding claim_pci_bar
claim_pci_bar-held {r} platform memory owner p b c e d =
    elim (Bool-cases (bar_is_claimable platform p b)) [
      | inl n ↦ rw (n, e, d) refl
      | inr n ↦ rw n refl
    ]
