-- ===== src/BarClaim/Capacity.antt =====
-- The capacity of the snapshot array.
use os.Base.{
  ℕ, zero, suc, ◌+◌, ◌*◌, ◌%◌, ◌^◌, ◌≤◌, ◌<◌, ◌≡◌, refl, inl, inr, true, leb, ltb, ◌==◌,
  if◌then◌else◌, arith, Bool-cases, false≢true,
}
use os.BarClaim.{
  PciBarClaimRegistry, Memory, grow, ensure_snapshot_capacity, ensure_pci_bar_claim_cache,
}

-- Doubling reaches the required capacity within the fuel and without wrap-around.
pub grow_lem :
    (fuel capacity required : ℕ)
    → 0 < capacity
    → required ≤ capacity + fuel
    → required ≤ 2 ^ 63
    → (required ≤ grow fuel capacity required) × (capacity ≤ grow fuel capacity required)
unfolding grow
grow_lem zero capacity required a b c = (omega arith, omega arith)
grow_lem (suc fuel) capacity required a b c = elim (Bool-cases (ltb capacity required)) [
  | inl l ↦
      let below : capacity < required = ground arith in
      let double : capacity * 2 % 2 ^ 64 ≡ capacity * 2 = omega arith in
      let rest = grow_lem fuel (capacity * 2) required (omega arith) (omega arith) c in
      rw (l, double) (rest.0, omega (arith, rest.1))
  | inr l ↦ let above : required ≤ capacity = ground arith in rw l (above, omega arith)
]

-- What stays the same while room is made.
pub record Grown (r r' : PciBarClaimRegistry) : Type 0 where
  pub claims : r'.claims ≡ r.claims
  pub count : r'.count ≡ r.count
  pub capacity : r.snapshot_capacity ≤ r'.snapshot_capacity

pub ensure_snapshot_capacity_lem :
    (r : PciBarClaimRegistry) (memory : Memory) (required : ℕ)
    → required ≤ 2 ^ 63
    → let (r', fits) = ensure_snapshot_capacity r memory required in
      Grown r r' × (fits ≡ true → required ≤ r'.snapshot_capacity)
unfolding ensure_snapshot_capacity
ensure_snapshot_capacity_lem r memory required c =
    elim (Bool-cases (leb required r.snapshot_capacity)) [
      | inl l ↦
          rw l (record { claims = refl; count = refl; capacity = omega arith }, λ e. ground arith)
      | inr l ↦ elim (Bool-cases memory.array) [
        | inr a ↦
            rw (l, a)
              (
                record { claims = refl; count = refl; capacity = omega arith },
                λ e. absurd (false≢true e),
              )
        | inl a ↦
            let start : (0 < first) × (r.snapshot_capacity ≤ first) =
              (ground arith, ground arith) in
            let g = grow_lem required first required start.0 (omega arith) c in
            rw (l, a)
              (
                record { claims = refl; count = refl; capacity = omega (arith, g.1, start.1) },
                λ e. g.0,
              )
      ]
    ]
  where
    first : ℕ
    first = if r.snapshot_capacity == 0 then 4 else r.snapshot_capacity

pub ensure_pci_bar_claim_cache_lem :
    (r : PciBarClaimRegistry) (memory : Memory) → Grown r (ensure_pci_bar_claim_cache r memory).0
unfolding ensure_pci_bar_claim_cache
ensure_pci_bar_claim_cache_lem r memory = elim (Bool-cases r.cache) [
  | inl e ↦ rw e (record { claims = refl; count = refl; capacity = omega arith })
  | inr e ↦ rw e (record { claims = refl; count = refl; capacity = omega arith })
]
