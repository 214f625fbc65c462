-- ===== src/BarClaim/Release.antt =====
-- What a release does to the owners of the BARs.
use os.Base.{
  ℕ, ◌+◌, ◌-◌, ◌%◌, ◌^◌, ◌<◌, ◌≡◌, refl, inl, inr, false, length, arith, Bool-cases, Option-cases,
}
use os.BarClaim.{
  PciBarClaimRegistry, DeviceId, device_id_equal, find_claim_locked, unlink_claim, release_pci_bar,
  release_pci_bars_for_owner,
}
use os.BarClaim.Holder.{
  is_same_bar, unlink_claim-other, unlink_claim-same, unlink_claim-Unique, length-unlink_claim,
}
use os.BarClaim.Owners.{
  unless_owner, drop_owner_lem, drop_owner-Unique, length-drop_owner, count_drops_lem,
}
use os.BarClaim.Inv.{WellFormed}

-- On a well-formed registry whose count fits in 64 bits `release_pci_bar` keeps it well formed;
-- the BAR is free afterwards if the owner held it, is held as before if not, and every other BAR
-- is held as before.
pub release_pci_bar_lem :
    {r : PciBarClaimRegistry} (owner : DeviceId) (p b : ℕ)
    → WellFormed r
    → r.count < 2 ^ 64
    → let r' = release_pci_bar r owner p b in
      WellFormed r'
      × (find_claim_locked r'.claims p b ≡ unless_owner owner (find_claim_locked r.claims p b))
      × ((p' b' : ℕ)
          → is_same_bar p b p' b' ≡ false
          → find_claim_locked r'.claims p' b' ≡ find_claim_locked r.claims p' b')
unfolding release_pci_bar
release_pci_bar_lem {r} owner p b w small = elim (Option-cases (find_claim_locked r.claims p b)) [
  | inl e ↦ rw e (w, e, λ p' b' ne. refl)
  | inr (c, e) ↦ elim (Bool-cases (device_id_equal c.owner owner)) [
    | inr d ↦ rw (e, d) (w, e, λ p' b' ne. refl)
    | inl d ↦
        let l = length-unlink_claim r.claims p b c e in
        let k = w.counted in
        let f = w.fits in
        let less : (r.count + 2 ^ 64 - 1) % 2 ^ 64 ≡ length (unlink_claim r.claims p b) =
          omega arith in
        rw (e, d)
          (
            record {
              unique = unlink_claim-Unique r.claims p b w.unique;
              counted = less;
              fits = omega (arith, less);
            },
            unlink_claim-same r.claims p b w.unique,
            λ p' b' ne. unlink_claim-other r.claims p b p' b' ne,
          )
  ]
]

-- On a well-formed registry whose count fits in 64 bits `release_pci_bars_for_owner` keeps it
-- well formed; afterwards every BAR that the owner held is free and every other BAR is held as
-- before.
pub release_pci_bars_for_owner_lem :
    {r : PciBarClaimRegistry} (owner : DeviceId)
    → WellFormed r
    → r.count < 2 ^ 64
    → let r' = release_pci_bars_for_owner r owner in
      WellFormed r'
      × ((p b : ℕ)
          → find_claim_locked r'.claims p b ≡ unless_owner owner (find_claim_locked r.claims p b))
unfolding release_pci_bars_for_owner
release_pci_bars_for_owner_lem {r} owner w small =
    let k = w.counted in
    let f = w.fits in
    let l = length-drop_owner owner r.claims in
    let n = count_drops_lem owner r.claims r.count (omega arith) small in
    (
      record {
        unique = drop_owner-Unique owner r.claims w.unique;
        counted = omega arith;
        fits = omega arith;
      },
      λ p b. drop_owner_lem owner r.claims p b w.unique,
    )
