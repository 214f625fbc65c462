-- ===== src/BarClaim/Inv.antt =====
-- When the registry of claims is well formed.
use os.Base.{◌≤◌, ◌≡◌, length}
use os.BarClaim.{PciBarClaimRegistry}
use os.BarClaim.Holder.{Unique}

pub record WellFormed (r : PciBarClaimRegistry) : Type 0 where
  pub unique : Unique r.claims
  pub counted : r.count ≡ length r.claims
  pub fits : r.count ≤ r.snapshot_capacity
