-- ===== src/BarClaim/Tests.antt =====
-- Two devices and two claims.
use os.Base.{◌≡◌, refl, ◌⊎◌, true, false, none, some, [], ◌∷◌, arith}
use os.BarClaim.{
  PciBarClaimRegistry, PciBarType, Platform, Memory, DeviceId, find_claim_locked, claim_pci_bar,
  new_claim, device_id_equal, is_claim_of,
}
use os.BarClaim.Inv.{WellFormed}
use os.BarClaim.Laws.{NowHeld, claim_pci_bar_lem}

abbrev disk : DeviceId
disk = record { bus = 1; index = 0 }

abbrev network : DeviceId
network = record { bus = 1; index = 1 }

abbrev platform : Platform
platform = record {
  device_count = 2;
  bars = λ p b. record { base = 0xfe000000; size = 0x1000; type = PciBarType.mmio32 };
}

abbrev memory : Memory
memory = record { cache_created = true; array = true; node = true }

abbrev registry : PciBarClaimRegistry
registry = record {
  cache = true;
  claims = new_claim disk 0 0 (platform.bars 0 0) ∷ new_claim disk 0 4 (platform.bars 0 4) ∷ [];
  snapshot_capacity = 4;
  count = 2;
}

registry-WellFormed : WellFormed registry
unfolding find_claim_locked is_claim_of
registry-WellFormed = record { unique = (refl, (refl, tt)); counted = refl; fits = omega arith }

found : find_claim_locked registry.claims 0 4 ≡ some (new_claim disk 0 4 (platform.bars 0 4))
unfolding find_claim_locked is_claim_of
found = refl

other : device_id_equal disk network ≡ false
unfolding device_id_equal
other = refl

claim_pci_bar_lem_example :
    let (r', result) = claim_pci_bar platform registry memory network 1 0 in
    WellFormed r'
    × (((result ≡ none) × (r'.claims ≡ registry.claims))
        ⊎ NowHeld registry network 1 0 (r', result))
claim_pci_bar_lem_example =
    claim_pci_bar_lem platform memory network 1 0 registry-WellFormed (omega arith)
