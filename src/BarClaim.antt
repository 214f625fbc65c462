-- ===== src/BarClaim.antt =====
-- Who owns which PCI BAR: src/kernel/drivers/bus/resource.cpp. The chain of nodes from `head` along
-- `next`, whose last node is `tail`, is the list of its claims. Whether an allocation of kernel memory
-- succeeds is an argument.
pub mod Holder
pub mod Owners
pub mod Capacity
pub mod Inv
pub mod Laws
pub mod Release
pub mod Tests
use os.Base.{
  ℕ, zero, suc, ◌+◌, ◌-◌, ◌*◌, ◌%◌, ◌^◌, Bool, true, false, Option, none, some, List, [], ◌∷◌, ◌++◌,
  ◌&&◌, ◌||◌, not, leb, ltb, ◌==◌, if◌then◌else◌,
}
use os.Machine.{increment}

pub data PciBarType : Type 0 where
  unused mmio32 mmio64 io : PciBarType

pub record DeviceId : Type 0 where
  pub bus : ℕ
  pub index : ℕ

pub record PciBarInfo : Type 0 where
  pub base : ℕ
  pub size : ℕ
  pub type : PciBarType

pub record PciBarResource : Type 0 where
  pub pci_index : ℕ
  pub bar_index : ℕ
  pub type : PciBarType
  pub base : ℕ
  pub size : ℕ

pub record PciBarClaim : Type 0 where
  pub active : Bool
  pub owner : DeviceId
  pub pci_index : ℕ
  pub bar_index : ℕ
  pub type : PciBarType
  pub base : ℕ
  pub size : ℕ

pub record PciBarClaimRegistry : Type 0 where
  pub cache : Bool
  pub claims : List PciBarClaim
  pub snapshot_capacity : ℕ
  pub count : ℕ

-- The part of `g_platform` that names the BARs.
pub record Platform : Type 0 where
  pub device_count : ℕ
  pub bars : ℕ → ℕ → PciBarInfo

-- Which allocations succeed: `kmem_cache_create`, `kcalloc`, `kmem_cache_alloc`.
pub record Memory : Type 0 where
  pub cache_created : Bool
  pub array : Bool
  pub node : Bool

unfoldable pub device_id_equal : DeviceId → DeviceId → Bool
device_id_equal left right = (left.bus == right.bus) && (left.index == right.index)

unfoldable pub ensure_pci_bar_claim_cache :
    PciBarClaimRegistry → Memory → PciBarClaimRegistry × Bool
ensure_pci_bar_claim_cache r memory =
    if r.cache then (r, true) else (record r { cache = memory.cache_created }, memory.cache_created)

-- `while(new_capacity < required_capacity) { new_capacity *= 2u; }`
unfoldable pub grow : ℕ → ℕ → ℕ → ℕ
grow zero new_capacity required = new_capacity
grow (suc fuel) new_capacity required =
    let rest = grow fuel (new_capacity * 2 % 2 ^ 64) required in
    if ltb new_capacity required then rest else new_capacity

unfoldable pub ensure_snapshot_capacity :
    PciBarClaimRegistry → Memory → ℕ → PciBarClaimRegistry × Bool
ensure_snapshot_capacity r memory required =
    if leb required r.snapshot_capacity
    then (r, true)
    else if not memory.array
    then (r, false)
    else (
      record r {
        snapshot_capacity =
            grow required (if r.snapshot_capacity == 0 then 4 else r.snapshot_capacity) required;
      },
      true,
    )

unfoldable pub is_claim_of : ℕ → ℕ → PciBarClaim → Bool
is_claim_of pci_index bar_index claim =
    (claim.pci_index == pci_index) && (claim.bar_index == bar_index)

-- `find_claim_locked(pci_index, bar_index)`
unfoldable pub find_claim_locked : List PciBarClaim → ℕ → ℕ → Option PciBarClaim
find_claim_locked [] pci_index bar_index = none
find_claim_locked (claim ∷ rest) pci_index bar_index =
    if is_claim_of pci_index bar_index claim
    then some claim
    else find_claim_locked rest pci_index bar_index

-- `unlink_claim_node_locked` at the node that `find_claim_locked` returns.
unfoldable pub unlink_claim : List PciBarClaim → ℕ → ℕ → List PciBarClaim
unlink_claim [] pci_index bar_index = []
unlink_claim (claim ∷ rest) pci_index bar_index =
    if is_claim_of pci_index bar_index claim
    then rest
    else claim ∷ unlink_claim rest pci_index bar_index

-- `pci_bar_claim_registry_reset()`
unfoldable pub pci_bar_claim_registry_reset : PciBarClaimRegistry → PciBarClaimRegistry
pci_bar_claim_registry_reset r = record {
  cache = false;
  claims = [];
  snapshot_capacity = 0;
  count = 0;
}

abbrev pub is_unused : PciBarType → Bool
is_unused t = elim t [ PciBarType.unused ↦ true | _ ↦ false ]

-- The BAR exists and decodes addresses.
unfoldable pub bar_is_claimable : Platform → ℕ → ℕ → Bool
bar_is_claimable platform pci_index bar_index =
    let bar = platform.bars pci_index bar_index in
    not (leb platform.device_count pci_index || leb 6 bar_index)
    && not ((bar.base == 0) || (bar.size == 0) || is_unused bar.type)

abbrev pub new_claim : DeviceId → ℕ → ℕ → PciBarInfo → PciBarClaim
new_claim owner pci_index bar_index bar = record {
  active = true;
  owner = owner;
  pci_index = pci_index;
  bar_index = bar_index;
  type = bar.type;
  base = bar.base;
  size = bar.size;
}

abbrev pub resource_of : PciBarClaim → PciBarResource
resource_of claim = record {
  pci_index = claim.pci_index;
  bar_index = claim.bar_index;
  type = claim.type;
  base = claim.base;
  size = claim.size;
}

-- The end of `claim_pci_bar`, where the node is allocated and linked behind the tail.
unfoldable pub publish_claim :
    PciBarClaimRegistry → Memory → PciBarClaim → PciBarClaimRegistry × Option PciBarResource
publish_claim r memory claim = if not memory.node then (r, none) else (
  record r { claims = r.claims ++ claim ∷ []; count = increment r.count },
  some (resource_of claim),
)

abbrev pub make_claim :
    PciBarClaimRegistry → Memory → PciBarClaim → PciBarClaimRegistry × Option PciBarResource
make_claim r memory claim =
    let (r1, fits) = ensure_snapshot_capacity r memory (increment r.count) in
    let (r2, cached) = ensure_pci_bar_claim_cache r1 memory in
    if not fits
    then (r1, none)
    else if not cached
    then (r2, none)
    else publish_claim r2 memory claim

abbrev pub claim_known :
    PciBarClaimRegistry
    → Memory
    → DeviceId
    → PciBarClaim
    → Option PciBarClaim
    → PciBarClaimRegistry × Option PciBarResource
claim_known r memory owner claim none = make_claim r memory claim
claim_known r memory owner claim (some existing) =
    if not (device_id_equal existing.owner owner)
    then (r, none)
    else (r, some (resource_of existing))

-- `claim_pci_bar(owner, pci_index, bar_index, resource)`; `none` is false.
unfoldable pub claim_pci_bar :
    Platform
    → PciBarClaimRegistry
    → Memory
    → DeviceId
    → ℕ
    → ℕ
    → PciBarClaimRegistry × Option PciBarResource
claim_pci_bar platform r memory owner pci_index bar_index =
    if not (bar_is_claimable platform pci_index bar_index)
    then (r, none)
    else claim_known r memory owner
        (new_claim owner pci_index bar_index (platform.bars pci_index bar_index))
        (find_claim_locked r.claims pci_index bar_index)

abbrev pub release_known :
    PciBarClaimRegistry → DeviceId → ℕ → ℕ → Option PciBarClaim → PciBarClaimRegistry
release_known r owner pci_index bar_index none = r
release_known r owner pci_index bar_index (some claim) =
    if device_id_equal claim.owner owner
    then record r {
      claims = unlink_claim r.claims pci_index bar_index;
      count = (r.count + 2 ^ 64 - 1) % 2 ^ 64;
    }
    else r

-- `release_pci_bar(owner, pci_index, bar_index)`
unfoldable pub release_pci_bar : PciBarClaimRegistry → DeviceId → ℕ → ℕ → PciBarClaimRegistry
release_pci_bar r owner pci_index bar_index =
    release_known r owner pci_index bar_index (find_claim_locked r.claims pci_index bar_index)

-- The loop of `release_pci_bars_for_owner`: the claims that stay, and the count after each unlinking.
unfoldable pub drop_owner : DeviceId → List PciBarClaim → List PciBarClaim
drop_owner owner [] = []
drop_owner owner (claim ∷ rest) =
    if device_id_equal claim.owner owner
    then drop_owner owner rest
    else claim ∷ drop_owner owner rest

unfoldable pub count_drops : DeviceId → List PciBarClaim → ℕ → ℕ
count_drops owner [] count = count
count_drops owner (claim ∷ rest) count =
    if device_id_equal claim.owner owner
    then count_drops owner rest ((count + 2 ^ 64 - 1) % 2 ^ 64)
    else count_drops owner rest count

-- `release_pci_bars_for_owner(owner)`
unfoldable pub release_pci_bars_for_owner : PciBarClaimRegistry → DeviceId → PciBarClaimRegistry
release_pci_bars_for_owner r owner = record r {
  claims = drop_owner owner r.claims;
  count = count_drops owner r.claims r.count;
}

unfoldable pub pci_bar_claim_count : PciBarClaimRegistry → ℕ
pci_bar_claim_count r = r.count

-- `pci_bar_claims()`: the claims that it copies into the snapshot array, or null.
unfoldable pub pci_bar_claims : PciBarClaimRegistry → Option (List PciBarClaim)
pci_bar_claims r = if r.count == 0 then none else some r.claims
