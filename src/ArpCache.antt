-- ===== src/ArpCache.antt =====
-- The cache of IPv4 neighbours: src/kernel/drivers/net/arp_cache.cpp. The chain of entries from `head_`
-- is a list. Whether an allocation of kernel memory succeeds is an argument, and so is what
-- `kmem_cache_destroy` returns. A pointer argument may be null.
pub mod Laws
pub mod Tests
use os.Base.{
  ℕ, Bool, true, false, Option, none, some, List, [], ◌∷◌, ◌&&◌, not, ◌==◌, if◌then◌else◌,
}
use os.Machine.{increment}

pub record Ipv4 : Type 0 where
  pub byte0 : ℕ
  pub byte1 : ℕ
  pub byte2 : ℕ
  pub byte3 : ℕ

pub record Mac : Type 0 where
  pub byte0 : ℕ
  pub byte1 : ℕ
  pub byte2 : ℕ
  pub byte3 : ℕ
  pub byte4 : ℕ
  pub byte5 : ℕ

pub record Entry : Type 0 where
  pub ipv4 : Ipv4
  pub mac : Mac

-- The fields of `ArpCache`; `cache` says whether `cache_` is set.
pub record Neighbours : Type 0 where
  pub cache : Bool
  pub entries : List Entry
  pub count : ℕ

unfoldable pub ipv4_equal : Ipv4 → Ipv4 → Bool
ipv4_equal lhs rhs =
    (lhs.byte0 == rhs.byte0)
    && (lhs.byte1 == rhs.byte1)
    && (lhs.byte2 == rhs.byte2)
    && (lhs.byte3 == rhs.byte3)

-- `initialize(cache_name)`, where `named` says whether the name is there and not empty.
unfoldable pub initialize_cache : Neighbours → Bool → Bool → Neighbours × Bool
initialize_cache c named created =
    if not named
    then (c, false)
    else if c.cache
    then (c, true)
    else (record c { cache = created }, created)

-- The loop of `upsert`: the entry of the address has its MAC replaced, or there is none.
unfoldable pub replace_mac : List Entry → Ipv4 → Mac → Option (List Entry)
replace_mac [] ipv4 mac = none
replace_mac (entry ∷ rest) ipv4 mac =
    if ipv4_equal entry.ipv4 ipv4
    then some (record entry { mac = mac } ∷ rest)
    else elim (replace_mac rest ipv4 mac) [ none ↦ none | some l ↦ some (entry ∷ l) ]

abbrev pub upsert_known : Neighbours → Ipv4 → Mac → Bool → Option (List Entry) → Neighbours × Bool
upsert_known c ipv4 mac allocated (some l) = (record c { entries = l }, true)
upsert_known c ipv4 mac allocated none = if not allocated then (c, false) else (
  record c { entries = record { ipv4 = ipv4; mac = mac } ∷ c.entries; count = increment c.count },
  true,
)

-- `upsert(ipv4, mac, flags)`
unfoldable pub upsert : Neighbours → Option Ipv4 → Option Mac → Bool → Neighbours × Bool
upsert c none mac allocated = (c, false)
upsert c (some ipv4) none allocated = (c, false)
upsert c (some ipv4) (some mac) allocated =
    if not c.cache
    then (c, false)
    else upsert_known c ipv4 mac allocated (replace_mac c.entries ipv4 mac)

unfoldable pub find_mac : List Entry → Ipv4 → Option Mac
find_mac [] ipv4 = none
find_mac (entry ∷ rest) ipv4 =
    if ipv4_equal entry.ipv4 ipv4 then some entry.mac else find_mac rest ipv4

-- `lookup(ipv4, mac)`; `none` is false.
unfoldable pub lookup : Neighbours → Option Ipv4 → Option Mac
lookup c none = none
lookup c (some ipv4) = if not c.cache then none else find_mac c.entries ipv4

unfoldable pub entry_count : Neighbours → ℕ
entry_count c = c.count

-- `clear()`
unfoldable pub clear : Neighbours → Neighbours
clear c = if not c.cache then c else record c { entries = []; count = 0 }

-- `destroy()`
unfoldable pub destroy : Neighbours → Bool → Neighbours × Bool
destroy c destroyed =
    if not c.cache
    then (c, true)
    else if not destroyed
    then (clear c, false)
    else (record (clear c) { cache = false }, true)
