-- ===== src/ArpCache/Tests.antt =====
-- A cache of one neighbour.
use os.Base.{ℕ, ◌≡◌, refl, ◌⊎◌, true, false, none, some, [], ◌∷◌, length, arith}
use os.ArpCache.{Ipv4, Mac, Neighbours, ipv4_equal, upsert, lookup}
use os.ArpCache.Laws.{upsert_lem}

abbrev router : Ipv4
router = record { byte0 = 10; byte1 = 0; byte2 = 2; byte3 = 2 }

abbrev host : Ipv4
host = record { byte0 = 10; byte1 = 0; byte2 = 2; byte3 = 15 }

abbrev card : ℕ → Mac
card n = record { byte0 = 82; byte1 = 84; byte2 = 0; byte3 = 18; byte4 = 52; byte5 = n }

abbrev neighbours : Neighbours
neighbours = record {
  cache = true;
  entries = record { ipv4 = router; mac = card 1 } ∷ [];
  count = 1;
}

upsert_lem_example :
    let (c', done) = upsert neighbours (some host) (some (card 2)) true in
    ((true ≡ false) × (lookup neighbours (some host) ≡ none) × (done ≡ false) × (c' ≡ neighbours))
    ⊎ ((done ≡ true)
        × (lookup c' (some host) ≡ some (card 2))
        × ((b : Ipv4) → ipv4_equal host b ≡ false → lookup c' (some b) ≡ lookup neighbours (some b))
        × (c'.count ≡ length c'.entries))
upsert_lem_example = upsert_lem host (card 2) true refl refl (omega arith)
