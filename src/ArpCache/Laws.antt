-- ===== src/ArpCache/Laws.antt =====
-- The cache as a map from addresses to MACs.
use os.Base.{
  ◌+◌, ◌^◌, ◌<◌, ◌≡◌, refl, ◌⊎◌, inl, inr, Bool, true, false, none, some, List, [], ◌∷◌, length,
  arith, ap, ◌∙◌, sym, subst, Bool-cases, false≢true,
}
use os.Machine.{increment}
use os.ArpCache.{
  Ipv4, Mac, Entry, Neighbours, ipv4_equal, replace_mac, find_mac, upsert, lookup, clear, destroy,
}

same_address : (a b : Ipv4) → ipv4_equal a b ≡ true → (c : Ipv4) → ipv4_equal a c ≡ ipv4_equal b c
unfolding ipv4_equal
same_address a b h c =
    let e0 : a.byte0 ≡ b.byte0 = ground arith in
    let e1 : a.byte1 ≡ b.byte1 = ground arith in
    let e2 : a.byte2 ≡ b.byte2 = ground arith in
    let e3 : a.byte3 ≡ b.byte3 = ground arith in rw (e0, e1, e2, e3) refl

ipv4_equal_refl : (a : Ipv4) → ipv4_equal a a ≡ true
unfolding ipv4_equal
ipv4_equal_refl a = ground arith

find_hit :
    (e : Entry) (es : List Entry) (a : Ipv4)
    → ipv4_equal e.ipv4 a ≡ true
    → find_mac (e ∷ es) a ≡ some e.mac
unfolding find_mac
find_hit e es a h = rw h refl

find_miss :
    (e : Entry) (es : List Entry) (a : Ipv4)
    → ipv4_equal e.ipv4 a ≡ false
    → find_mac (e ∷ es) a ≡ find_mac es a
unfolding find_mac
find_miss e es a h = rw h refl

replace_hit :
    (e : Entry) (es : List Entry) (a : Ipv4) (v : Mac)
    → ipv4_equal e.ipv4 a ≡ true
    → replace_mac (e ∷ es) a v ≡ some (record e { mac = v } ∷ es)
unfolding replace_mac
replace_hit e es a v h = rw h refl

replace_miss :
    (e : Entry) (es : List Entry) (a : Ipv4) (v : Mac)
    → ipv4_equal e.ipv4 a ≡ false
    → replace_mac (e ∷ es) a v ≡ elim (replace_mac es a v) [ none ↦ none | some l ↦ some (e ∷ l) ]
unfolding replace_mac
replace_miss e es a v h = rw h refl

-- The replaced list maps the address to the new MAC and every other address as before; there is
-- none exactly if the address is not in the list.
pub replace_mac_lem :
    (es : List Entry) (a : Ipv4) (v : Mac)
    → ((replace_mac es a v ≡ none) × (find_mac es a ≡ none))
      ⊎ ((l : List Entry) × (replace_mac es a v ≡ some l)
          × (length l ≡ length es)
          × (find_mac l a ≡ some v)
          × ((b : Ipv4) → ipv4_equal a b ≡ false → find_mac l b ≡ find_mac es b))
unfolding replace_mac find_mac
replace_mac_lem [] a v = inl (refl, refl)
replace_mac_lem (e ∷ es) a v = elim (Bool-cases (ipv4_equal e.ipv4 a)) [
  | inl h ↦ inr (
    record e { mac = v } ∷ es,
    replace_hit e es a v h,
    refl,
    find_hit (record e { mac = v }) es a h,
    λ b ne.
        let k : ipv4_equal e.ipv4 b ≡ false = same_address e.ipv4 a h b ∙ ne in
        find_miss (record e { mac = v }) es b k ∙ sym (find_miss e es b k),
  )
  | inr h ↦ elim (replace_mac_lem es a v) [
    | inl (n, f) ↦ inl (
      replace_miss e es a v h ∙ ap (λ o. elim o [ none ↦ none | some l ↦ some (e ∷ l) ]) n,
      find_miss e es a h ∙ f,
    )
    | inr (l, r, n, f, others) ↦ inr (
      e ∷ l,
      replace_miss e es a v h ∙ ap (λ o. elim o [ none ↦ none | some l ↦ some (e ∷ l) ]) r,
      omega (arith, n),
      find_miss e l a h ∙ f,
      λ b ne. elim (Bool-cases (ipv4_equal e.ipv4 b)) [
        | inl k ↦ find_hit e l b k ∙ sym (find_hit e es b k)
        | inr k ↦ find_miss e l b k ∙ others b ne ∙ sym (find_miss e es b k)
      ],
    )
  ]
]

lookup-ready :
    (c : Neighbours) (a : Ipv4) → c.cache ≡ true → lookup c (some a) ≡ find_mac c.entries a
unfolding lookup
lookup-ready c a h = rw h refl

abbrev changed : Neighbours → List Entry → Neighbours
changed c l = record c { entries = l }

abbrev added : Neighbours → Entry → Neighbours
added c entry = record c { entries = entry ∷ c.entries; count = increment c.count }

-- The three ways in which `upsert` on an initialized cache ends.
module _ (c : Neighbours) (a : Ipv4) (v : Mac) (allocated : Bool) (ready : c.cache ≡ true) where
  upsert_replaces :
      (l : List Entry)
      → replace_mac c.entries a v ≡ some l
      → upsert c (some a) (some v) allocated ≡ (changed c l, true)
  unfolding upsert
  upsert_replaces l r = rw (ready, r) refl

  upsert_adds :
      replace_mac c.entries a v ≡ none
      → allocated ≡ true
      → upsert c (some a) (some v) allocated ≡ (added c (record { ipv4 = a; mac = v }), true)
  unfolding upsert
  upsert_adds r n = rw (ready, r, n) refl

  upsert_fails :
      replace_mac c.entries a v ≡ none
      → allocated ≡ false
      → upsert c (some a) (some v) allocated ≡ (c, false)
  unfolding upsert
  upsert_fails r n = rw (ready, r, n) refl

-- On a cache that is initialized and counts its entries, less than 2 ^ 64 - 1 of them, `upsert`
-- either fails, changing nothing, where the address is not in the cache and no entry can be
-- allocated; or the address is looked up as the new MAC afterwards, every other address as
-- before, and the count is exact again.
pub upsert_lem :
    {c : Neighbours} (a : Ipv4) (v : Mac) (allocated : Bool)
    → c.cache ≡ true
    → c.count ≡ length c.entries
    → c.count + 1 < 2 ^ 64
    → let (c', done) = upsert c (some a) (some v) allocated in
      ((allocated ≡ false) × (lookup c (some a) ≡ none) × (done ≡ false) × (c' ≡ c))
      ⊎ ((done ≡ true)
          × (lookup c' (some a) ≡ some v)
          × ((b : Ipv4) → ipv4_equal a b ≡ false → lookup c' (some b) ≡ lookup c (some b))
          × (c'.count ≡ length c'.entries))
upsert_lem {c} a v allocated ready counted small = elim (replace_mac_lem c.entries a v) [
  | inr (l, r, n, f, others) ↦ inr (
      subst (After) (sym (upsert_replaces c a v allocated ready l r)) (
        refl,
        lookup-ready (changed c l) a ready ∙ f,
        λ b ne. lookup-ready (changed c l) b ready ∙ others b ne ∙ sym (lookup-ready c b ready),
        counted ∙ sym n,
      ))
  | inl (r, f) ↦ elim (Bool-cases allocated) [
    | inr n ↦
        let e = upsert_fails c a v allocated ready r n in
        inl (n, lookup-ready c a ready ∙ f, ap (λ x. x.1) e, ap (λ x. x.0) e)
    | inl n ↦ inr (
        subst After (sym (upsert_adds c a v allocated ready r n)) (
          refl,
          lookup-ready (added c entry) a ready ∙ find_hit entry c.entries a (ipv4_equal_refl a),
          λ b ne.
              lookup-ready (added c entry) b ready
              ∙ find_miss entry c.entries b ne
              ∙ sym (lookup-ready c b ready),
          omega arith,
        ))
  ]
]
  where
    entry : Entry
    entry = record { ipv4 = a; mac = v }

    After : Neighbours × Bool → Type 0
    After x =
        (x.1 ≡ true)
        × (lookup x.0 (some a) ≡ some v)
        × ((b : Ipv4) → ipv4_equal a b ≡ false → lookup x.0 (some b) ≡ lookup c (some b))
        × (x.0.count ≡ length x.0.entries)

lookup-closed : (c : Neighbours) (a : Ipv4) → c.cache ≡ false → lookup c (some a) ≡ none
unfolding lookup
lookup-closed c a h = rw h refl

lookup-empty : (c : Neighbours) (a : Ipv4) → c.entries ≡ [] → lookup c (some a) ≡ none
unfolding lookup find_mac
lookup-empty c a h = elim (Bool-cases c.cache) [ inl e ↦ rw (e, h) refl | inr e ↦ rw e refl ]

destroyed_already :
    (c : Neighbours) (destroyed : Bool) → c.cache ≡ false → destroy c destroyed ≡ (c, true)
unfolding destroy
destroyed_already c destroyed e = rw e refl

destroys :
    (c : Neighbours)
    → c.cache ≡ true
    → destroy c true ≡ (record { cache = false; entries = []; count = 0 }, true)
unfolding destroy clear
destroys c e = rw e refl

not_destroyed :
    (c : Neighbours)
    → c.cache ≡ true
    → destroy c false ≡ (record { cache = true; entries = []; count = 0 }, false)
unfolding destroy clear
not_destroyed c e = rw e refl

-- After `destroy` no address is found; it returns false only if the kernel cache could not be
-- destroyed, which the cache then keeps.
pub destroy_lem :
    (c : Neighbours) (destroyed : Bool) (a : Ipv4)
    → let (c', done) = destroy c destroyed in
      (lookup c' (some a) ≡ none) × (done ≡ false → (destroyed ≡ false) × (c'.cache ≡ true))
destroy_lem c destroyed a = elim (Bool-cases c.cache) [
  | inr n ↦
      subst Gone (sym (destroyed_already c destroyed n))
        (lookup-closed c a n, λ e. absurd (false≢true (sym e)))
  | inl n ↦ by_result destroyed n
]
  where
    Gone : Neighbours × Bool → Type 0
    Gone x = (lookup x.0 (some a) ≡ none) × (x.1 ≡ false → (destroyed ≡ false) × (x.0.cache ≡ true))

    by_result :
        (d : Bool)
        → c.cache ≡ true
        → (lookup (destroy c d).0 (some a) ≡ none)
          × ((destroy c d).1 ≡ false → (d ≡ false) × ((destroy c d).0.cache ≡ true))
    by_result true n =
        subst
          (λ x. (lookup x.0 (some a) ≡ none) × (x.1 ≡ false → (true ≡ false) × (x.0.cache ≡ true)))
          (sym (destroys c n))
          (
            lookup-closed (record { cache = false; entries = []; count = 0 }) a refl,
            λ e. absurd (false≢true (sym e)),
          )
    by_result false n =
        subst
          (λ x. (lookup x.0 (some a) ≡ none) × (x.1 ≡ false → (false ≡ false) × (x.0.cache ≡ true)))
          (sym (not_destroyed c n))
          (
            lookup-empty (record { cache = true; entries = []; count = 0 }) a refl,
            λ e. (refl, refl),
          )
