-- ===== src/EventRing/Recent.antt =====
-- Which events the ring holds, and what a snapshot hands out.
use os.Base.{
  ℕ, zero, suc, ◌+◌, ◌-◌, ◌%◌, ◌≤◌, ◌<◌, ◌≡◌, refl, ◌≢◌, false, some, List, [], ◌∷◌, length,
  get_elem?, ltb, leb, ◌&&◌, ◌==◌, if◌then◌else◌, update, update_self, update_ne, min, arith, ap,
  ◌∙◌, sym, ℕ_discrete,
}
use os.EventRing.{
  Os1ObserveEventRecord, KernelEventRing, append, reset, copy_records, snapshot, min_u32,
  event_ring_capacity,
}

-- `events` are all the events since the last reset, the latest first; the ring holds the first 256.
pub record Holds (ring : KernelEventRing) (events : List Os1ObserveEventRecord) : Type 0 where
  pub head_small : ring.head < event_ring_capacity
  pub counted : ring.count ≡ min (length events) event_ring_capacity
  pub kept :
      (i : ℕ)
      → i < ring.count
      → get_elem? events i ≡ some (ring.records ((ring.head + 255 - i) % event_ring_capacity))

-- After a reset the ring holds no event and numbers the next one 1.
pub reset-Holds :
    (ring : KernelEventRing) → Holds (reset ring) [] × ((reset ring).next_sequence ≡ 1)
unfolding reset
reset-Holds ring =
    (record { head_small = omega arith; counted = refl; kept = λ i h. absurd (omega arith) }, refl)

-- On a ring that holds the latest of `events`, `append` numbers the event with the next sequence
-- number and keeps it as the latest; the ring holds the latest 256 then.
pub append-Holds :
    {ring : KernelEventRing} {events : List Os1ObserveEventRecord} (event : Os1ObserveEventRecord)
    → Holds ring events
    → let (ring', numbered) = append ring event in
      Holds ring' (numbered ∷ events) × (numbered.sequence ≡ ring.next_sequence)
unfolding append
append-Holds {ring} {events} event h = (
  record { head_small = omega arith; counted = let k = h.counted in ground arith; kept = keeps },
  refl,
)
  where
    ring' : KernelEventRing
    ring' = (append ring event).0

    numbered : Os1ObserveEventRecord
    numbered = (append ring event).1

    keeps :
        (i : ℕ)
        → i < ring'.count
        → get_elem? (numbered ∷ events) i
          ≡ some (ring'.records ((ring'.head + 255 - i) % event_ring_capacity))
    keeps zero l =
        let k = h.head_small in
        let at : (ring'.head + 255 - 0) % 256 ≡ ring.head = omega arith in
        rw (at, update_self ring.records ring.head numbered) refl
    keeps (suc i) l =
        let k = h.head_small in
        let small : (i < 255) × (i < ring.count) = let c = h.counted in ground arith in
        let at : (ring'.head + 255 - suc i) % 256 ≡ (ring.head + 255 - i) % 256 =
          let s = small.0 in omega arith in
        let other : ring.head ≢ (ring.head + 255 - i) % 256 =
          let s = small.0 in λ e. omega (arith, e) in
        rw (at, update_ne ring.records ring.head ((ring.head + 255 - i) % 256) numbered other)
          (h.kept i small.1)

slots :
    (head n i : ℕ)
    → n ≤ 256
    → i < n
    → (head + 255 - (n - 1 - i)) % 256
      ≡ ((head + event_ring_capacity - n) % event_ring_capacity + i) % 256
slots head n i a b = omega arith

copy_records_lem :
    (ring : KernelEventRing) (start r i : ℕ) (out : ℕ → Os1ObserveEventRecord) (j : ℕ)
    → copy_records ring start r i out j ≡ (
        if leb i j && ltb j (i + r)
        then ring.records ((start + j) % event_ring_capacity)
        else out j)
unfolding copy_records
copy_records_lem ring start zero i out j = ground arith
copy_records_lem ring start (suc r) i out j =
    let out' = update out i (ring.records ((start + i) % event_ring_capacity)) in
    copy_records_lem ring start r (i + 1) out' j
    ∙ elim (ℕ_discrete i j) [ yes e ↦ rw (sym e) (ground arith) | no ne ↦ ground (arith, ne) ]

min_u32_lem : (a b : ℕ) → min_u32 a b ≡ min a b
min_u32_lem a b = ground arith

snapshot_eq :
    (ring : KernelEventRing) (out : ℕ → Os1ObserveEventRecord) (max_records n : ℕ)
    → n ≡ min ring.count max_records
    → snapshot ring (some out) max_records ≡ (
      some
          (copy_records ring ((ring.head + event_ring_capacity - n) % event_ring_capacity) n 0 out),
      n,
    )
unfolding snapshot copy_records
snapshot_eq ring out zero n e = let k : n ≡ 0 = omega arith in rw k refl
snapshot_eq ring out (suc m) n e =
    let k : n ≡ min_u32 ring.count (suc m) = e ∙ sym (min_u32_lem ring.count (suc m)) in
    let asked : (suc m == 0) ≡ false = ground arith in rw (k, asked) refl

-- On a ring that holds the latest of `events`, a snapshot into a buffer fills its first records
-- with the latest events in the order of their arrival, as many as there were, as the ring keeps
-- and as the caller asks for, returns their number, and leaves the rest of the buffer alone.
pub snapshot_lem :
    {ring : KernelEventRing} {events : List Os1ObserveEventRecord} (out : ℕ → Os1ObserveEventRecord)
    (max_records : ℕ)
    → Holds ring events
    → let n = min (min (length events) event_ring_capacity) max_records in
      (out' : ℕ → Os1ObserveEventRecord) × (snapshot ring (some out) max_records ≡ (some out', n))
      × ((i : ℕ) → i < n → get_elem? events (n - 1 - i) ≡ some (out' i))
      × ((i : ℕ) → n ≤ i → out' i ≡ out i)
snapshot_lem {ring} {events} out max_records h = (
  out',
  snapshot_eq ring out max_records n (ap (λ c. min c max_records) (sym h.counted)),
  inside,
  outside,
)
  where
    n : ℕ
    n = min (min (length events) event_ring_capacity) max_records

    start : ℕ
    start = (ring.head + event_ring_capacity - n) % event_ring_capacity

    out' : ℕ → Os1ObserveEventRecord
    out' = copy_records ring start n 0 out

    inside : (i : ℕ) → i < n → get_elem? events (n - 1 - i) ≡ some (out' i)
    inside i l =
        let small = h.head_small in
        let c = h.counted in
        let bound : (n ≤ 256) × (n ≤ ring.count) = (ground arith, ground arith) in
        let slot : (ring.head + 255 - (n - 1 - i)) % 256 ≡ (start + i) % 256 =
          slots ring.head n i bound.0 l in
        h.kept (n - 1 - i) (omega (arith, bound.1))
        ∙ ap (λ j. some (ring.records j)) slot
        ∙ ap some (sym (copy_records_lem ring start n 0 out i ∙ ground (arith, l)))

    outside : (i : ℕ) → n ≤ i → out' i ≡ out i
    outside i l = copy_records_lem ring start n 0 out i ∙ ground arith
