-- ===== src/EventRing/Tests.antt =====
-- A ring that two events have entered after a reset.
use os.Base.{ℕ, ◌-◌, ◌≤◌, ◌<◌, ◌≡◌, refl, some, List, [], ◌∷◌, length, get_elem?, min}
use os.EventRing.{
  Os1ObserveEventRecord, KernelEventRing, reset, append, snapshot, blank_record,
  event_ring_capacity,
}
use os.EventRing.Recent.{Holds, reset-Holds, append-Holds, snapshot_lem}

abbrev old_ring : KernelEventRing
old_ring = record { records = λ i. blank_record; next_sequence = 9; head = 8; count = 8 }

abbrev first : Os1ObserveEventRecord
first = record blank_record { type = 3; arg0 = 7 }

abbrev second : Os1ObserveEventRecord
second = record blank_record { type = 4 }

abbrev ring : KernelEventRing
ring = (append (append (reset old_ring) first).0 second).0

abbrev events : List Os1ObserveEventRecord
events =
    (append (append (reset old_ring) first).0 second).1 ∷ (append (reset old_ring) first).1 ∷ []

ring-Holds : Holds ring events
ring-Holds = (append-Holds second (append-Holds first (reset-Holds old_ring).0).0).0

numbered_from_one : (append (reset old_ring) first).1.sequence ≡ 1
unfolding append reset
numbered_from_one = refl

snapshot_lem_example :
    let n = min (min (length events) event_ring_capacity) 8 in
    (out' : ℕ → Os1ObserveEventRecord) × (snapshot ring (some (λ i. blank_record)) 8
      ≡ (some out', n))
    × ((i : ℕ) → i < n → get_elem? events (n - 1 - i) ≡ some (out' i))
    × ((i : ℕ) → n ≤ i → out' i ≡ blank_record)
snapshot_lem_example = snapshot_lem (λ i. blank_record) 8 ring-Holds
