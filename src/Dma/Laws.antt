-- ===== src/Dma/Laws.antt =====
-- dma_allocate_buffer and dma_release_buffer on every branch, and one after the other.
use os.Base.{
  ℕ, ◌+◌, ◌*◌, ◌%◌, ◌^◌, ◌≤◌, ◌<◌, ◌≡◌, refl, ◌⊎◌, inl, inr, true, false, Option, none, some, [],
  ◌∷◌, ◌++◌, arith, ap, ◌==◌, ◌||◌, not, Bool-cases,
}
use os.PageFrame.{page_size}
use os.PageFrame.Run.{IsBlocked, IsFirstRun, taken_run, allocate_run_lem}
use os.BarClaim.{DeviceId}
use os.Dma.{
  DmaDirection, DmaState, DmaBuffer, Heap, DmaAllocationRegistry, new_record, new_buffer, zeroed,
  bytes_to_pages, ensure_snapshot_capacity, ensure_dma_allocation_cache, register_buffer,
  allocate_pages, dma_allocate_buffer,
}
use os.Dma.Pages.{free_buffer_pages-taken_run}
use os.Dma.Inv.{WellFormed}

-- The registry changes at most in its cache and its snapshot.
pub record IsPrepared (r r' : DmaAllocationRegistry) : Type 0 where
  pub same_allocations : r'.allocations ≡ r.allocations
  pub same_count : r'.count ≡ r.count

prepared :
    (r : DmaAllocationRegistry) (heap : Heap) (n : ℕ)
    → IsPrepared r (ensure_snapshot_capacity r heap n).0
      × IsPrepared r (ensure_dma_allocation_cache (ensure_snapshot_capacity r heap n).0 heap).0
unfolding ensure_snapshot_capacity ensure_dma_allocation_cache
prepared r heap n = (
  record { same_allocations = ground arith; same_count = ground arith },
  record { same_allocations = ground arith; same_count = ground arith },
)

array_missing :
    (r : DmaAllocationRegistry) (heap : Heap) (n : ℕ)
    → (ensure_snapshot_capacity r heap n).1 ≡ false
    → heap.array ≡ false
unfolding ensure_snapshot_capacity
array_missing r heap n e = ground (arith, e)

cache_missing :
    (r : DmaAllocationRegistry) (heap : Heap)
    → (ensure_dma_allocation_cache r heap).1 ≡ false
    → heap.cache_created ≡ false
unfolding ensure_dma_allocation_cache
cache_missing r heap e = ground (arith, e)

-- A request for `count` pages that fails, and why.
pub record IsRefusal (s : DmaState) (heap : Heap) (size count : ℕ) (s' : DmaState) : Type 0 where
  pub same_frames : s'.frames ≡ s.frames
  pub same_registry : IsPrepared s.registry s'.registry
  pub reason :
      ((size == 0) || (count == 0) || not heap.array || not heap.cache_created || not heap.node
        ≡ true)
      ⊎ ((start : ℕ) → start + count ≤ s.frames.page_count → IsBlocked s.frames.bitmap start count)

pub record IsGrant (s : DmaState) (owner : DeviceId) (size : ℕ) (direction : DmaDirection)
    (count : ℕ) (s' : DmaState) (buffer : DmaBuffer) (start : ℕ) : Type 0 where
  pub some_pages : 0 < count
  pub first_run : IsFirstRun s.frames count start
  pub frames_taken : s'.frames ≡ taken_run s.frames start count
  pub described : buffer ≡ new_buffer owner size direction count (start * page_size)
  pub registered :
      s'.registry.allocations
      ≡ s.registry.allocations ++ new_record owner size direction count (start * page_size) ∷ []
  pub counted : s'.registry.count ≡ (s.registry.count + 1) % 2 ^ 64
  pub cleared : (p : ℕ) → s'.bytes p ≡ (zeroed s.bytes (start * page_size) count p)

abbrev pub AllocationOutcome :
    DmaState → Heap → DeviceId → ℕ → DmaDirection → ℕ → DmaState × Option DmaBuffer → Type 0
AllocationOutcome s heap owner size direction count (s', none) = IsRefusal s heap size count s'
AllocationOutcome s heap owner size direction count (s', some buffer) =
    (start : ℕ) × IsGrant s owner size direction count s' buffer start

module _ (s : DmaState) (heap : Heap) (owner : DeviceId) (size : ℕ) (direction : DmaDirection)
    (w : WellFormed s.frames s.registry) where
  abbrev count : ℕ
  count = bytes_to_pages size

  register_buffer_lem :
      (r : DmaAllocationRegistry) (start : ℕ)
      → 0 < count
      → IsPrepared s.registry r
      → IsFirstRun s.frames count start
      → AllocationOutcome s heap owner size direction count (
          register_buffer
            (record s {
              registry = r;
              frames = taken_run s.frames start count;
              bytes = zeroed s.bytes (start * page_size) count;
            })
            heap
            owner
            size
            direction
            count
            (start * page_size))
  register_buffer_lem r start pos q run = elim (Bool-cases heap.node) [
    | inl e ↦ rw e (
      start,
      record {
        some_pages = pos;
        first_run = run;
        frames_taken = refl;
        described = refl;
        registered =
            ap (λ l. l ++ new_record owner size direction count (start * page_size) ∷ [])
              q.same_allocations;
        counted = ap (λ n. (n + 1) % 2 ^ 64) q.same_count;
        cleared = λ p. refl;
      },
    )
    | inr e ↦ rw e (record {
      same_frames = free_buffer_pages-taken_run s.frames start count w.ready w.pages.small run;
      same_registry = q;
      reason = inl (ground (arith, e));
    })
  ]

  allocate_pages_lem :
      (r : DmaAllocationRegistry)
      → IsPrepared s.registry r
      → AllocationOutcome s heap owner size direction count
          (allocate_pages (record s { registry = r }) heap owner size direction)
  allocate_pages_lem r q = elim (Bool-cases (count == 0)) [
    | inl z ↦
        rw z (record { same_frames = refl; same_registry = q; reason = inl (ground (arith, z)) })
    | inr n ↦ elim (allocate_run_lem count w.pages w.ready (ground (arith, n))) [
      | inl (e, blocked) ↦
          rw (n, e) (record { same_frames = refl; same_registry = q; reason = inr blocked })
      | inr (start, run, e) ↦ rw (n, e) (register_buffer_lem r start (ground (arith, n)) q run)
    ]
  ]

  -- On a well-formed state `dma_allocate_buffer` fails only if the size is zero, its page count is
  -- zero, memory for the registry is missing or no run of free pages is long enough, and then it
  -- leaves the pages, the records and their number as they were. Else it takes the first run of free
  -- pages, clears their bytes and no others, adds the record of the buffer at the end and counts it,
  -- and returns the buffer of that run.
  pub dma_allocate_buffer_lem :
      AllocationOutcome s heap owner size direction
        (bytes_to_pages size)
        (dma_allocate_buffer s heap owner size direction)
  unfolding dma_allocate_buffer
  dma_allocate_buffer_lem =
      let n : ℕ = (s.registry.count + 1) % 2 ^ 64 in
      let r1 = (ensure_snapshot_capacity s.registry heap n).0 in
      let (q1, q2) = prepared s.registry heap n in
      elim (Bool-cases (size == 0)) [
        | inl z ↦ rw z (record {
          same_frames = refl;
          same_registry = record { same_allocations = refl; same_count = refl };
          reason = inl (ground (arith, z));
        })
        | inr pos ↦ elim (Bool-cases (ensure_snapshot_capacity s.registry heap n).1) [
          | inr e ↦
              rw (pos, e)
                (record {
                  same_frames = refl;
                  same_registry = q1;
                  reason = inl (ground (arith, array_missing s.registry heap n e));
                })
          | inl fits ↦ elim (Bool-cases (ensure_dma_allocation_cache r1 heap).1) [
            | inr e ↦
                rw (pos, fits, e)
                  (record {
                    same_frames = refl;
                    same_registry = q2;
                    reason = inl (ground (arith, cache_missing r1 heap e));
                  })
            | inl cached ↦
                rw (pos, fits, cached)
                  (allocate_pages_lem (ensure_dma_allocation_cache r1 heap).0 q2)
          ]
        ]
      ]
