-- ===== src/Dma/Release.antt =====
-- The state of the DMA buffers after an allocation, after a release, and after both.
use os.Base.{
  ℕ, ◌+◌, ◌-◌, ◌*◌, ◌/◌, ◌%◌, ◌^◌, ◌≤◌, ◌<◌, ◌≡◌, refl, ◌⊎◌, inl, inr, true, Option, none, some,
  List, length, All, arith, ap, ◌∙◌, sym, subst,
}
use os.Bitmap.{fill, fill_in, fill_out, fill_above}
use os.PageFrame.{PageFrameContainer, page_size}
use os.PageFrame.Run.{IsRun}
use os.BarClaim.{DeviceId}
use os.Dma.{
  DmaAllocationRecord, DmaDirection, DmaState, DmaBuffer, Heap, DmaAllocationRegistry, new_record,
  empty_buffer, bytes_to_pages, unlink_allocation, find_allocation_locked, free_buffer_pages,
  dma_allocate_buffer, dma_release_buffer, forget_allocation,
}
use os.Dma.Pages.{IsBusyRun, given_back, free_buffer_pages_lem, free_buffer_pages-taken_run}
use os.Dma.Records.{
  IsHeld, AllApart, first_page, find_allocation_locked-fresh, find_allocation_locked-last,
  unlink_allocation-last, find_allocation_locked-All,
}
use os.Dma.Inv.{WellFormed, registered-WellFormed, forgotten-WellFormed}
use os.Dma.Laws.{AllocationOutcome, dma_allocate_buffer_lem}

transfer :
    {c c' : PageFrameContainer} {r r' : DmaAllocationRegistry}
    → WellFormed c r
    → c' ≡ c
    → r'.allocations ≡ r.allocations
    → r'.count ≡ r.count
    → WellFormed c' r'
transfer {c} {c'} {r} {r'} w frames allocations count =
    subst (λ x. WellFormed x r') (sym frames)
      (record {
        pages = w.pages;
        ready = w.ready;
        counted = count ∙ w.counted ∙ ap length (sym allocations);
        held = subst (All (IsHeld c)) (sym allocations) w.held;
        apart = subst AllApart (sym allocations) w.apart;
      })

forget_allocation-found :
    (r : DmaAllocationRegistry) (physical_base : ℕ) (found : DmaAllocationRecord)
    → find_allocation_locked r.allocations physical_base ≡ some found
    → forget_allocation r physical_base ≡ record r {
      allocations = unlink_allocation r.allocations physical_base;
      count = (r.count + 2 ^ 64 - 1) % 2 ^ 64;
    }
unfolding forget_allocation
forget_allocation-found r physical_base found e = rw (e, forget_allocation) refl

module _ (s : DmaState) (heap : Heap) (owner : DeviceId) (size : ℕ) (direction : DmaDirection)
    (w : WellFormed s.frames s.registry) (small : s.registry.count + 1 < 2 ^ 64) where
  outcome-WellFormed :
      (o : DmaState × Option DmaBuffer)
      → AllocationOutcome s heap owner size direction (bytes_to_pages size) o
      → WellFormed o.0.frames o.0.registry
  outcome-WellFormed (s', none) f =
      transfer w f.same_frames f.same_registry.same_allocations f.same_registry.same_count
  outcome-WellFormed (s', some buffer) (start, g) =
      transfer
        (registered-WellFormed s.frames s.registry s.registry.cache s.registry.snapshot_capacity
          start (new_record owner size direction (bytes_to_pages size) (start * page_size)) w small
          g.some_pages refl g.first_run)
        g.frames_taken g.registered g.counted

  -- `dma_allocate_buffer` keeps the state of the buffers well formed, whether it succeeds or fails:
  -- the pages of every record stay handed out and no two records share a page.
  pub dma_allocate_buffer-WellFormed :
      (let s' = (dma_allocate_buffer s heap owner size direction).0 in
        WellFormed s'.frames s'.registry)
  dma_allocate_buffer-WellFormed =
      outcome-WellFormed (dma_allocate_buffer s heap owner size direction)
        (dma_allocate_buffer_lem s heap owner size direction w)

  -- On a well-formed state and with a count of records that does not wrap, releasing the buffer that
  -- `dma_allocate_buffer` has just returned gives back the page allocator, the records and their number as
  -- they were before, and leaves the empty buffer.
  pub dma_release_buffer-dma_allocate_buffer :
      (s' : DmaState) (buffer : DmaBuffer)
      → dma_allocate_buffer s heap owner size direction ≡ (s', some buffer)
      → let (s'', left) = dma_release_buffer s' buffer in
        (s''.frames ≡ s.frames)
        × (s''.registry.allocations ≡ s.registry.allocations)
        × (s''.registry.count ≡ s.registry.count)
        × (left ≡ empty_buffer)
  unfolding dma_release_buffer
  dma_release_buffer-dma_allocate_buffer s' buffer e =
      let (start, g) =
        subst (AllocationOutcome s heap owner size direction (bytes_to_pages size)) e
          (dma_allocate_buffer_lem s heap owner size direction w) in
      let base : ℕ = start * page_size in
      let count : ℕ = bytes_to_pages size in
      let new : DmaAllocationRecord = new_record owner size direction count base in
      let old : List DmaAllocationRecord = s.registry.allocations in
      let fresh : find_allocation_locked old base ≡ none =
        find_allocation_locked-fresh s.frames old start w.held
          (g.first_run.run_free start (omega arith) (omega (arith, g.some_pages))) in
      let found : find_allocation_locked s'.registry.allocations base ≡ some new =
        ap (λ l. find_allocation_locked l base) g.registered
        ∙ find_allocation_locked-last new old fresh in
      let forgotten = forget_allocation-found s'.registry base new found in
      subst
        (λ b.
          (let (s'', left) = dma_release_buffer s' b in
            (s''.frames ≡ s.frames)
            × (s''.registry.allocations ≡ s.registry.allocations)
            × (s''.registry.count ≡ s.registry.count)
            × (left ≡ empty_buffer)))
        (sym g.described)
        (
          ap (λ x. free_buffer_pages x base 0 count) g.frames_taken
              ∙ free_buffer_pages-taken_run s.frames start count w.ready w.pages.small g.first_run,
          ap (λ r. r.allocations) forgotten
              ∙ ap (λ l. unlink_allocation l base) g.registered
              ∙ unlink_allocation-last new old fresh,
          ap (λ r. r.count) forgotten ∙ omega (arith, g.counted, small),
          refl,
        )

-- On a well-formed state, releasing an active buffer whose record the registry finds, with the
-- buffer's page count, keeps the state well formed, takes the record out, frees all pages of the
-- buffer and no other page, and leaves the empty buffer.
pub dma_release_buffer_lem :
    (s : DmaState) (buffer : DmaBuffer) (found : DmaAllocationRecord)
    → WellFormed s.frames s.registry
    → s.registry.count < 2 ^ 64
    → buffer.active ≡ true
    → find_allocation_locked s.registry.allocations buffer.physical_address ≡ some found
    → found.page_count ≡ buffer.page_count
    → let (s', left) = dma_release_buffer s buffer in
      let first = buffer.physical_address / page_size in
      WellFormed s'.frames s'.registry
      × (s'.registry.allocations ≡ unlink_allocation s.registry.allocations buffer.physical_address)
      × IsRun s'.frames.bitmap first buffer.page_count
      × ((j : ℕ)
          → (j < first) ⊎ (first + buffer.page_count ≤ j)
          → s'.frames.bitmap j ≡ s.frames.bitmap j)
      × (left ≡ empty_buffer)
unfolding dma_release_buffer
dma_release_buffer_lem s buffer found w small active e pages =
    let (h, same) =
      find_allocation_locked-All buffer.physical_address (IsHeld s.frames) s.registry.allocations
        found w.held e in
    let first : ℕ = first_page found in
    let base : buffer.physical_address ≡ first * page_size = omega (arith, same, h.aligned) in
    let number : first ≡ buffer.physical_address / page_size = ap (λ x. x / page_size) same in
    let forgotten = forget_allocation-found s.registry buffer.physical_address found e in
    let freed : free_buffer_pages s.frames buffer.physical_address 0 buffer.page_count
        ≡ given_back s.frames (buffer.physical_address / page_size) buffer.page_count =
      ap (λ x. free_buffer_pages s.frames x 0 buffer.page_count) base
      ∙ ap (λ n. free_buffer_pages s.frames (first * page_size) 0 n) (sym pages)
      ∙ free_buffer_pages_lem s.frames first 0 found.page_count w.ready w.pages.small
          (omega (arith, h.in_range))
          (subst (λ x. IsBusyRun s.frames.bitmap x found.page_count) (omega arith) h.busy)
      ∙ ap (λ x. given_back s.frames x found.page_count) (omega (arith, number))
      ∙ ap (λ n. given_back s.frames (buffer.physical_address / page_size) n) pages in
    rw (active, freed, forgotten)
      (
        subst
            (λ x. WellFormed x (record s.registry {
              allocations = unlink_allocation s.registry.allocations buffer.physical_address;
              count = (s.registry.count + 2 ^ 64 - 1) % 2 ^ 64;
            }))
            (ap (λ x. given_back s.frames x found.page_count) number
              ∙ ap (λ n. given_back s.frames (buffer.physical_address / page_size) n) pages)
            (forgotten-WellFormed s.frames s.registry buffer.physical_address found w small e),
        refl,
        (λ j p q.
            fill_in s.frames.bitmap (buffer.physical_address / page_size) buffer.page_count true j p
              q),
        outside,
        refl,
      )
  where
    outside :
        (j : ℕ)
        → (j < buffer.physical_address / page_size)
          ⊎ (buffer.physical_address / page_size + buffer.page_count ≤ j)
        → fill s.frames.bitmap (buffer.physical_address / page_size) buffer.page_count true j
          ≡ s.frames.bitmap j
    outside j (inl k) =
        fill_out s.frames.bitmap (buffer.physical_address / page_size) buffer.page_count true j k
    outside j (inr k) =
        fill_above s.frames.bitmap (buffer.physical_address / page_size) buffer.page_count true j k
