-- ===== src/Dma/Tests.antt =====
-- The DMA theorems on 70 pages, of which 5 to 9 are free, with one buffer of two pages at page 3.
use os.Base.{ℕ, ◌+◌, ◌/◌, ◌^◌, ◌≤◌, ◌<◌, ◌≡◌, refl, ◌⊎◌, true, some, ◌&&◌, leb, ltb, ◌∷◌, [], arith}
use os.Bitmap.{Bitmap, count_below}
use os.PageFrame.{PageFrameContainer, page_size, allocate_run}
use os.PageFrame.Inv as Frames
use os.PageFrame.Run.{IsRun}
use os.BarClaim.{DeviceId}
use os.Dma.{
  DmaState, DmaBuffer, DmaDirection, Heap, empty_buffer, new_record, new_buffer, bytes_to_pages,
  dma_allocate_buffer, dma_release_buffer, find_allocation_locked, unlink_allocation,
  ensure_snapshot_capacity, ensure_dma_allocation_cache,
}
use os.Dma.Inv.{WellFormed}
use os.Dma.Records.{IsHeld}
use os.Dma.Laws.{AllocationOutcome, dma_allocate_buffer_lem}
use os.Dma.Release.{
  dma_allocate_buffer-WellFormed, dma_release_buffer-dma_allocate_buffer, dma_release_buffer_lem,
}

abbrev free_pages : Bitmap
free_pages i = leb 5 i && ltb i 10

abbrev container : PageFrameContainer
container = record {
  memory_size = 0x46000;
  memory_end_address = 0x46000;
  page_count = 70;
  free_page_count = 5;
  bitmap = free_pages;
  bitmap_physical_address = 0x1000;
  bitmap_size = 2;
  bitmap_limit = 2;
  initialized = true;
}

container-WellFormed : Frames.WellFormed container
unfolding count_below
container-WellFormed = record {
  count_exact = refl;
  tail_busy = λ i h k. ground arith;
  covers = omega arith;
  small = omega arith;
}

abbrev disk : DeviceId
disk = record { bus = 1; index = 3 }

abbrev heap : Heap
heap = record { cache_created = true; array = true; node = true }

abbrev state : DmaState
state = record {
  frames = container;
  registry = record {
    cache = true;
    allocations = new_record disk 0x1800 DmaDirection.to_device 2 0x3000 ∷ [];
    snapshot_capacity = 4;
    count = 1;
  };
  bytes = λ p. 7;
}

held : IsHeld container (new_record disk 0x1800 DmaDirection.to_device 2 0x3000)
held = record {
  aligned = refl;
  some_pages = omega arith;
  in_range = omega arith;
  busy = λ j p q. ground arith;
}

state-WellFormed : WellFormed state.frames state.registry
state-WellFormed = record {
  pages = container-WellFormed;
  ready = refl;
  counted = refl;
  held = (held, tt);
  apart = (tt, tt);
}

dma_allocate_buffer_lem_example :
    AllocationOutcome state heap disk 0x2001 DmaDirection.from_device
      (bytes_to_pages 0x2001)
      (dma_allocate_buffer state heap disk 0x2001 DmaDirection.from_device)
dma_allocate_buffer_lem_example =
    dma_allocate_buffer_lem state heap disk 0x2001 DmaDirection.from_device state-WellFormed

abbrev allocated : DmaState
allocated = (dma_allocate_buffer state heap disk 0x2001 DmaDirection.from_device).0

dma_allocate_buffer-WellFormed_example : WellFormed allocated.frames allocated.registry
dma_allocate_buffer-WellFormed_example =
    dma_allocate_buffer-WellFormed state heap disk 0x2001 DmaDirection.from_device state-WellFormed
      (omega arith)

abbrev buffer : DmaBuffer
buffer = new_buffer disk 0x2001 DmaDirection.from_device 3 0x5000

allocates :
    dma_allocate_buffer state heap disk 0x2001 DmaDirection.from_device ≡ (allocated, some buffer)
unfolding dma_allocate_buffer ensure_snapshot_capacity ensure_dma_allocation_cache bytes_to_pages
    allocate_run
allocates = refl

dma_release_buffer-dma_allocate_buffer_example :
    let (s'', left) = dma_release_buffer allocated buffer in
    (s''.frames ≡ container)
    × (s''.registry.allocations ≡ state.registry.allocations)
    × (s''.registry.count ≡ 1)
    × (left ≡ empty_buffer)
dma_release_buffer-dma_allocate_buffer_example =
    dma_release_buffer-dma_allocate_buffer state heap disk 0x2001 DmaDirection.from_device
      state-WellFormed (omega arith) allocated buffer allocates

dma_release_buffer_lem_example :
    let b = new_buffer disk 0x1800 DmaDirection.to_device 2 0x3000 in
    let (s', left) = dma_release_buffer state b in
    WellFormed s'.frames s'.registry
    × (s'.registry.allocations ≡ unlink_allocation state.registry.allocations 0x3000)
    × IsRun s'.frames.bitmap (0x3000 / page_size) 2
    × ((j : ℕ)
        → (j < 0x3000 / page_size) ⊎ (0x3000 / page_size + 2 ≤ j)
        → s'.frames.bitmap j ≡ free_pages j)
    × (left ≡ empty_buffer)
dma_release_buffer_lem_example =
    dma_release_buffer_lem state (new_buffer disk 0x1800 DmaDirection.to_device 2 0x3000)
      (new_record disk 0x1800 DmaDirection.to_device 2 0x3000) state-WellFormed (omega arith) refl
      (unfold find_allocation_locked in refl) refl

-- A request of 2 ^ 44 + 1 bytes is taken for one page.
bytes_to_pages_truncates : bytes_to_pages (2 ^ 44 + 1) ≡ 1
unfolding bytes_to_pages
bytes_to_pages_truncates = refl
