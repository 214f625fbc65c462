-- ===== src/Dma.antt =====
-- DMA buffers and the registry of them: src/kernel/mm/dma.cpp, over the page-frame allocator. The
-- chain of nodes from `head` along `next`, whose last node is `tail`, is the list of its records.
-- Whether an allocation of kernel memory succeeds is an argument. Each critical section of the
-- registry is a step, and no other code runs between the two of `dma_allocate_buffer`.
pub mod Pages
pub mod Records
pub mod Inv
pub mod Laws
pub mod Release
pub mod Tests
use os.Base.{
  ℕ, zero, suc, ◌+◌, ◌-◌, ◌*◌, ◌/◌, ◌%◌, ◌^◌, Bool, true, false, Option, none, some, List, [], ◌∷◌,
  ◌++◌, ◌&&◌, not, leb, ltb, ◌==◌, if◌then◌else◌,
}
use os.PageFrame.{PageFrameContainer, page_size, allocate_run, free}
use os.BarClaim.{DeviceId, grow}

pub data DmaDirection : Type 0 where
  bidirectional to_device from_device : DmaDirection

pub record DmaAllocationRecord : Type 0 where
  pub active : Bool
  pub owner : DeviceId
  pub direction : DmaDirection
  pub coherent : Bool
  pub page_count : ℕ
  pub physical_base : ℕ
  pub size_bytes : ℕ

-- `virtual_address` is `physical_address` seen through the direct map and is left out.
pub record DmaBuffer : Type 0 where
  pub owner : DeviceId
  pub physical_address : ℕ
  pub size_bytes : ℕ
  pub page_count : ℕ
  pub direction : DmaDirection
  pub coherent : Bool
  pub active : Bool

-- `DmaBuffer{}`, with 0 for `DeviceBus::Platform`.
abbrev pub empty_buffer : DmaBuffer
empty_buffer = record {
  owner = record { bus = 0; index = 0 };
  physical_address = 0;
  size_bytes = 0;
  page_count = 0;
  direction = DmaDirection.bidirectional;
  coherent = true;
  active = false;
}

pub record DmaAllocationRegistry : Type 0 where
  pub cache : Bool
  pub allocations : List DmaAllocationRecord
  pub snapshot_capacity : ℕ
  pub count : ℕ

-- Which allocations succeed: `kmem_cache_create`, `kcalloc`, `kmem_cache_alloc`.
pub record Heap : Type 0 where
  pub cache_created : Bool
  pub array : Bool
  pub node : Bool

-- What the functions change: the pages, the registry and the bytes of physical memory.
pub record DmaState : Type 0 where
  pub frames : PageFrameContainer
  pub registry : DmaAllocationRegistry
  pub bytes : ℕ → ℕ

-- `bytes_to_pages(size_bytes)`, cast to 32 bits.
unfoldable pub bytes_to_pages : ℕ → ℕ
bytes_to_pages size_bytes = (size_bytes + page_size - 1) % 2 ^ 64 / page_size % 2 ^ 32

unfoldable pub ensure_dma_allocation_cache :
    DmaAllocationRegistry → Heap → DmaAllocationRegistry × Bool
ensure_dma_allocation_cache r heap =
    if r.cache then (r, true) else (record r { cache = heap.cache_created }, heap.cache_created)

-- The loop that doubles the capacity is the one of the PCI BAR registry.
unfoldable pub ensure_snapshot_capacity :
    DmaAllocationRegistry → Heap → ℕ → DmaAllocationRegistry × Bool
ensure_snapshot_capacity r heap required_capacity =
    if leb required_capacity r.snapshot_capacity
    then (r, true)
    else if not heap.array
    then (r, false)
    else (
      record r {
        snapshot_capacity =
            grow required_capacity (if r.snapshot_capacity == 0 then 4 else r.snapshot_capacity)
              required_capacity;
      },
      true,
    )

-- `find_allocation_locked(physical_base)`
unfoldable pub find_allocation_locked : List DmaAllocationRecord → ℕ → Option DmaAllocationRecord
find_allocation_locked [] physical_base = none
find_allocation_locked (found ∷ rest) physical_base =
    if found.physical_base == physical_base
    then some found
    else find_allocation_locked rest physical_base

-- `unlink_allocation_locked` at the node that `find_allocation_locked` returns.
unfoldable pub unlink_allocation : List DmaAllocationRecord → ℕ → List DmaAllocationRecord
unlink_allocation [] physical_base = []
unlink_allocation (found ∷ rest) physical_base =
    if found.physical_base == physical_base
    then rest
    else found ∷ unlink_allocation rest physical_base

-- `free_buffer_pages(frames, physical_address, page_count)`, from `page` on with `r` pages left.
unfoldable pub free_buffer_pages : PageFrameContainer → ℕ → ℕ → ℕ → PageFrameContainer
free_buffer_pages frames physical_address page zero = frames
free_buffer_pages frames physical_address page (suc r) =
    free_buffer_pages (free frames ((physical_address + page * page_size) % 2 ^ 64)).0
      physical_address (page + 1) r

-- `dma_registry_reset()`
unfoldable pub dma_registry_reset : DmaAllocationRegistry → DmaAllocationRegistry
dma_registry_reset r = record { cache = false; allocations = []; snapshot_capacity = 0; count = 0 }

-- `memset(virtual_address, 0, page_count * kPageSize)`
abbrev pub zeroed : (ℕ → ℕ) → ℕ → ℕ → ℕ → ℕ
zeroed bytes physical page_count p =
    if leb physical p && ltb p (physical + page_count * page_size) then 0 else bytes p

abbrev pub new_record : DeviceId → ℕ → DmaDirection → ℕ → ℕ → DmaAllocationRecord
new_record owner size_bytes direction page_count physical = record {
  active = true;
  owner = owner;
  direction = direction;
  coherent = true;
  page_count = page_count;
  physical_base = physical;
  size_bytes = size_bytes;
}

abbrev pub new_buffer : DeviceId → ℕ → DmaDirection → ℕ → ℕ → DmaBuffer
new_buffer owner size_bytes direction page_count physical = record {
  owner = owner;
  physical_address = physical;
  size_bytes = size_bytes;
  page_count = page_count;
  direction = direction;
  coherent = true;
  active = true;
}

-- The second critical section: the node of the pages at `physical`.
abbrev pub register_buffer :
    DmaState → Heap → DeviceId → ℕ → DmaDirection → ℕ → ℕ → DmaState × Option DmaBuffer
register_buffer s heap owner size_bytes direction page_count physical =
    if not heap.node
    then (record s { frames = free_buffer_pages s.frames physical 0 page_count }, none)
    else (
      record s {
        registry = record s.registry {
          allocations =
              s.registry.allocations
              ++ new_record owner size_bytes direction page_count physical ∷ [];
          count = (s.registry.count + 1) % 2 ^ 64;
        };
      },
      some (new_buffer owner size_bytes direction page_count physical),
    )

-- What follows `frames.allocate(physical, page_count)`.
abbrev pub pages_taken :
    DmaState
    → Heap
    → DeviceId
    → ℕ
    → DmaDirection
    → ℕ
    → PageFrameContainer × Option ℕ
    → DmaState × Option DmaBuffer
pages_taken s heap owner size_bytes direction page_count (frames, none) =
    (record s { frames = frames }, none)
pages_taken s heap owner size_bytes direction page_count (frames, some physical) =
    register_buffer (record s { frames = frames; bytes = zeroed s.bytes physical page_count }) heap
      owner size_bytes direction page_count physical

abbrev pub allocate_pages :
    DmaState → Heap → DeviceId → ℕ → DmaDirection → DmaState × Option DmaBuffer
allocate_pages s heap owner size_bytes direction =
    let page_count = bytes_to_pages size_bytes in
    if page_count == 0
    then (s, none)
    else pages_taken s heap owner size_bytes direction page_count (allocate_run s.frames page_count)

-- `dma_allocate_buffer(frames, owner, size_bytes, direction, buffer)`; `none` is false with the
-- empty buffer.
unfoldable pub dma_allocate_buffer :
    DmaState → Heap → DeviceId → ℕ → DmaDirection → DmaState × Option DmaBuffer
dma_allocate_buffer s heap owner size_bytes direction =
    if size_bytes == 0
    then (s, none)
    else let (r1, fits) =
        ensure_snapshot_capacity s.registry heap ((s.registry.count + 1) % 2 ^ 64) in
      let (r2, cached) = ensure_dma_allocation_cache r1 heap in
      if not fits
      then (record s { registry = r1 }, none)
      else if not cached
      then (record s { registry = r2 }, none)
      else allocate_pages (record s { registry = r2 }) heap owner size_bytes direction

-- The critical section of `dma_release_buffer`.
unfoldable pub forget_allocation : DmaAllocationRegistry → ℕ → DmaAllocationRegistry
forget_allocation r physical_base = elim (find_allocation_locked r.allocations physical_base) [
  | none ↦ r
  | some found ↦ record r {
    allocations = unlink_allocation r.allocations physical_base;
    count = (r.count + 2 ^ 64 - 1) % 2 ^ 64;
  }
]

-- `dma_release_buffer(frames, buffer)`, with the buffer that it leaves.
unfoldable pub dma_release_buffer : DmaState → DmaBuffer → DmaState × DmaBuffer
dma_release_buffer s buffer = if not buffer.active then (s, buffer) else (
  record s {
    registry = forget_allocation s.registry buffer.physical_address;
    frames = free_buffer_pages s.frames buffer.physical_address 0 buffer.page_count;
  },
  empty_buffer,
)

-- `dma_allocation_records()`: the snapshot.
unfoldable pub dma_allocation_records : DmaAllocationRegistry → Option (List DmaAllocationRecord)
dma_allocation_records r = if r.count == 0 then none else some r.allocations
