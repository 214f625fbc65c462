-- ===== src/VirtualMemory/Ranges.antt =====
-- The other operations of src/kernel/mm/virtual_memory.cpp on ranges of pages and on whole tables:
-- large pages, allocation, protection, release and teardown.
pub mod Teardown
pub mod Destroy
pub mod Slots
pub mod Loop
pub mod Protect
pub mod Outcomes
use os.Base.{
  ℕ, zero, suc, ◌+◌, ◌-◌, ◌*◌, ◌/◌, ◌%◌, ◌^◌, Bool, true, false, Option, none, some, [], ◌∷◌, ◌||◌,
  not, leb, ◌==◌, if◌then◌else◌,
}
use os.PageFrame.{PageFrameContainer, page_size, allocate, free}
use os.VirtualMemory.{
  VirtualMemory, PageFlags, entry_page, page_index, flags_to_entry, with_present, write_entry,
  zero_page, ensure_root, create_tables, walk_to_leaf, store_leaf, map_physical,
}

-- `attach(root)`
unfoldable pub attach : VirtualMemory → ℕ → VirtualMemory
attach v root = record v { root = root; initialized = not (root == 2 ^ 64 - 1) }

abbrev pub large_page_size : ℕ
large_page_size = 2 ^ 21

abbrev pub large_stored : VirtualMemory × Option ℕ → ℕ → ℕ → PageFlags → VirtualMemory × Bool
large_stored (v, none) virtual_address physical_address flags = (v, false)
large_stored (v, some t) virtual_address physical_address flags = (
  record v {
    table = write_entry v.table t (page_index virtual_address 21) (
        physical_address / large_page_size % 2 ^ 31 * large_page_size
        + flags_to_entry (with_present flags)
        + 128);
  },
  true,
)

abbrev pub map_large_from : VirtualMemory × Bool → ℕ → ℕ → PageFlags → VirtualMemory × Bool
map_large_from (v, false) virtual_address physical_address flags = (v, false)
map_large_from (v, true) virtual_address physical_address flags =
    large_stored
      (create_tables v flags.user (v.root / page_size)
        (page_index virtual_address 39 ∷ page_index virtual_address 30 ∷ []))
      virtual_address physical_address flags

-- The loop of `map_physical_2m`.
unfoldable pub map_large_pages : VirtualMemory → ℕ → ℕ → PageFlags → ℕ → ℕ → VirtualMemory × Bool
map_large_pages v virtual_address physical_address flags zero i = (v, true)
map_large_pages v virtual_address physical_address flags (suc r) i =
    let (v1, mapped) =
      map_large_from (ensure_root v) ((virtual_address + i * large_page_size) % 2 ^ 64)
        ((physical_address + i * large_page_size) % 2 ^ 64) flags in
    let rest = map_large_pages v1 virtual_address physical_address flags r (i + 1) in
    if mapped then rest else (v1, false)

-- `map_physical_2m(virtual_address, physical_address, num_pages, flags)`
unfoldable pub map_physical_2m : VirtualMemory → ℕ → ℕ → ℕ → PageFlags → VirtualMemory × Bool
map_physical_2m v virtual_address physical_address num_pages flags =
    if (num_pages == 0)
      || not (virtual_address % large_page_size == 0)
      || not (physical_address % large_page_size == 0)
    then (v, false)
    else map_large_pages v virtual_address physical_address flags num_pages 0

-- One round of the loop of `allocate_and_map`, with the page that it allocates.
abbrev pub allocated_mapped :
    VirtualMemory → PageFrameContainer × Option ℕ → ℕ → PageFlags → VirtualMemory × Option ℕ
allocated_mapped v (frames, none) virtual_address flags = (record v { frames = frames }, none)
allocated_mapped v (frames, some physical_page) virtual_address flags =
    let (v1, mapped) =
      map_physical
        (record v { frames = frames; table = zero_page v.table (physical_page / page_size) })
        virtual_address physical_page 1 (with_present flags) in
    (v1, if mapped then some physical_page else none)

-- The loop of `allocate_and_map`; `first_page` is the local of that name.
unfoldable pub allocate_pages : VirtualMemory → ℕ → PageFlags → ℕ → ℕ → ℕ → VirtualMemory × Option ℕ
allocate_pages v virtual_address flags first_page zero i = (v, some first_page)
allocate_pages v virtual_address flags first_page (suc r) i =
    let (v1, page) =
      allocated_mapped v (allocate v.frames) ((virtual_address + i * page_size) % 2 ^ 64) flags in
    elim page [
      | none ↦ (v1, none)
      | some physical_page ↦
          allocate_pages v1 virtual_address flags (if i == 0 then physical_page else first_page) r
            (i + 1)
    ]

-- `allocate_and_map(virtual_address, num_pages, flags, &first_physical)`: the first page where the
-- function returns true.
unfoldable pub allocate_and_map : VirtualMemory → ℕ → ℕ → PageFlags → VirtualMemory × Option ℕ
allocate_and_map v virtual_address num_pages flags =
    if (num_pages == 0) || not (virtual_address % page_size == 0)
    then (v, none)
    else allocate_pages v virtual_address flags 0 num_pages 0

abbrev pub page_protected : VirtualMemory × Option ℕ → ℕ → PageFlags → VirtualMemory × Bool
page_protected (v, none) virtual_address flags = (v, false)
page_protected (v, some t) virtual_address flags =
    let e = v.table t (page_index virtual_address 12) in
    if e == 0 then (v, false) else (
      store_leaf v t virtual_address
          (entry_page e * page_size + flags_to_entry (with_present flags)),
      true,
    )

-- One round of the loop of `protect`.
unfoldable pub protect_page : VirtualMemory → ℕ → PageFlags → VirtualMemory × Bool
protect_page v virtual_address flags =
    page_protected (walk_to_leaf v virtual_address false false) virtual_address flags

abbrev pub page_released : VirtualMemory × Option ℕ → ℕ → VirtualMemory × Bool
page_released (v, none) virtual_address = (v, false)
page_released (v, some t) virtual_address =
    let e = v.table t (page_index virtual_address 12) in
    if e == 0 then (v, false) else (
      store_leaf (record v { frames = (free v.frames (entry_page e * page_size)).0 }) t
          virtual_address 0,
      true,
    )

-- One round of the loop of `free(start_address, num_pages)`.
unfoldable pub release_page : VirtualMemory → ℕ → VirtualMemory × Bool
release_page v virtual_address =
    page_released (walk_to_leaf v virtual_address false false) virtual_address

-- The loops of `protect` and `free`: `r` pages are left, from page `i` on.
unfoldable pub each_page :
    (VirtualMemory → ℕ → VirtualMemory × Bool) → VirtualMemory → ℕ → ℕ → ℕ → VirtualMemory × Bool
each_page f v virtual_address zero i = (v, true)
each_page f v virtual_address (suc r) i =
    let (v1, done) = f v ((virtual_address + i * page_size) % 2 ^ 64) in
    let rest = each_page f v1 virtual_address r (i + 1) in if done then rest else (v1, false)

-- `protect(virtual_address, num_pages, flags)`
unfoldable pub protect : VirtualMemory → ℕ → ℕ → PageFlags → VirtualMemory × Bool
protect v virtual_address num_pages flags =
    if (num_pages == 0) || not (virtual_address % page_size == 0)
    then (v, false)
    else each_page (λ w a. protect_page w a flags) v virtual_address num_pages 0

-- `free(start_address, num_pages)`
unfoldable pub free_range : VirtualMemory → ℕ → ℕ → VirtualMemory × Bool
free_range v start_address num_pages =
    if (num_pages == 0) || not (start_address % page_size == 0)
    then (v, false)
    else each_page release_page v start_address num_pages 0

abbrev pub kernel_pml4_index : ℕ
kernel_pml4_index = 0xffffffff80000000 / 2 ^ 39 % 512

abbrev pub direct_map_pml4_index : ℕ
direct_map_pml4_index = 0xffff800000000000 / 2 ^ 39 % 512

abbrev pub cloned : VirtualMemory × Bool → ℕ → VirtualMemory × Bool
cloned (v, false) source_root = (v, false)
cloned (v, true) source_root =
    let target = v.root / page_size in
    let source = source_root / page_size in
    let kernel = write_entry v.table target kernel_pml4_index (v.table source kernel_pml4_index) in
    (
      record v {
        table =
            write_entry kernel target direct_map_pml4_index (kernel source direct_map_pml4_index);
      },
      true,
    )

-- `clone_kernel_mappings(source_root)`
unfoldable pub clone_kernel_mappings : VirtualMemory → ℕ → VirtualMemory × Bool
clone_kernel_mappings v source_root = cloned (ensure_root v) source_root

-- `frames_.free(entry & kEntryAddressMask); entry = 0` for the word `i` of page `p`.
abbrev pub free_word : VirtualMemory → ℕ → ℕ → VirtualMemory
free_word v p i = record v {
  frames = (free v.frames (entry_page (v.table p i) * page_size)).0;
  table = write_entry v.table p i 0;
}

-- A loop over the words `i` to `i + r - 1` of page `p` that calls `f` for those that are not 0.
unfoldable pub each_word :
    (VirtualMemory → ℕ → VirtualMemory) → VirtualMemory → ℕ → ℕ → ℕ → VirtualMemory
each_word f v p zero i = v
each_word f v p (suc r) i =
    each_word f (elim (v.table p i == 0) [ true ↦ v | false ↦ f v i ]) p r (i + 1)

-- The branch of `destroy_table` for a level of at most 1.
abbrev pub destroy_last : Bool → VirtualMemory → ℕ → ℕ → VirtualMemory
destroy_last free_leaf_pages v p i =
    let table = entry_page (v.table p i) in
    if v.table p i == 0
    then v
    else free_word
        (if free_leaf_pages then each_word (λ w j. free_word w table j) v table 512 0 else v) p i

-- `destroy_table(entry, level, free_leaf_pages)`, where the entry is the word `i` of page `p`.
unfoldable pub destroy_table : ℕ → Bool → VirtualMemory → ℕ → ℕ → VirtualMemory
destroy_table zero free_leaf_pages v p i = destroy_last free_leaf_pages v p i
destroy_table (suc zero) free_leaf_pages v p i = destroy_last free_leaf_pages v p i
destroy_table (suc (suc level)) free_leaf_pages v p i =
    let table = entry_page (v.table p i) in
    elim (v.table p i == 0) [
      | true ↦ v
      | false ↦
          free_word
            (each_word (λ w j. destroy_table (suc level) free_leaf_pages w table j) v table 512 0) p
            i
    ]

-- `destroy_user_slot(slot)`
unfoldable pub destroy_user_slot : VirtualMemory → ℕ → VirtualMemory × Bool
destroy_user_slot v slot =
    if not v.initialized || leb 512 slot
    then (v, false)
    else (destroy_table 4 true v (v.root / page_size) slot, true)

abbrev pub root_freed : VirtualMemory → VirtualMemory
root_freed v = record v {
  frames = (free v.frames v.root).0;
  root = 2 ^ 64 - 1;
  initialized = false;
}

-- `free()`
unfoldable pub free_all : VirtualMemory → VirtualMemory × Bool
free_all v = (
  if v.initialized
      then root_freed (
          each_word (λ w i. destroy_table 4 true w (v.root / page_size) i) v (v.root / page_size)
            512 0)
      else v,
  true,
)
