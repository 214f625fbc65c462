-- ===== src/VirtualMemory.antt =====
-- Four-level page tables: src/kernel/mm/virtual_memory.cpp over the page-frame allocator. `table p i`
-- is the 64-bit word `i` of the physical page `p`, which `kernel_physical_pointer` reaches. Writing to
-- CR3 and the TLB shootdown of other CPUs act on hardware and are left out.
pub mod Tree
pub mod Ensure
pub mod Grow
pub mod Walk
pub mod Store
pub mod Map
pub mod MapLoop
pub mod Translate
pub mod Root
pub mod Ranges
pub mod Tests
use os.Base.{
  ℕ, zero, suc, ◌+◌, ◌*◌, ◌/◌, ◌%◌, ◌^◌, Bool, true, false, Option, none, some, List, [], ◌∷◌, ◌||◌,
  not, update, ◌==◌, if◌then◌else◌,
}
use os.PageFrame.{PageFrameContainer, page_size, allocate}

abbrev pub Tables : Type 0
Tables = ℕ → ℕ → ℕ

pub record PageFlags : Type 0 where
  pub present : Bool
  pub write : Bool
  pub user : Bool
  pub no_execute : Bool

pub record VirtualMemory : Type 0 where
  pub frames : PageFrameContainer
  pub table : Tables
  pub root : ℕ
  pub initialized : Bool

-- `kEntryAddressMask`, as the number of the page that the entry names.
abbrev pub entry_page : ℕ → ℕ
entry_page e = e / page_size % 2 ^ 40

-- `entry & ~kEntryAddressMask`
abbrev pub entry_flags : ℕ → ℕ
entry_flags e = e % page_size + e / 2 ^ 52 * 2 ^ 52

abbrev pub page_index : ℕ → ℕ → ℕ
page_index virtual_address shift = virtual_address / 2 ^ shift % 512

abbrev pub bit_value : Bool → ℕ → ℕ
bit_value b n = if b then n else 0

abbrev pub flags_to_entry : PageFlags → ℕ
flags_to_entry f =
    bit_value f.present 1
    + bit_value f.write 2
    + bit_value f.user 4
    + bit_value f.no_execute (2 ^ 63)

-- `flags | PageFlags::Present`
abbrev pub with_present : PageFlags → PageFlags
with_present f = record f { present = true }

abbrev pub table_entry_flags : Bool → ℕ
table_entry_flags user_visible = 3 + bit_value user_visible 4

-- `memsetq(kernel_physical_pointer<void>(page), 0, kPageSize)`
abbrev pub zero_page : Tables → ℕ → Tables
zero_page table p = update table p (λ i. 0)

abbrev pub write_entry : Tables → ℕ → ℕ → ℕ → Tables
write_entry table p i e = update table p (update (table p) i e)

-- `entry |= PageFlags::User`
abbrev pub with_user : ℕ → ℕ
with_user e = if e / 4 % 2 == 1 then e else e + 4

abbrev pub root_allocated : VirtualMemory → PageFrameContainer × Option ℕ → VirtualMemory × Bool
root_allocated v (frames, none) = (record v { frames = frames }, false)
root_allocated v (frames, some address) = (
  record {
    frames = frames;
    table = zero_page v.table (address / page_size);
    root = address;
    initialized = true;
  },
  true,
)

-- `ensure_root()`
unfoldable pub ensure_root : VirtualMemory → VirtualMemory × Bool
ensure_root v = if v.initialized then (v, true) else root_allocated v (allocate v.frames)

-- The new table of `ensure_table_entry` for the entry `i` of table `p`.
abbrev pub table_allocated :
    VirtualMemory → ℕ → ℕ → Bool → PageFrameContainer × Option ℕ → VirtualMemory × Bool
table_allocated v p i user_visible (frames, none) = (record v { frames = frames }, false)
table_allocated v p i user_visible (frames, some address) = (
  record v {
    frames = frames;
    table =
        write_entry (zero_page v.table (address / page_size)) p i
          (entry_page address * page_size + table_entry_flags user_visible);
  },
  true,
)

-- `ensure_table_entry(entry, user_visible)`
unfoldable pub ensure_table_entry : VirtualMemory → ℕ → ℕ → Bool → VirtualMemory × Bool
ensure_table_entry v p i user_visible =
    if v.table p i == 0 then table_allocated v p i user_visible (allocate v.frames) else (
      if user_visible
          then record v { table = write_entry v.table p i (with_user (v.table p i)) }
          else v,
      true,
    )

-- The steps of `walk_to_leaf` with `create`, from table `p` on, one for each index.
unfoldable pub create_tables : VirtualMemory → Bool → ℕ → List ℕ → VirtualMemory × Option ℕ
create_tables v user_visible p [] = (v, some p)
create_tables v user_visible p (i ∷ is) =
    let (v1, made) = ensure_table_entry v p i user_visible in
    let rest = create_tables v1 user_visible (entry_page (v1.table p i)) is in
    if made then rest else (v1, none)

-- The steps of `walk_to_leaf` without `create`.
unfoldable pub find_table : Tables → ℕ → List ℕ → Option ℕ
find_table table p [] = some p
find_table table p (i ∷ is) =
    let rest = find_table table (entry_page (table p i)) is in if table p i == 0 then none else rest

-- The indices into the upper three tables.
abbrev pub path_of : ℕ → List ℕ
path_of virtual_address =
    page_index virtual_address 39
    ∷ page_index virtual_address 30
    ∷ page_index virtual_address 21
    ∷ []

abbrev pub walk_from : VirtualMemory × Bool → ℕ → Bool → Bool → VirtualMemory × Option ℕ
walk_from (v, false) virtual_address create user_visible = (v, none)
walk_from (v, true) virtual_address create user_visible =
    if create
    then create_tables v user_visible (v.root / page_size) (path_of virtual_address)
    else (v, find_table v.table (v.root / page_size) (path_of virtual_address))

-- `walk_to_leaf(virtual_address, create, user_visible, &leaf_entry)`: the leaf entry is word
-- `page_index virtual_address 12` of the table returned.
unfoldable pub walk_to_leaf : VirtualMemory → ℕ → Bool → Bool → VirtualMemory × Option ℕ
walk_to_leaf v virtual_address create user_visible =
    walk_from (ensure_root v) virtual_address create user_visible

abbrev pub store_leaf : VirtualMemory → ℕ → ℕ → ℕ → VirtualMemory
store_leaf v t virtual_address e = record v {
  table = write_entry v.table t (page_index virtual_address 12) e;
}

abbrev pub leaf_stored : VirtualMemory × Option ℕ → ℕ → ℕ → PageFlags → VirtualMemory × Bool
leaf_stored (v, none) virtual_address physical_address flags = (v, false)
leaf_stored (v, some t) virtual_address physical_address flags = (
  store_leaf v t virtual_address
      (entry_page physical_address * page_size + flags_to_entry (with_present flags)),
  true,
)

-- One round of the loop of `map_physical`.
unfoldable pub map_page : VirtualMemory → ℕ → ℕ → PageFlags → VirtualMemory × Bool
map_page v virtual_address physical_address flags =
    leaf_stored (walk_to_leaf v virtual_address true flags.user) virtual_address physical_address
      flags

-- The loop of `map_physical`: `r` pages are left, from page `i` on.
unfoldable pub map_pages : VirtualMemory → ℕ → ℕ → PageFlags → ℕ → ℕ → VirtualMemory × Bool
map_pages v virtual_address physical_address flags zero i = (v, true)
map_pages v virtual_address physical_address flags (suc r) i =
    let (v1, mapped) =
      map_page v ((virtual_address + i * page_size) % 2 ^ 64)
        ((physical_address + i * page_size) % 2 ^ 64) flags in
    let rest = map_pages v1 virtual_address physical_address flags r (i + 1) in
    if mapped then rest else (v1, false)

-- `map_physical(virtual_address, physical_address, num_pages, flags)`
unfoldable pub map_physical : VirtualMemory → ℕ → ℕ → ℕ → PageFlags → VirtualMemory × Bool
map_physical v virtual_address physical_address num_pages flags =
    if (num_pages == 0)
      || not (virtual_address % page_size == 0)
      || not (physical_address % page_size == 0)
    then (v, false)
    else map_pages v virtual_address physical_address flags num_pages 0

abbrev pub translate_leaf : ℕ → ℕ → Option (ℕ × ℕ)
translate_leaf e virtual_address =
    if e == 0
    then none
    else some (entry_page e * page_size + virtual_address % page_size, entry_flags e)

-- The end of `translate`, with the entry of the second lowest table: a page of 2 MiB, or a table.
abbrev pub translate_second : Tables → ℕ → ℕ → Option (ℕ × ℕ)
translate_second table e virtual_address =
    if e == 0
    then none
    else if e / 128 % 2 == 1
    then some
        (e / 2 ^ 21 % 2 ^ 31 * 2 ^ 21 + virtual_address % 2 ^ 21, e % 2 ^ 21 + e / 2 ^ 52 * 2 ^ 52)
    else translate_leaf (table (entry_page e) (page_index virtual_address 12)) virtual_address

-- `translate(virtual_address, physical_address, flags)`
unfoldable pub translate : VirtualMemory → ℕ → Option (ℕ × ℕ)
translate v virtual_address =
    if not v.initialized
    then none
    else elim (find_table v.table (v.root / page_size)
        (page_index virtual_address 39 ∷ page_index virtual_address 30 ∷ [])) [
          | none ↦ none
          | some p ↦
              translate_second v.table (v.table p (page_index virtual_address 21)) virtual_address
        ]
