-- ===== src/VirtualMemory/Tests.antt =====
-- The virtual-memory theorems on an address space over 20 pages, of which the pages 1 to 19 are free.
use os.Base.{
  ℕ, ◌<◌, ◌≡◌, refl, ◌≢◌, ◌⊎◌, true, false, none, some, List, [], ◌∷◌, inl, inr, ◌&&◌, ◌==◌,
  if◌then◌else◌, leb, ltb, arith,
}
use os.Bitmap.{Bitmap, count_below}
use os.PageFrame.{PageFrameContainer, allocate, free}
use os.PageFrame.Inv.{WellFormed}
use os.PageFrame.Single.{IsLowest}
use os.VirtualMemory.{
  VirtualMemory, PageFlags, ensure_root, map_physical, translate, find_table, create_tables,
  ensure_table_entry, walk_to_leaf, map_page, map_pages,
}
use os.VirtualMemory.Tree.{IsTree}
use os.VirtualMemory.Store.{page_number}
use os.VirtualMemory.Translate.{map_physical_lem, MapOutcome}
use os.VirtualMemory.Root.{ensure_root_lem, RootOutcome, root-IsTree, made, root_only}
use os.VirtualMemory.Ranges.{protect, free_range, destroy_user_slot, destroy_table, each_word}
use os.VirtualMemory.Ranges.Slots.{destroy_table-data}
use os.VirtualMemory.Ranges.Teardown.{IsGone, Frees}
use os.VirtualMemory.Ranges.Outcomes.{protect_lem, free_range_lem, RangeOutcome, reflagged}

abbrev free_pages : Bitmap
free_pages i = leb 1 i && ltb i 20

abbrev container : PageFrameContainer
container = record {
  memory_size = 0x14000;
  memory_end_address = 0x14000;
  page_count = 20;
  free_page_count = 19;
  bitmap = free_pages;
  bitmap_physical_address = 0;
  bitmap_size = 1;
  bitmap_limit = 1;
  initialized = true;
}

container-WellFormed : WellFormed container
unfolding count_below
container-WellFormed = record {
  count_exact = refl;
  tail_busy = λ i h k. ground arith;
  covers = omega arith;
  small = omega arith;
}

abbrev fresh : VirtualMemory
fresh = record {
  frames = container;
  table = λ p i. 0;
  root = 0xffffffffffffffff;
  initialized = false;
}

abbrev user_flags : PageFlags
user_flags = record { present = true; write = true; user = true; no_execute = false }

first_free : IsLowest container 1
first_free = record {
  in_range = omega arith;
  free_before = refl;
  lower_busy = λ i h. ground arith;
  counted = omega arith;
}

abbrev blank : VirtualMemory
blank = made fresh container-WellFormed refl (omega arith) 1 first_free

abbrev blank_level : ℕ → ℕ
blank_level = root_only fresh container-WellFormed refl (omega arith) 1 first_free

blank-IsTree : IsTree blank blank_level (λ p. [])
blank-IsTree = root-IsTree fresh container-WellFormed refl (omega arith) 1 first_free

abbrev mapped : VirtualMemory
mapped = (map_physical blank 0x8000400000 0x7000 2 user_flags).0

mapped_address : translate mapped 0x8000401234 ≡ some (0x8234, 7)
unfolding map_physical map_pages map_page walk_to_leaf ensure_root create_tables ensure_table_entry
    allocate translate find_table
mapped_address = refl

ensure_root_lem_example : RootOutcome (ensure_root fresh)
ensure_root_lem_example = ensure_root_lem fresh refl container-WellFormed refl (omega arith)

map_physical_lem_example :
    MapOutcome blank 0x8000400000 0x7000 user_flags 2
      (map_physical blank 0x8000400000 0x7000 2 user_flags)
unfolding page_number
map_physical_lem_example =
    map_physical_lem blank-IsTree 0x8000400000 0x7000 2 user_flags (omega arith) refl refl
      (omega arith)

-- Pages 9 to 19 are free. The address 0x8000401000 is mapped to page 8, whose first word is 0x6000.
abbrev owned : PageFrameContainer
owned = record container { bitmap = λ i. leb 9 i && ltb i 20; free_page_count = 11 }

owned-WellFormed : WellFormed owned
unfolding count_below
owned-WellFormed = record {
  count_exact = refl;
  tail_busy = λ i h k. ground arith;
  covers = omega arith;
  small = omega arith;
}

abbrev words : ℕ → ℕ → ℕ
words p i =
    if (p == 1) && (i == 1)
    then 0x2007
    else if (p == 2) && (i == 0)
    then 0x3007
    else if (p == 3) && (i == 2)
    then 0x4007
    else if (p == 4) && (i == 1)
    then 0x8007
    else if (p == 8) && (i == 0)
    then 0x6000
    else 0

abbrev pub process : VirtualMemory
process = record { frames = owned; table = words; root = 0x1000; initialized = true }

translate_process : translate process 0x8000401010 ≡ some (0x8010, 7)
unfolding translate find_table
translate_process = refl

abbrev levels : ℕ → ℕ
levels p = if p == 1 then 4 else if p == 2 then 3 else if p == 3 then 2 else if p == 4 then 1 else 0

abbrev paths : ℕ → List ℕ
paths p =
    if p == 2 then 1 ∷ [] else if p == 3 then 0 ∷ 1 ∷ [] else if p == 4 then 2 ∷ 0 ∷ 1 ∷ [] else []

-- The tables of the process that hold other tables.
upper_words :
    (p i : ℕ)
    → 1 < levels p
    → words p i ≢ 0
    → ((p ≡ 1) × (i ≡ 1)) ⊎ (((p ≡ 2) × (i ≡ 0)) ⊎ ((p ≡ 3) × (i ≡ 2)))
upper_words p i l n = ground (arith, l, n)

process-IsTree : IsTree process levels paths
process-IsTree = record {
  ready = refl;
  root_level = refl;
  root_path = refl;
  child_level = λ p i x l n. elim (upper_words p i l n) [
    | inl (a, b) ↦ rw (a, b) refl
    | inr (inl (a, b)) ↦ rw (a, b) refl
    | inr (inr (a, b)) ↦ rw (a, b) refl
  ];
  child_path = λ p i x l n. elim (upper_words p i l n) [
    | inl (a, b) ↦ rw (a, b) refl
    | inr (inl (a, b)) ↦ rw (a, b) refl
    | inr (inr (a, b)) ↦ rw (a, b) refl
  ];
  small_pages = λ p i x l. ground (arith, l);
  free_pages = λ p h f. ground (arith, f);
  frames = owned-WellFormed;
  frames_ready = refl;
  addressable = omega arith;
}

protect_lem_example :
    RangeOutcome levels paths
      (reflagged user_flags)
      process
      0x8000401000
      1
      (protect process 0x8000401000 1 user_flags)
unfolding page_number
protect_lem_example =
    protect_lem process-IsTree 0x8000401000 1 user_flags (omega arith) refl (omega arith)

free_range_lem_example :
    RangeOutcome levels paths (λ t. none) process 0x8000401000 1 (free_range process 0x8000401000 1)
    × Frees process (free_range process 0x8000401000 1).0
unfolding page_number find_table
free_range_lem_example =
    free_range_lem process-IsTree 0x8000401000 1 (omega arith) refl (omega arith)
      (λ i h. let e : i ≡ 0 = omega (arith, h) in rw e refl)

destroy_table-data_example : IsGone (destroy_table 1 true process 4 1) 6
destroy_table-data_example =
    destroy_table-data process 4 1 0 owned-WellFormed refl (λ e. omega (arith, e)) (omega arith)
      (λ e. omega (arith, e))

-- Page 6 is busy and no entry of the slot names it.
destroy_user_slot_frees_page : (destroy_user_slot process 1).0.frames.bitmap 6 ≡ true
unfolding destroy_user_slot destroy_table each_word free
destroy_user_slot_frees_page = refl
