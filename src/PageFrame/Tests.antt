-- ===== src/PageFrame/Tests.antt =====
-- The page-frame theorems at concrete allocators.
use os.Base.{
  ℕ, ◌+◌, ◌*◌, ◌≤◌, ◌<◌, ◌≡◌, refl, ◌⊎◌, true, false, none, some, ◌||◌, ◌&&◌, leb, ltb, arith,
}
use os.Bitmap.{Bitmap, count_below}
use os.PageFrame.{PageFrameContainer, page_size, allocate, allocate_run, reserve_range}
use os.PageFrame.Inv.{WellFormed}
use os.PageFrame.Single.{allocate_lem, IsLowest, taken}
use os.PageFrame.Run.{allocate_run_lem, IsFirstRun, IsBlocked, taken_run}
use os.PageFrame.Reserve.{reserve_range_wraps}

-- 70 pages; the pages 3 and 5 to 9 are free.
abbrev free_pages : Bitmap
free_pages i = (leb 3 i && ltb i 4) || (leb 5 i && ltb i 10)

abbrev small : PageFrameContainer
small = record {
  memory_size = 0x46000;
  memory_end_address = 0x46000;
  page_count = 70;
  free_page_count = 6;
  bitmap = free_pages;
  bitmap_physical_address = 0x1000;
  bitmap_size = 2;
  bitmap_limit = 2;
  initialized = true;
}

small-WellFormed : WellFormed small
unfolding count_below
small-WellFormed = record {
  count_exact = refl;
  tail_busy = λ i h k. ground arith;
  covers = omega arith;
  small = omega arith;
}

allocate_small : (allocate small).1 ≡ some 0x3000
unfolding allocate
allocate_small = refl

allocate_run_small : (allocate_run small 4).1 ≡ some 0x5000
unfolding allocate_run
allocate_run_small = refl

allocate_lem_example :
    ((allocate small ≡ (small, none)) × ((i : ℕ) → i < 70 → free_pages i ≡ false))
    ⊎ ((p : ℕ) × IsLowest small p × (allocate small ≡ (taken small p, some (p * page_size))))
allocate_lem_example = allocate_lem small-WellFormed refl

allocate_run_lem_example :
    ((allocate_run small 4 ≡ (small, none)) × ((s : ℕ) → s + 4 ≤ 70 → IsBlocked free_pages s 4))
    ⊎ ((start : ℕ) × IsFirstRun small 4 start
        × (allocate_run small 4 ≡ (taken_run small start 4, some (start * page_size))))
allocate_run_lem_example = allocate_run_lem 4 small-WellFormed refl (omega arith)

reserve_range_wraps_example : reserve_range small 0x3000 (0xffffffffffffe000) ≡ (small, true)
reserve_range_wraps_example =
    reserve_range_wraps small 0x3000 (0xffffffffffffe000) refl (omega arith) (omega arith)
      (omega arith) (omega arith)
