-- ===== src/PageFrame/Initialize/Tests.antt =====
-- `initialize` at a small memory map.
use os.Base.{ℕ, ◌<◌, ◌≡◌, refl, Bool, none, some, true, false, List, [], ◌∷◌, arith}
use os.PageFrame.{PageFrameContainer}
use os.PageFrame.Inv.{WellFormed}
use os.PageFrame.Initialize.{
  BootMemoryRegion, usable, reserved, initialize, measure, build, mark_reserved, mark_busy_range,
  mark_busy_loop,
}
use os.PageFrame.Initialize.Usable.{IsUsablePage}
use os.PageFrame.Initialize.Marking.{IsUnreserved}
use os.PageFrame.Initialize.Ready.{initialize_lem, initialize_returns}

abbrev blank : PageFrameContainer
blank = record {
  memory_size = 0;
  memory_end_address = 0;
  page_count = 0;
  free_page_count = 0;
  bitmap = λ i. true;
  bitmap_physical_address = 0;
  bitmap_size = 0;
  bitmap_limit = 0;
  initialized = false;
}

-- 1 MiB of usable memory behind 256 KiB of firmware.
abbrev memory_map : List BootMemoryRegion
memory_map =
    record { physical_start = 0; length = 0x40000; type = reserved }
    ∷ record { physical_start = 0x40000; length = 0x100000; type = usable }
    ∷ []

abbrev outcome : PageFrameContainer × Bool
outcome = elim (initialize 0x60000 0x80000 blank memory_map 0x100000 512) [
  | none ↦ (blank, false)
  | some r ↦ r
]

outcome_true : initialize 0x60000 0x80000 blank memory_map 0x100000 512 ≡ some (outcome.0, true)
unfolding initialize build mark_reserved mark_busy_range mark_busy_loop measure
outcome_true = refl

initialize_lem_example :
    WellFormed outcome.0
    × (outcome.0.initialized ≡ true)
    × ((i : ℕ)
        → i < outcome.0.page_count
        → outcome.0.bitmap i ≡ true
        → IsUsablePage memory_map i × IsUnreserved 0x60000 0x80000 0x100000 512 i)
initialize_lem_example =
    initialize_lem 0x60000 0x80000 blank memory_map 0x100000 512 outcome.0 (omega arith)
      outcome_true

initialize_returns_example :
    (r : PageFrameContainer × Bool) × (initialize 0x60000 0x80000 blank memory_map 0x100000 512
      ≡ some r)
initialize_returns_example =
    initialize_returns 0x60000 0x80000 blank memory_map 0x100000 512 (omega arith) (omega arith)
