-- ===== src/PageFrame/Run.antt =====
-- `allocate(uint64_t& address, unsigned count)`, against the first run of free pages.
use os.Base.{
  ℕ, zero, suc, ◌+◌, ◌-◌, ◌*◌, ◌≤◌, ◌<◌, ◌≡◌, refl, ◌⊎◌, inl, inr, true, false, Option, none, some,
  arith, Bool-cases, dec_lt, if◌then◌else◌, ◌==◌, sym, ◌∙◌, ap, subst,
}
use os.Bitmap.{Bitmap, index_split, count_below, fill, fill_above, count_below-fill}
use os.PageFrame.{PageFrameContainer, page_size, scan_run, allocate_run}
use os.PageFrame.Inv.{WellFormed, page_address-small, set_busy_range-fill}

-- Every page of `s`, ..., `s + n - 1` is free.
abbrev pub IsRun : Bitmap → ℕ → ℕ → Type 0
IsRun bm s n = (j : ℕ) → s ≤ j → j < s + n → bm j ≡ true

-- One of these pages is not free.
abbrev pub IsBlocked : Bitmap → ℕ → ℕ → Type 0
IsBlocked bm s n = (j : ℕ) × (s ≤ j) × (j < s + n) × (bm j ≡ false)

module _ (bm : Bitmap) (page_count count : ℕ) where
  -- What the scan must return: the first run of free pages, or nothing if there is none.
  abbrev FirstRun : Option ℕ → Type 0
  FirstRun none = (s : ℕ) → s + count ≤ page_count → IsBlocked bm s count
  FirstRun (some start) =
      (start + count ≤ page_count)
      × IsRun bm start count
      × ((s : ℕ) → s < start → IsBlocked bm s count)

  -- `run_start` in the loop: `page_count` while no run is open, else where the open run starts.
  abbrev Opened : ℕ → ℕ → ℕ → Type 0
  Opened i run_start cur = ((run_start ≡ page_count) × (cur ≡ i)) ⊎ ((run_start ≡ cur) × (cur < i))

  start_lem :
      (i run_start cur : ℕ)
      → i < page_count
      → Opened i run_start cur
      → (if run_start == page_count then i else run_start) ≡ cur
  start_lem i run_start cur h o = ground arith

  scan_run_busy :
      (r i run_start : ℕ)
      → bm i ≡ false
      → scan_run bm page_count count (suc r) i run_start
        ≡ scan_run bm page_count count r (i + 1) page_count
  unfolding scan_run
  scan_run_busy r i run_start e = rw (index_split i, e, scan_run)

  scan_run_free :
      (r i run_start cur : ℕ)
      → bm i ≡ true
      → i < page_count
      → Opened i run_start cur
      → scan_run bm page_count count (suc r) i run_start
        ≡ (if i - cur + 1 == count then some cur else scan_run bm page_count count r (i + 1) cur)
  unfolding scan_run
  scan_run_free r i run_start cur e h o =
      rw (index_split i, e, start_lem i run_start cur h o, scan_run)

  scan_run_lem :
      (r i run_start cur : ℕ)
      → 0 < count
      → i + r ≡ page_count
      → cur ≤ i
      → i < cur + count
      → ((j : ℕ) → cur ≤ j → j < i → bm j ≡ true)
      → ((s : ℕ) → s < cur → IsBlocked bm s count)
      → Opened i run_start cur
      → FirstRun (scan_run bm page_count count r i run_start)
  unfolding scan_run
  scan_run_lem zero i run_start cur pos e le lt free blocked o = λ s h. blocked s (omega arith)
  scan_run_lem (suc r) i run_start cur pos e le lt free blocked o = elim (Bool-cases (bm i)) [
    | inr busy ↦ subst FirstRun (sym (scan_run_busy r i run_start busy)) (
        scan_run_lem r (i + 1) page_count (i + 1) pos (omega arith) (omega arith) (omega arith)
          (λ j p q. absurd (omega arith)) (stop busy) (inl (refl, refl)))
    | inl open_page ↦
        subst FirstRun (sym (scan_run_free r i run_start cur open_page (omega arith) o))
          (elim (Bool-cases (i - cur + 1 == count)) [
            | inl full ↦
                rw full (ground arith, λ j p q. extend open_page j p (ground arith), blocked)
            | inr more ↦ rw more (
                scan_run_lem r (i + 1) cur cur pos (omega arith) (omega arith) (ground arith)
                  (extend open_page) blocked (inr (refl, omega arith)))
          ])
  ]
    where
      extend : bm i ≡ true → (j : ℕ) → cur ≤ j → j < i + 1 → bm j ≡ true
      extend h j p q = elim (dec_lt j i) [ yes l ↦ free j p l | no l ↦ ap bm (omega arith) ∙ h ]

      stop : bm i ≡ false → (s : ℕ) → s < i + 1 → IsBlocked bm s count
      stop h s p = elim (dec_lt s cur) [
        | yes l ↦ blocked s l
        | no l ↦ (i, omega arith, omega arith, h)
      ]

  scan_run-FirstRun : 0 < count → FirstRun (scan_run bm page_count count page_count 0 page_count)
  scan_run-FirstRun pos =
      scan_run_lem page_count 0 page_count 0 pos (omega arith) (omega arith) (omega arith)
        (λ j p q. absurd (omega arith)) (λ s p. absurd (omega arith)) (inl (refl, refl))

-- The container after the pages `start`, ..., `start + count - 1` were handed out.
abbrev pub taken_run : PageFrameContainer → ℕ → ℕ → PageFrameContainer
taken_run c start count = record c {
  bitmap = fill c.bitmap start count false;
  free_page_count = c.free_page_count - count;
}

-- `start` is the lowest page that begins a run of `count` free pages.
pub record IsFirstRun (c : PageFrameContainer) (count start : ℕ) : Type 0 where
  pub in_range : start + count ≤ c.page_count
  pub run_free : IsRun c.bitmap start count
  pub earlier_blocked : (s : ℕ) → s < start → IsBlocked c.bitmap s count
  pub counted : count ≤ c.free_page_count

-- On a well-formed, initialized allocator and for `count > 0`, `allocate(address, count)` either
-- returns false, changes nothing and no run of `count` free pages exists, or it returns the
-- address of the first such run, clears exactly its bits and takes exactly `count` from the
-- counter.
pub allocate_run_lem :
    {c : PageFrameContainer} (count : ℕ)
    → WellFormed c
    → c.initialized ≡ true
    → 0 < count
    → ((allocate_run c count ≡ (c, none))
        × ((s : ℕ) → s + count ≤ c.page_count → IsBlocked c.bitmap s count))
      ⊎ ((start : ℕ) × IsFirstRun c count start
          × (allocate_run c count ≡ (taken_run c start count, some (start * page_size))))
unfolding allocate_run
allocate_run_lem {c} count w e pos =
    go (scan_run c.bitmap c.page_count count c.page_count 0 c.page_count) refl
      (scan_run-FirstRun c.bitmap c.page_count count pos)
  where
    go :
        (o : Option ℕ)
        → scan_run c.bitmap c.page_count count c.page_count 0 c.page_count ≡ o
        → FirstRun c.bitmap c.page_count count o
        → ((allocate_run c count ≡ (c, none))
            × ((s : ℕ) → s + count ≤ c.page_count → IsBlocked c.bitmap s count))
          ⊎ ((start : ℕ) × IsFirstRun c count start
              × (allocate_run c count ≡ (taken_run c start count, some (start * page_size))))
    go none s f = inl (rw (e, ne_zero, s), f)
      where
        ne_zero : (count == 0) ≡ false
        ne_zero = ground arith
    go (some start) s f = inr (start, run, eq)
      where
        lost :
            count_below (fill c.bitmap start count false) c.page_count + count
            ≡ count_below c.bitmap c.page_count
        lost = count_below-fill c.bitmap c.page_count start count f.0 f.1

        run : IsFirstRun c count start
        run = record {
          in_range = f.0;
          run_free = f.1;
          earlier_blocked = f.2;
          counted = omega (arith, lost, w.count_exact);
        }

        below : start < c.page_count
        below = omega (arith, f.0)

        eq : allocate_run c count ≡ (taken_run c start count, some (start * page_size))
        eq =
            rw (e, s, set_busy_range-fill c.bitmap start count, page_address-small w below)
              (ground (arith, run.counted))

pub taken_run-WellFormed :
    {c : PageFrameContainer} {count start : ℕ}
    → WellFormed c
    → IsFirstRun c count start
    → WellFormed (taken_run c start count)
taken_run-WellFormed {c} {count} {start} w l = record {
  count_exact = omega (
    arith,
    count_below-fill c.bitmap c.page_count start count l.in_range l.run_free,
    w.count_exact,
    l.counted,
  );
  tail_busy = λ i h k.
      fill_above c.bitmap start count false i (omega (arith, l.in_range)) ∙ w.tail_busy i h k;
  covers = w.covers;
  small = w.small;
}

-- On an initialized allocator and for `count > 0`, `allocate(address, count)` keeps the
-- allocator well formed, whether it finds a run or not.
pub allocate_run-WellFormed :
    {c : PageFrameContainer} (count : ℕ)
    → WellFormed c
    → c.initialized ≡ true
    → 0 < count
    → WellFormed (allocate_run c count).0
allocate_run-WellFormed {c} count w e pos = elim (allocate_run_lem count w e pos) [
  | inl (r, _) ↦ rw r w
  | inr (p, l, r) ↦ rw r (taken_run-WellFormed w l)
]
