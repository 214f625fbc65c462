-- ===== src/Dma/Inv.antt =====
-- What the operations on DMA buffers rely on and keep.
use os.Base.{
  ℕ, ◌+◌, ◌-◌, ◌*◌, ◌%◌, ◌^◌, ◌≤◌, ◌<◌, ◌≡◌, ◌⊎◌, inl, inr, Bool, true, false, some, List, [], ◌∷◌,
  ◌++◌, length, length-append, All, All-map, All-append, arith, ◌∙◌, sym, subst, dec_lt,
}
use os.Bitmap.{Bitmap, fill, fill_in, fill_out, fill_above}
use os.PageFrame.{PageFrameContainer, page_size}
use os.PageFrame.Inv as Frames
use os.PageFrame.Run.{IsFirstRun, taken_run, taken_run-WellFormed}
use os.Dma.{DmaAllocationRecord, DmaAllocationRegistry, unlink_allocation, find_allocation_locked}
use os.Dma.Pages.{given_back, given_back-WellFormed}
use os.Dma.Records.{
  IsHeld, Apart, AllApart, first_page, runs_apart, AllApart-append, unlink_allocation-All,
  unlink_allocation-AllApart, unlink_allocation-Apart, find_allocation_locked-All,
}

-- The allocator is well formed and ready, the counter is the number of records, every record's pages
-- are handed out, and no two records share one.
pub record WellFormed (c : PageFrameContainer) (r : DmaAllocationRegistry) : Type 0 where
  pub pages : Frames.WellFormed c
  pub ready : c.initialized ≡ true
  pub counted : r.count ≡ length r.allocations
  pub held : All (IsHeld c) r.allocations
  pub apart : AllApart r.allocations

fill_busy : (bm : Bitmap) (s n j : ℕ) → bm j ≡ false → fill bm s n false j ≡ false
fill_busy bm s n j h = elim (dec_lt j s) [
  | yes l ↦ fill_out bm s n false j l ∙ h
  | no l ↦ elim (dec_lt j (s + n)) [
    | yes k ↦ fill_in bm s n false j (omega arith) k
    | no k ↦ fill_above bm s n false j (omega arith) ∙ h
  ]
]

taken_run-IsHeld :
    (c : PageFrameContainer) (start count : ℕ) (r : DmaAllocationRecord)
    → IsHeld c r
    → IsHeld (taken_run c start count) r
taken_run-IsHeld c start count r h = record {
  aligned = h.aligned;
  some_pages = h.some_pages;
  in_range = h.in_range;
  busy = λ j p q. fill_busy c.bitmap start count j (h.busy j p q);
}

-- A registry with one more record, for the run of pages that was just handed out.
pub registered-WellFormed :
    (c : PageFrameContainer) (r : DmaAllocationRegistry) (cache : Bool)
    (snapshot_capacity start : ℕ) (new : DmaAllocationRecord)
    → WellFormed c r
    → r.count + 1 < 2 ^ 64
    → 0 < new.page_count
    → new.physical_base ≡ start * page_size
    → IsFirstRun c new.page_count start
    → WellFormed (taken_run c start new.page_count) (record {
      cache = cache;
      allocations = r.allocations ++ new ∷ [];
      snapshot_capacity = snapshot_capacity;
      count = (r.count + 1) % 2 ^ 64;
    })
registered-WellFormed c r cache snapshot_capacity start new w small some_pages base run =
    let page : first_page new ≡ start = omega (arith, base) in
    record {
      pages = taken_run-WellFormed w.pages run;
      ready = w.ready;
      counted = omega (arith, w.counted, small, length-append r.allocations (new ∷ []));
      held =
          All-append (IsHeld (taken_run c start new.page_count)) r.allocations (new ∷ [])
            (All-map (IsHeld c) (IsHeld (taken_run c start new.page_count)) r.allocations
              (taken_run-IsHeld c start new.page_count) w.held)
            (
              record {
                aligned = omega (arith, base);
                some_pages = some_pages;
                in_range = omega (arith, page, run.in_range);
                busy = λ j p q.
                    fill_in c.bitmap start new.page_count false j (omega (arith, page, p))
                      (omega (arith, page, q));
              },
              tt,
            );
      apart = AllApart-append r.allocations new w.apart (
          All-map (IsHeld c) (λ x. Apart x new) r.allocations
            (λ x h.
              subst (λ t. (first_page x + x.page_count ≤ t) ⊎ (t + new.page_count ≤ first_page x))
                (sym page)
                (runs_apart c.bitmap (first_page x) x.page_count start new.page_count h.some_pages
                  some_pages h.busy run.run_free))
            w.held);
    }

given_back-IsHeld :
    (c : PageFrameContainer) (s n : ℕ) (r : DmaAllocationRecord)
    → (s + n ≤ first_page r) ⊎ (first_page r + r.page_count ≤ s)
    → IsHeld c r
    → IsHeld (given_back c s n) r
given_back-IsHeld c s n r a h = record {
  aligned = h.aligned;
  some_pages = h.some_pages;
  in_range = h.in_range;
  busy = λ j p q. outside j p q a ∙ h.busy j p q;
}
  where
    outside :
        (j : ℕ)
        → first_page r ≤ j
        → j < first_page r + r.page_count
        → (s + n ≤ first_page r) ⊎ (first_page r + r.page_count ≤ s)
        → fill c.bitmap s n true j ≡ c.bitmap j
    outside j p q (inl k) = fill_above c.bitmap s n true j (omega (arith, k, p))
    outside j p q (inr k) = fill_out c.bitmap s n true j (omega (arith, k, q))

given_back-AllHeld :
    (c : PageFrameContainer) (found : DmaAllocationRecord) (xs : List DmaAllocationRecord)
    → All (Apart found) xs
    → All (IsHeld c) xs
    → All (IsHeld (given_back c (first_page found) found.page_count)) xs
given_back-AllHeld c found [] a h = tt
given_back-AllHeld c found (x ∷ xs) (a, as_) (h, hs) = (
  given_back-IsHeld c (first_page found) found.page_count x a h,
  given_back-AllHeld c found xs as_ hs,
)

-- A registry without the record that is found, whose pages came back.
pub forgotten-WellFormed :
    (c : PageFrameContainer) (r : DmaAllocationRegistry) (physical_base : ℕ)
    (found : DmaAllocationRecord)
    → WellFormed c r
    → r.count < 2 ^ 64
    → find_allocation_locked r.allocations physical_base ≡ some found
    → WellFormed (given_back c (first_page found) found.page_count) (record r {
      allocations = unlink_allocation r.allocations physical_base;
      count = (r.count + 2 ^ 64 - 1) % 2 ^ 64;
    })
forgotten-WellFormed c r physical_base found w small e =
    let h = (find_allocation_locked-All physical_base (IsHeld c) r.allocations found w.held e).0 in
    let (others, shorter) = unlink_allocation-Apart physical_base r.allocations found w.apart e in
    record {
      pages = given_back-WellFormed c (first_page found) found.page_count w.pages h.in_range h.busy;
      ready = w.ready;
      counted = omega (arith, w.counted, small, shorter);
      held =
          given_back-AllHeld c found (unlink_allocation r.allocations physical_base) others
            (unlink_allocation-All physical_base (IsHeld c) r.allocations w.held);
      apart = unlink_allocation-AllApart physical_base r.allocations w.apart;
    }
