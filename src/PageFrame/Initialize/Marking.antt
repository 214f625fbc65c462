-- ===== src/PageFrame/Initialize/Marking.antt =====
-- The loops of `initialize` that take the reserved pages out of the bitmap.
use os.Base.{
  ℕ, zero, suc, ◌+◌, ◌*◌, ◌/◌, ◌%◌, ◌^◌, ◌≤◌, ◌<◌, ◌≡◌, refl, inl, inr, true, false, arith, ◌&&◌,
  ltb, Bool-cases, ◌∙◌, ap, sym, false≢true, dec_lt, some, none-ne-some, some_inj, subst, ◌>>=◌,
  >>=-some,
}
use os.Bitmap.{count_below-clear, index_split}
use os.PageFrame.{PageFrameContainer, page_size, is_free, set_busy}
use os.PageFrame.Inv.{WellFormed}
use os.PageFrame.Initialize.{
  mark_busy_counted, mark_busy_loop, mark_busy_range, mark_reserved, early_reserved_physical_end,
}

-- `c'` differs from `c` only by more busy pages, counted.
pub record Narrowed (c c' : PageFrameContainer) : Type 0 where
  pub well : WellFormed c'
  pub fewer : (i : ℕ) → c'.bitmap i ≡ true → c.bitmap i ≡ true
  pub same_pages : c'.page_count ≡ c.page_count

Narrowed-refl : {c : PageFrameContainer} → WellFormed c → Narrowed c c
Narrowed-refl w = record { well = w; fewer = λ i h. h; same_pages = refl }

Narrowed-trans : {c d f : PageFrameContainer} → Narrowed c d → Narrowed d f → Narrowed c f
Narrowed-trans a b = record {
  well = b.well;
  fewer = λ i h. a.fewer i (b.fewer i h);
  same_pages = b.same_pages ∙ a.same_pages;
}

mark-Narrowed :
    (c : PageFrameContainer) (i : ℕ)
    → WellFormed c
    → Narrowed c (mark_busy_counted c i)
      × (i < c.page_count → (mark_busy_counted c i).bitmap i ≡ false)
unfolding mark_busy_counted is_free set_busy
mark-Narrowed c i w = elim (Bool-cases (ltb i c.page_count && c.bitmap i)) [
  | inr e ↦ rw (index_split i, e) (Narrowed-refl w, λ h. ground arith)
  | inl e ↦
      rw (index_split i, e)
        (
          record {
            well = record {
              count_exact = ground (
                arith,
                count_below-clear c.bitmap c.page_count i (ground arith) (ground arith),
                w.count_exact,
              );
              tail_busy = λ j p q. ground (arith, w.tail_busy j);
              covers = w.covers;
              small = w.small;
            };
            fewer = λ j h. ground arith;
            same_pages = refl;
          },
          λ h. ground arith,
        )
]

-- A tracked page that `mark_busy_range from to` passes over.
abbrev pub IsMarked : ℕ → ℕ → ℕ → Type 0
IsMarked from to i = (from / page_size ≤ i) × (i * page_size + from % page_size < to)

mark_loop-Narrowed :
    (fuel : ℕ) (c : PageFrameContainer) (vp to : ℕ) {c' : PageFrameContainer}
    → WellFormed c
    → mark_busy_loop fuel c vp to ≡ some c'
    → Narrowed c c' × ((i : ℕ) → IsMarked vp to i → i < c.page_count → c'.bitmap i ≡ true → ⊥)
unfolding mark_busy_loop
mark_loop-Narrowed zero c vp to w returned = absurd (none-ne-some returned)
mark_loop-Narrowed (suc fuel) c vp to {c'} w returned = elim (Bool-cases (ltb vp to)) [
  | inr e ↦
      let same : c ≡ c' = some_inj (sym (rw (e, mark_busy_loop) refl) ∙ returned) in
      subst
        (λ f.
          Narrowed c f × ((i : ℕ) → IsMarked vp to i → i < c.page_count → f.bitmap i ≡ true → ⊥))
        same (Narrowed-refl w, λ i m t h. absurd (ground arith))
  | inl e ↦
      let one = mark-Narrowed c (vp / page_size) w in
      let rest =
        mark_loop-Narrowed fuel (mark_busy_counted c (vp / page_size)) ((vp + page_size) % 2 ^ 64)
          to one.0.well (sym (rw (e, mark_busy_loop) refl) ∙ returned) in
      (
        Narrowed-trans one.0 rest.0,
        λ i m t h. elim (dec_lt (vp / page_size) i) [
          | yes later ↦ rest.1 i (omega arith, omega arith) (omega (arith, one.0.same_pages)) h
          | no here ↦ stays one rest.0 i (omega arith) t h
        ],
      )
]
  where
    stays :
        {f : PageFrameContainer}
        → Narrowed c (mark_busy_counted c (vp / page_size))
          × (vp / page_size < c.page_count
              → (mark_busy_counted c (vp / page_size)).bitmap (vp / page_size) ≡ false)
        → Narrowed (mark_busy_counted c (vp / page_size)) f
        → (i : ℕ) → i ≡ vp / page_size
        → i < c.page_count
        → f.bitmap i ≡ true
        → ⊥
    stays one rest i e t h = false≢true (
        sym (one.1 (omega arith))
        ∙ ap (mark_busy_counted c (vp / page_size)).bitmap (sym e)
        ∙ rest.fewer i h)

mark_range-Narrowed :
    (c : PageFrameContainer) (from to : ℕ) {c' : PageFrameContainer}
    → WellFormed c
    → mark_busy_range c from to ≡ some c'
    → Narrowed c c' × ((i : ℕ) → IsMarked from to i → i < c.page_count → c'.bitmap i ≡ true → ⊥)
unfolding mark_busy_range
mark_range-Narrowed c from to w returned =
    mark_loop-Narrowed (suc (to / page_size + 1)) c from to w returned

mark_loop_returns :
    (fuel : ℕ) (c : PageFrameContainer) (vp to : ℕ)
    → to + page_size ≤ 2 ^ 64
    → to / page_size + 1 ≤ fuel + vp / page_size
    → (c' : PageFrameContainer) × (mark_busy_loop (suc fuel) c vp to ≡ some c')
unfolding mark_busy_loop
mark_loop_returns zero c vp to low enough = elim (Bool-cases (ltb vp to)) [
  | inr e ↦ (c, rw (e, mark_busy_loop) refl)
  | inl e ↦ absurd (ground (arith, enough))
]
mark_loop_returns (suc fuel) c vp to low enough = elim (Bool-cases (ltb vp to)) [
  | inr e ↦ (c, rw (e, mark_busy_loop) refl)
  | inl e ↦
      let (c', r) =
        mark_loop_returns fuel (mark_busy_counted c (vp / page_size)) ((vp + page_size) % 2 ^ 64) to
          low (ground arith) in
      (c', rw (e, mark_busy_loop) r)
]

-- The loop ends, and never wraps, where the range ends a page before the end of 64 bits.
mark_range_returns :
    (c : PageFrameContainer) (from to : ℕ)
    → to + page_size ≤ 2 ^ 64
    → (c' : PageFrameContainer) × (mark_busy_range c from to ≡ some c')
unfolding mark_busy_range
mark_range_returns c from to low =
    mark_loop_returns (to / page_size + 1) c from to low (omega arith)

-- One byte past the bitmap's own storage.
abbrev pub bitmap_end : ℕ → ℕ → ℕ
bitmap_end address limit = (address + (limit * 8) % 2 ^ 64) % 2 ^ 64

module _ (kernel_start kernel_end : ℕ) where
  -- No page that the kernel or the bitmap occupies.
  abbrev pub IsUnreserved : ℕ → ℕ → ℕ → Type 0
  IsUnreserved address limit i =
      (¬ IsMarked address (bitmap_end address limit) i)
      × (¬ IsMarked 0 early_reserved_physical_end i)
      × (¬ IsMarked kernel_start kernel_end i)

  pub mark_reserved-Narrowed :
      (c : PageFrameContainer) {c' : PageFrameContainer}
      → WellFormed c
      → mark_reserved kernel_start kernel_end c ≡ some c'
      → Narrowed c c'
        × ((i : ℕ)
            → i < c.page_count
            → c'.bitmap i ≡ true
            → IsUnreserved c.bitmap_physical_address c.bitmap_limit i)
  unfolding mark_reserved
  mark_reserved-Narrowed c w returned =
      let top = bitmap_end c.bitmap_physical_address c.bitmap_limit in
      let (c1, r1, s1) = >>=-some (mark_busy_range c c.bitmap_physical_address top) _ returned in
      let (c2, r2, r3) = >>=-some (mark_busy_range c1 0 early_reserved_physical_end) _ s1 in
      let a = mark_range-Narrowed c c.bitmap_physical_address top w r1 in
      let b = mark_range-Narrowed c1 0 early_reserved_physical_end a.0.well r2 in
      let k = mark_range-Narrowed c2 kernel_start kernel_end b.0.well r3 in
      (
        Narrowed-trans a.0 (Narrowed-trans b.0 k.0),
        λ i t h. (
          λ m. a.1 i m t (b.0.fewer i (k.0.fewer i h)),
          λ m. b.1 i m (omega (arith, a.0.same_pages)) (k.0.fewer i h),
          λ m. k.1 i m (omega (arith, a.0.same_pages, b.0.same_pages)) h,
        ),
      )

  pub mark_reserved_returns :
      (c : PageFrameContainer)
      → bitmap_end c.bitmap_physical_address c.bitmap_limit + page_size ≤ 2 ^ 64
      → kernel_end + page_size ≤ 2 ^ 64
      → (c' : PageFrameContainer) × (mark_reserved kernel_start kernel_end c ≡ some c')
  unfolding mark_reserved
  mark_reserved_returns c low_bitmap low_kernel =
      let top = bitmap_end c.bitmap_physical_address c.bitmap_limit in
      let (c1, r1) = mark_range_returns c c.bitmap_physical_address top low_bitmap in
      let (c2, r2) = mark_range_returns c1 0 early_reserved_physical_end (omega arith) in
      let (c3, r3) = mark_range_returns c2 kernel_start kernel_end low_kernel in
      (
        c3,
        ap
              (λ o. o >>= λ d. mark_busy_range d 0 early_reserved_physical_end >>= λ f.
                mark_busy_range f kernel_start kernel_end)
              r1
            ∙ ap (λ o. o >>= λ f. mark_busy_range f kernel_start kernel_end) r2
            ∙ r3,
      )
