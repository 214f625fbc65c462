-- ===== src/PageFrame/Initialize/Ready.antt =====
-- What a successful `initialize` leaves behind.
use os.Base.{
  ℕ, ◌+◌, ◌*◌, ◌/◌, ◌^◌, ◌≤◌, ◌<◌, ◌≡◌, refl, ◌⊎◌, inl, inr, true, false, arith, List, ◌&&◌, ltb,
  leb, Bool-cases, ◌∙◌, sym, false≢true, Option, some, some_inj, subst, ap, Bool, ◌>>=◌, >>=-some,
}
use os.Bitmap.{Bitmap}
use os.PageFrame.{PageFrameContainer, page_size}
use os.PageFrame.Inv.{WellFormed}
use os.PageFrame.Initialize.{
  BootMemoryRegion, Measured, measure, max_trackable_end, paint, clear_words, count_words, build,
  initialize, mark_reserved,
}
use os.PageFrame.Initialize.Measure.{paint_lem, in_some_region, in_some_region-lt, measure-lt}
use os.PageFrame.Initialize.Count.{count_words_lem}
use os.PageFrame.Initialize.Marking.{
  IsUnreserved, bitmap_end, mark_reserved-Narrowed, mark_reserved_returns,
}
use os.PageFrame.Initialize.Usable.{FitsMemory, IsUsablePage, in_some_region-IsUsablePage}

-- The container just before the reserved ranges are marked.
counted : PageFrameContainer → List BootMemoryRegion → PageFrameContainer
counted c regions =
    let painted = paint c.memory_end_address (clear_words c.bitmap c.bitmap_size) regions in
    record c {
      bitmap = painted;
      free_page_count =
          (count_words painted c.page_count 0 c.bitmap_size
            (record { num_pages = 0; ipage = 0 })).num_pages;
    }

clear_lem : (bm : Bitmap) (n i : ℕ) → i < 64 * n → clear_words bm n i ≡ false
unfolding clear_words
clear_lem bm n i h = ground arith

module _ (c : PageFrameContainer) (regions : List BootMemoryRegion)
    (pages : c.page_count ≡ c.memory_end_address / page_size)
    (size : c.bitmap_size ≡ ((c.page_count + 7) / 8 + 7) / 8)
    (bound : c.memory_end_address < 2 ^ 64) where
  painted_lem :
      (i : ℕ)
      → i < 64 * c.bitmap_size
      → paint c.memory_end_address (clear_words c.bitmap c.bitmap_size) regions i
        ≡ in_some_region c.memory_end_address regions i
  painted_lem i h =
      paint_lem c.memory_end_address (clear_words c.bitmap c.bitmap_size) regions i
      ∙ rw (clear_lem c.bitmap c.bitmap_size i h)

  tail_lem :
      (i : ℕ)
      → c.page_count ≤ i
      → i < 64 * c.bitmap_size
      → paint c.memory_end_address (clear_words c.bitmap c.bitmap_size) regions i ≡ false
  tail_lem i h k = elim (Bool-cases (in_some_region c.memory_end_address regions i)) [
    | inr e ↦ painted_lem i k ∙ e
    | inl e ↦ absurd (omega (arith, in_some_region-lt c.memory_end_address regions i e, pages))
  ]

  covers_lem : c.page_count ≤ 64 * c.bitmap_size
  covers_lem = omega arith

  counted-WellFormed : WellFormed (counted c regions)
  unfolding counted
  counted-WellFormed = record {
    count_exact =
        count_words_lem (paint c.memory_end_address (clear_words c.bitmap c.bitmap_size) regions)
          c.page_count c.bitmap_size tail_lem covers_lem;
    tail_busy = tail_lem;
    covers = covers_lem;
    small = omega arith;
  }

  module _ (kernel_start kernel_end : ℕ) where
    build_lem :
        {c' : PageFrameContainer}
        → FitsMemory regions
        → build kernel_start kernel_end c regions ≡ some c'
        → WellFormed c'
          × (c'.initialized ≡ true)
          × ((i : ℕ)
              → i < c'.page_count
              → c'.bitmap i ≡ true
              → IsUsablePage regions i
                × IsUnreserved kernel_start kernel_end c.bitmap_physical_address c.bitmap_limit i)
    unfolding build counted
    build_lem fits returned =
        let (marked, r, e) =
          >>=-some (mark_reserved kernel_start kernel_end (counted c regions)) _ returned in
        subst IsReady (some_inj e) (from marked r)
      where
        IsReady : PageFrameContainer → Type 0
        IsReady c' =
            WellFormed c'
            × (c'.initialized ≡ true)
            × ((i : ℕ)
                → i < c'.page_count
                → c'.bitmap i ≡ true
                → IsUsablePage regions i
                  × IsUnreserved kernel_start kernel_end c.bitmap_physical_address c.bitmap_limit i)

        from :
            (marked : PageFrameContainer)
            → mark_reserved kernel_start kernel_end (counted c regions) ≡ some marked
            → IsReady (record marked { initialized = true })
        from marked r =
            let m =
              mark_reserved-Narrowed kernel_start kernel_end (counted c regions) counted-WellFormed
                r in
            (
              record {
                count_exact = m.0.well.count_exact;
                tail_busy = m.0.well.tail_busy;
                covers = m.0.well.covers;
                small = m.0.well.small;
              },
              refl,
              λ i t h.
                  let below : i < c.page_count = omega (arith, m.0.same_pages) in
                  let painted = m.0.fewer i h in
                  (
                    in_some_region-IsUsablePage c.memory_end_address regions i fits
                        (sym (painted_lem i (omega (arith, covers_lem))) ∙ painted),
                    m.1 i below h,
                  ),
            )

abbrev switched_on : PageFrameContainer → Option PageFrameContainer
switched_on marked = some (record marked { initialized = true })

abbrev measured : List BootMemoryRegion → ℕ → Measured
measured regions bitmap_limit =
    measure (max_trackable_end bitmap_limit) (record { memory_size = 0; memory_end_address = 0 })
      regions

-- The container as `initialize` hands it to the loops over the bitmap.
abbrev sized : PageFrameContainer → List BootMemoryRegion → ℕ → ℕ → PageFrameContainer
sized c regions bitmap_address bitmap_limit =
    let m = measured regions bitmap_limit in
    record c {
      memory_size = m.memory_size;
      memory_end_address = m.memory_end_address;
      bitmap_physical_address = bitmap_address;
      bitmap_limit = bitmap_limit;
      page_count = m.memory_end_address / page_size;
      bitmap_size = ((m.memory_end_address / page_size + 7) / 8 + 7) / 8;
    }

module _ (kernel_start kernel_end : ℕ) where
  abbrev Ending : PageFrameContainer → List BootMemoryRegion → ℕ → ℕ → Type 0
  Ending c regions address limit =
      ((c' : PageFrameContainer) × (initialize kernel_start kernel_end c regions address limit
          ≡ some (c', false)))
      ⊎ (initialize kernel_start kernel_end c regions address limit ≡ (
          build kernel_start kernel_end (sized c regions address limit) regions >>= λ built.
          some (built, true)))

  initialize_cases :
      (c : PageFrameContainer) (regions : List BootMemoryRegion) (address limit : ℕ)
      → Ending c regions address limit
  unfolding initialize
  initialize_cases c regions address limit =
      let m = measured regions limit in
      elim (Bool-cases c.initialized) [
        | inl e ↦ inl (c, simp e)
        | inr e ↦ elim (Bool-cases (ltb 0 m.memory_size && ltb 0 m.memory_end_address)) [
          | inr z ↦ inl (
            record c {
              memory_size = m.memory_size;
              memory_end_address = m.memory_end_address;
              bitmap_physical_address = address;
              bitmap_limit = limit;
            },
            simp (e, z),
          )
          | inl z ↦ elim (Bool-cases (leb (sized c regions address limit).bitmap_size limit)) [
            | inr f ↦ inl (sized c regions address limit, simp (e, z, f))
            | inl f ↦ inr (simp (e, z, f))
          ]
        ]
      ]

  -- Where `initialize` returns true, on a memory map whose regions fit in 64 bits, the allocator is
  -- well formed and initialized, and every page that it counts as free lies inside one usable region
  -- of the map, outside the bitmap's storage, the early low memory and the kernel's own range.
  pub initialize_lem :
      (c : PageFrameContainer) (regions : List BootMemoryRegion) (bitmap_address bitmap_limit : ℕ)
      (c' : PageFrameContainer)
      → FitsMemory regions
      → initialize kernel_start kernel_end c regions bitmap_address bitmap_limit ≡ some (c', true)
      → WellFormed c'
        × (c'.initialized ≡ true)
        × ((i : ℕ)
            → i < c'.page_count
            → c'.bitmap i ≡ true
            → IsUsablePage regions i
              × IsUnreserved kernel_start kernel_end bitmap_address bitmap_limit i)
  initialize_lem c regions bitmap_address bitmap_limit c' fits h =
      elim (initialize_cases c regions bitmap_address bitmap_limit) [
        | inl (d, e) ↦ absurd (false≢true (ap (λ r. r.1) (some_inj (sym e ∙ h))))
        | inr e ↦
            let (built, r, same) =
              >>=-some
                (build kernel_start kernel_end (sized c regions bitmap_address bitmap_limit)
                  regions)
                _ (sym e ∙ h) in
            build_lem (sized c regions bitmap_address bitmap_limit) regions refl refl
              (measure-lt (max_trackable_end bitmap_limit) _ regions (omega arith)) kernel_start
              kernel_end fits (r ∙ ap (λ x. some x.0) (some_inj same))
      ]

  -- Where the storage of the bitmap and the kernel's range end at least a page before 2^64,
  -- `initialize` returns: none of its loops wraps around and goes on for ever.
  pub initialize_returns :
      (c : PageFrameContainer) (regions : List BootMemoryRegion) (bitmap_address bitmap_limit : ℕ)
      → bitmap_end bitmap_address bitmap_limit + page_size ≤ 2 ^ 64
      → kernel_end + page_size ≤ 2 ^ 64
      → (r : PageFrameContainer × Bool) × (initialize kernel_start kernel_end c regions
            bitmap_address bitmap_limit
          ≡ some r)
  unfolding build counted
  initialize_returns c regions bitmap_address bitmap_limit low_bitmap low_kernel =
      elim (initialize_cases c regions bitmap_address bitmap_limit) [
        | inl (d, e) ↦ ((d, false), e)
        | inr e ↦
            let ready = counted (sized c regions bitmap_address bitmap_limit) regions in
            let (marked, r) =
              mark_reserved_returns kernel_start kernel_end ready low_bitmap low_kernel in
            (
              (record marked { initialized = true }, true),
              e
                  ∙ ap
                      (λ (o : Option PageFrameContainer).
                        o >>= switched_on >>= λ built. some (built, true))
                      r,
            )
      ]
