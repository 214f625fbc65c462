-- ===== src/PageFrame/Reserve.antt =====
-- `reserve_range(uint64_t address, uint64_t length)`.
use os.Base.{
  ℕ, zero, suc, ◌+◌, ◌-◌, ◌*◌, ◌/◌, ◌^◌, ◌≤◌, ◌<◌, ◌≡◌, refl, ◌⊎◌, inl, inr, true, false, some,
  arith, ltb, leb, ◌==◌, if◌then◌else◌, dec_lt, ap, ◌∙◌, sym, false≢true, Bool-cases, some_inj,
  none-ne-some, le→leb,
}
use os.Bitmap.{count_below-clear, index_split}
use os.PageFrame.{
  PageFrameContainer, page_size, reserve_page, reserve_pages, reserve_range, range_end_page,
  allocate,
}
use os.PageFrame.Inv.{WellFormed}
use os.PageFrame.Single.{allocate_lem, IsLowest}

-- `c'` is `c` with the tracked pages of `s`, ..., `s + n - 1` busy and nothing else changed.
pub record Reserved (c : PageFrameContainer) (s n : ℕ) (c' : PageFrameContainer) : Type 0 where
  pub well : WellFormed c'
  pub busy : (j : ℕ) → s ≤ j → j < s + n → j < c.page_count → c'.bitmap j ≡ false
  pub before : (j : ℕ) → j < s → c'.bitmap j ≡ c.bitmap j
  pub after : (j : ℕ) → s + n ≤ j → c'.bitmap j ≡ c.bitmap j
  pub same_pages : c'.page_count ≡ c.page_count
  pub same_init : c'.initialized ≡ c.initialized

reserve_page-Reserved :
    {c : PageFrameContainer} (i : ℕ)
    → WellFormed c
    → i < c.page_count
    → Reserved c i 1 (reserve_page c i)
unfolding reserve_page
reserve_page-Reserved {c} i w h = elim (Bool-cases (c.bitmap i)) [
  | inl e ↦
      rw (index_split i, e)
        (record {
          well = record {
            count_exact =
                ground (arith, count_below-clear c.bitmap c.page_count i h e, w.count_exact);
            tail_busy = λ j p q. ground (arith, w.tail_busy j);
            covers = w.covers;
            small = w.small;
          };
          busy = λ j p q r. ground arith;
          before = λ j p. ground arith;
          after = λ j p. ground arith;
          same_pages = refl;
          same_init = refl;
        })
  | inr e ↦
      rw (index_split i, e)
        (record {
          well = w;
          busy = λ j p q r. ap c.bitmap (omega arith) ∙ e;
          before = λ j p. refl;
          after = λ j p. refl;
          same_pages = refl;
          same_init = refl;
        })
]

Reserved-trans :
    {c d f : PageFrameContainer} (s n : ℕ)
    → Reserved c s 1 d
    → Reserved d (s + 1) n f
    → Reserved c s (suc n) f
Reserved-trans {c} {d} {f} s n a b = record {
  well = b.well;
  busy = λ j p q r. elim (dec_lt s j) [
    | yes l ↦ b.busy j (omega arith) (omega arith) (omega (arith, a.same_pages))
    | no l ↦ b.before j (omega arith) ∙ a.busy j p (omega arith) r
  ];
  before = λ j p. b.before j (omega arith) ∙ a.before j p;
  after = λ j p. b.after j (omega arith) ∙ a.after j (omega arith);
  same_pages = b.same_pages ∙ a.same_pages;
  same_init = b.same_init ∙ a.same_init;
}

Reserved-stop :
    {c : PageFrameContainer} (s n : ℕ)
    → WellFormed c
    → (n ≡ 0) ⊎ (c.page_count ≤ s)
    → Reserved c s n c
Reserved-stop {c} s n w h = record {
  well = w;
  busy = λ j p q r. absurd (omega (arith, h));
  before = λ j p. refl;
  after = λ j p. refl;
  same_pages = refl;
  same_init = refl;
}

reserve_pages-Reserved :
    (c : PageFrameContainer) (i r : ℕ) → WellFormed c → Reserved c i r (reserve_pages c i r).0
unfolding reserve_pages
reserve_pages-Reserved c i zero w = Reserved-stop i 0 w (inl refl)
reserve_pages-Reserved c i (suc r) w = elim (Bool-cases (ltb i c.page_count)) [
  | inl e ↦
      rw (e, reserve_pages)
        (let one = reserve_page-Reserved i w (ground arith) in
          Reserved-trans i r one (reserve_pages-Reserved (reserve_page c i) (i + 1) r one.well))
  | inr e ↦ rw (e, reserve_pages) (Reserved-stop i (suc r) w (inr (ground arith)))
]

-- The loop returns true exactly if it stays among the tracked pages.
reserve_pages-tracked :
    (c : PageFrameContainer) (i r : ℕ)
    → WellFormed c
    → (reserve_pages c i r).1 ≡ (if r == 0 then true else leb (i + r) c.page_count)
unfolding reserve_pages
reserve_pages-tracked c i zero w = refl
reserve_pages-tracked c i (suc r) w = elim (Bool-cases (ltb i c.page_count)) [
  | inl e ↦
      let one = reserve_page-Reserved i w (ground arith) in
      rw
        (
          e,
          reserve_pages,
          reserve_pages-tracked (reserve_page c i) (i + 1) r one.well,
          one.same_pages,
        )
        (ground arith)
  | inr e ↦ rw (e, reserve_pages) (ground arith)
]

-- On a well-formed, initialized allocator and for a range that is not empty and whose end fits
-- in 64 bits: after `reserve_range` every tracked page that the range touches is busy, no other
-- page changed, the counter is exact, and the result is true exactly if all of the range is
-- tracked.
pub reserve_range_lem :
    {c : PageFrameContainer} (address length : ℕ)
    → WellFormed c
    → c.initialized ≡ true
    → 0 < length
    → address + length + (page_size - 1) < 2 ^ 64
    → let start = address / page_size in
      let stop = (address + length + (page_size - 1)) / page_size in
      Reserved c start (stop - start) (reserve_range c address length).0
      × ((reserve_range c address length).1 ≡ leb stop c.page_count)
unfolding reserve_range
reserve_range_lem {c} address length w e pos fits =
    let start = address / page_size in
    let stop = (address + length + (page_size - 1)) / page_size in
    let end_page : range_end_page address length ≡ stop = ap (λ x. x / page_size) (omega arith) in
    let nonzero : (length == 0) ≡ false = ground arith in
    let later : leb stop start ≡ false = ground arith in
    simp (e, nonzero, end_page, later)
      (
        reserve_pages-Reserved c start (stop - start) w,
        reserve_pages-tracked c start (stop - start) w ∙ ground arith,
      )

-- On an initialized allocator, a range that is not empty, whose start and padded length fit in
-- 64 bits and whose padded end does not, is reported as reserved, and nothing is reserved.
pub reserve_range_wraps :
    (c : PageFrameContainer) (address length : ℕ)
    → c.initialized ≡ true
    → address < 2 ^ 64
    → 0 < length
    → length + (page_size - 1) < 2 ^ 64
    → 2 ^ 64 ≤ address + length + (page_size - 1)
    → reserve_range c address length ≡ (c, true)
unfolding reserve_range
reserve_range_wraps c address length e small pos short wraps =
    let nonzero : (length == 0) ≡ false = ground arith in
    let early : leb (range_end_page address length) (address / page_size) ≡ true =
      le→leb _ _ (omega arith) in
    simp (e, nonzero, early)

-- On a well-formed, initialized allocator and for a range that is not empty and whose end fits
-- in 64 bits: after `reserve_range`, `allocate` returns no page that the range touches.
pub allocate-reserve_range :
    {c c' : PageFrameContainer} (address length page : ℕ)
    → WellFormed c
    → c.initialized ≡ true
    → 0 < length
    → address + length + (page_size - 1) < 2 ^ 64
    → allocate (reserve_range c address length).0 ≡ (c', some page)
    → (page + page_size ≤ address) ⊎ (address + length ≤ page)
allocate-reserve_range {c} {c'} address length page w e pos fits h =
    elim (allocate_lem r.well (r.same_init ∙ e)) [
      | inl (q, _) ↦ absurd (none-ne-some (ap (λ x. x.1) (sym q ∙ h)))
      | inr (p, l, q) ↦ outside p l (some_inj (ap (λ x. x.1) (sym q ∙ h)))
    ]
  where
    r :
        Reserved c
          (address / page_size)
          ((address + length + (page_size - 1)) / page_size - address / page_size)
          (reserve_range c address length).0
    r = (reserve_range_lem address length w e pos fits).0

    outside :
        (p : ℕ)
        → IsLowest (reserve_range c address length).0 p
        → p * page_size ≡ page
        → (page + page_size ≤ address) ⊎ (address + length ≤ page)
    outside p l q = elim (dec_lt p (address / page_size)) [
      | yes below ↦ inl (omega arith)
      | no above ↦ elim (dec_lt p ((address + length + (page_size - 1)) / page_size)) [
        | yes inside ↦ absurd (
            false≢true (
              sym (r.busy p (omega arith) (omega arith) (omega (arith, l.in_range, r.same_pages)))
              ∙ l.free_before))
        | no after ↦ inr (omega arith)
      ]
    ]
