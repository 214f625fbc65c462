-- ===== src/PageFrame/Release.antt =====
-- `free(uint64_t address)`, and how it meets the two `allocate` methods.
use os.Base.{
  ℕ, ◌+◌, ◌-◌, ◌*◌, ◌/◌, ◌%◌, ◌<◌, ◌≡◌, ◌⊎◌, inl, inr, Bool, true, false, some, arith, update,
  update_self, fun_ext, ap, ◌∙◌, sym, subst, some_inj, none-ne-some,
}
use os.Bitmap.{Bitmap, count_below-set, index_split}
use os.PageFrame.{PageFrameContainer, page_size, allocate, free}
use os.PageFrame.Inv.{WellFormed, set_free-update}
use os.PageFrame.Single.{allocate_lem, IsLowest, taken}

-- The container after page `p` came back.
abbrev pub returned : PageFrameContainer → ℕ → PageFrameContainer
returned c p = record c { bitmap = update c.bitmap p true; free_page_count = c.free_page_count + 1 }

-- An address that `free` accepts: aligned, of a tracked page, and that page is busy.
abbrev pub IsReleasable : PageFrameContainer → ℕ → Type 0
IsReleasable c address =
    (address % page_size ≡ 0)
    × (address / page_size < c.page_count)
    × (c.bitmap (address / page_size) ≡ false)

-- `free` accepts the releasable addresses.
pub free_accepts :
    (c : PageFrameContainer) (address : ℕ)
    → c.initialized ≡ true
    → IsReleasable c address
    → free c address ≡ (returned c (address / page_size), true)
unfolding free
free_accepts c address e h =
    rw (e, set_free-update c.bitmap (address / page_size), index_split (address / page_size), h.2)
      (ground (arith, h))

-- It refuses every other address, a page that is free already among them, and changes nothing.
pub free_refuses :
    (c : PageFrameContainer) (address : ℕ) → ¬ IsReleasable c address → free c address ≡ (c, false)
unfolding free
free_refuses c address h = rw (index_split (address / page_size)) (ground (arith, h))

pub returned-WellFormed :
    {c : PageFrameContainer} {p : ℕ}
    → WellFormed c
    → p < c.page_count
    → c.bitmap p ≡ false
    → WellFormed (returned c p)
returned-WellFormed {c} {p} w h e = record {
  count_exact = omega (arith, count_below-set c.bitmap c.page_count p h e, w.count_exact);
  tail_busy = λ i q k. ground (arith, w.tail_busy i);
  covers = w.covers;
  small = w.small;
}

dec-IsReleasable :
    (c : PageFrameContainer) (address : ℕ) → IsReleasable c address ⊎ (¬ IsReleasable c address)
dec-IsReleasable c address = grind arith

-- On an initialized allocator `free` keeps the allocator well formed, whatever address it is
-- given.
pub free-WellFormed :
    {c : PageFrameContainer} (address : ℕ)
    → WellFormed c
    → c.initialized ≡ true
    → WellFormed (free c address).0
free-WellFormed {c} address w e = elim (dec-IsReleasable c address) [
  | inl h ↦ rw (free_accepts c address e h) (returned-WellFormed w h.1 h.2)
  | inr h ↦ rw (free_refuses c address h) w
]

-- What `free` does with any address on an initialized allocator: it returns true exactly for the
-- aligned address of a tracked page that is busy, sets that page's bit and adds one to the
-- counter; else it changes nothing.
pub free_lem :
    (c : PageFrameContainer) (address : ℕ)
    → c.initialized ≡ true
    → (IsReleasable c address × (free c address ≡ (returned c (address / page_size), true)))
      ⊎ ((¬ IsReleasable c address) × (free c address ≡ (c, false)))
free_lem c address e = elim (dec-IsReleasable c address) [
  | inl h ↦ inl (h, free_accepts c address e h)
  | inr h ↦ inr (h, free_refuses c address h)
]

update-restore : (bm : Bitmap) (p : ℕ) → bm p ≡ true → update (update bm p false) p true ≡ bm
update-restore bm p e = fun_ext λ j. ground arith

-- On a well-formed, initialized allocator, freeing the page that `allocate` has just handed out
-- gives back the very same allocator.
pub free-allocate :
    {c c' : PageFrameContainer} (address : ℕ)
    → WellFormed c
    → c.initialized ≡ true
    → allocate c ≡ (c', some address)
    → free c' address ≡ (c, true)
free-allocate {c} {c'} address w e h = elim (allocate_lem w e) [
  | inl (r, _) ↦ absurd (none-ne-some (ap (λ x. x.1) (sym r ∙ h)))
  | inr (p, l, r) ↦
      let q = sym r ∙ h in
      let a : p * page_size ≡ address = some_inj (ap (λ x. x.1) q) in
      subst (λ x. free x address ≡ (c, true)) (ap (λ x. x.0) q)
        (subst (λ x. free (taken c p) x ≡ (c, true)) a (back p l))
]
  where
    back : (p : ℕ) → IsLowest c p → free (taken c p) (p * page_size) ≡ (c, true)
    back p l =
        let page : p * page_size / page_size ≡ p = omega arith in
        free_accepts (taken c p) (p * page_size) e
          (omega arith, rw page l.in_range, rw page (update_self c.bitmap p false))
        ∙ rw (page, update-restore c.bitmap p l.free_before) (counted l.counted)
      where
        counted :
            0 < c.free_page_count
            → ◌≡◌ {A = PageFrameContainer × Bool}
                (record c { free_page_count = c.free_page_count - 1 + 1 }, true)
                (c, true)
        counted h = ap (λ n. (record c { free_page_count = n }, true)) (omega arith)
