-- ===== src/Dma/Records.antt =====
-- The records of the registry against the bitmap of the pages.
use os.Base.{
  ℕ, ◌+◌, ◌*◌, ◌/◌, ◌%◌, ◌≤◌, ◌<◌, ◌≡◌, refl, ◌⊎◌, inl, inr, true, none, some, List, [], ◌∷◌, ◌++◌,
  length, All, All-append, arith, ap, ◌∙◌, sym, subst, dec_le, Bool-cases, ◌==◌, false≢true,
  some_inj, none-ne-some,
}
use os.Bitmap.{Bitmap}
use os.PageFrame.{PageFrameContainer, page_size}
use os.PageFrame.Run.{IsRun}
use os.Dma.{DmaAllocationRecord, find_allocation_locked, unlink_allocation}
use os.Dma.Pages.{IsBusyRun}

abbrev pub first_page : DmaAllocationRecord → ℕ
first_page r = r.physical_base / page_size

-- The pages of a record exist and are handed out.
pub record IsHeld (c : PageFrameContainer) (r : DmaAllocationRecord) : Type 0 where
  pub aligned : r.physical_base % page_size ≡ 0
  pub some_pages : 0 < r.page_count
  pub in_range : first_page r + r.page_count ≤ c.page_count
  pub busy : IsBusyRun c.bitmap (first_page r) r.page_count

-- Two records share no page.
abbrev pub Apart : DmaAllocationRecord → DmaAllocationRecord → Type 0
Apart r q =
    (first_page r + r.page_count ≤ first_page q) ⊎ (first_page q + q.page_count ≤ first_page r)

abbrev pub AllApart : List DmaAllocationRecord → Type 0
AllApart [] = Unit
AllApart (r ∷ rest) = All (Apart r) rest × AllApart rest

Apart-swap : (r q : DmaAllocationRecord) → Apart r q → Apart q r
Apart-swap r q (inl h) = inr h
Apart-swap r q (inr h) = inl h

-- A run of busy pages and a run of free ones do not meet.
pub runs_apart :
    (bm : Bitmap) (s m t n : ℕ)
    → 0 < m
    → 0 < n
    → IsBusyRun bm s m
    → IsRun bm t n
    → (s + m ≤ t) ⊎ (t + n ≤ s)
runs_apart bm s m t n p q b f = elim (dec_le (s + m) t) [
  | yes l ↦ inl l
  | no l ↦ elim (dec_le (t + n) s) [
    | yes k ↦ inr k
    | no k ↦ elim (dec_le s t) [
      | yes j ↦ absurd (false≢true (sym (b t j (omega arith)) ∙ f t (omega arith) (omega arith)))
      | no j ↦
          absurd
            (false≢true (sym (b s (omega arith) (omega arith)) ∙ f s (omega arith) (omega arith)))
    ]
  ]
]

-- No record names a page that is free.
pub find_allocation_locked-fresh :
    (c : PageFrameContainer) (xs : List DmaAllocationRecord) (start : ℕ)
    → All (IsHeld c) xs
    → c.bitmap start ≡ true
    → find_allocation_locked xs (start * page_size) ≡ none
unfolding find_allocation_locked
find_allocation_locked-fresh c [] start h e = refl
find_allocation_locked-fresh c (x ∷ xs) start (h, hs) e =
    elim (Bool-cases (x.physical_base == start * page_size)) [
      | inr n ↦ rw n (find_allocation_locked-fresh c xs start hs e)
      | inl y ↦
          let page : first_page x ≡ start = ground (arith, y) in
          absurd (
            false≢true
              (sym (h.busy start (omega (arith, page)) (omega (arith, page, h.some_pages))) ∙ e))
    ]

module _ (r : DmaAllocationRecord) where
  pub find_allocation_locked-last :
      (xs : List DmaAllocationRecord)
      → find_allocation_locked xs r.physical_base ≡ none
      → find_allocation_locked (xs ++ r ∷ []) r.physical_base ≡ some r
  unfolding find_allocation_locked
  find_allocation_locked-last [] e = ground arith
  find_allocation_locked-last (x ∷ xs) e = elim (Bool-cases (x.physical_base == r.physical_base)) [
    | inl y ↦ absurd (none-ne-some (sym (rw y at e)))
    | inr n ↦ rw n (find_allocation_locked-last xs (rw n at e))
  ]

  pub unlink_allocation-last :
      (xs : List DmaAllocationRecord)
      → find_allocation_locked xs r.physical_base ≡ none
      → unlink_allocation (xs ++ r ∷ []) r.physical_base ≡ xs
  unfolding find_allocation_locked unlink_allocation
  unlink_allocation-last [] e = ground arith
  unlink_allocation-last (x ∷ xs) e = elim (Bool-cases (x.physical_base == r.physical_base)) [
    | inl y ↦ absurd (none-ne-some (sym (rw y at e)))
    | inr n ↦ rw n (ap (λ l. x ∷ l) (unlink_allocation-last xs (rw n at e)))
  ]

pub AllApart-append :
    (xs : List DmaAllocationRecord) (r : DmaAllocationRecord)
    → AllApart xs
    → All (λ x. Apart x r) xs
    → AllApart (xs ++ r ∷ [])
AllApart-append [] r a h = (tt, tt)
AllApart-append (x ∷ xs) r (a, as_) (h, hs) =
    (All-append (Apart x) xs (r ∷ []) a (h, tt), AllApart-append xs r as_ hs)

module _ (physical_base : ℕ) where
  pub unlink_allocation-All :
      (P : DmaAllocationRecord → Type 0) (xs : List DmaAllocationRecord)
      → All P xs
      → All P (unlink_allocation xs physical_base)
  unfolding unlink_allocation
  unlink_allocation-All P [] h = tt
  unlink_allocation-All P (x ∷ xs) (h, hs) = elim (Bool-cases (x.physical_base == physical_base)) [
    | inl y ↦ rw y hs
    | inr n ↦ rw n (h, unlink_allocation-All P xs hs)
  ]

  pub unlink_allocation-AllApart :
      (xs : List DmaAllocationRecord) → AllApart xs → AllApart (unlink_allocation xs physical_base)
  unfolding unlink_allocation
  unlink_allocation-AllApart [] h = tt
  unlink_allocation-AllApart (x ∷ xs) (h, hs) =
      elim (Bool-cases (x.physical_base == physical_base)) [
        | inl y ↦ rw y hs
        | inr n ↦ rw n (unlink_allocation-All (Apart x) xs h, unlink_allocation-AllApart xs hs)
      ]

  -- What is found has what every record has.
  pub find_allocation_locked-All :
      (P : DmaAllocationRecord → Type 0) (xs : List DmaAllocationRecord) (r : DmaAllocationRecord)
      → All P xs
      → find_allocation_locked xs physical_base ≡ some r
      → P r × (r.physical_base ≡ physical_base)
  unfolding find_allocation_locked
  find_allocation_locked-All P [] r h e = absurd (none-ne-some e)
  find_allocation_locked-All P (x ∷ xs) r (h, hs) e =
      elim (Bool-cases (x.physical_base == physical_base)) [
        | inl y ↦
            let q : x ≡ r = some_inj (rw y at e) in
            (subst P q h, ap (λ z. z.physical_base) (sym q) ∙ ground (arith, y))
        | inr n ↦ find_allocation_locked-All P xs r hs (rw n at e)
      ]

  -- The other records share no page with what is found.
  pub unlink_allocation-Apart :
      (xs : List DmaAllocationRecord) (r : DmaAllocationRecord)
      → AllApart xs
      → find_allocation_locked xs physical_base ≡ some r
      → All (Apart r) (unlink_allocation xs physical_base)
        × (length xs ≡ length (unlink_allocation xs physical_base) + 1)
  unfolding find_allocation_locked unlink_allocation
  unlink_allocation-Apart [] r h e = absurd (none-ne-some e)
  unlink_allocation-Apart (x ∷ xs) r (h, hs) e =
      elim (Bool-cases (x.physical_base == physical_base)) [
        | inl y ↦
            let q : x ≡ r = some_inj (rw y at e) in
            rw y (subst (λ z. All (Apart z) xs) q h, omega arith)
        | inr n ↦
            let e' : find_allocation_locked xs physical_base ≡ some r = rw n at e in
            let (ih, l) = unlink_allocation-Apart xs r hs e' in
            rw n (
              (Apart-swap x r (find_allocation_locked-All (Apart x) xs r h e').0, ih),
              omega (arith, l),
            )
      ]
