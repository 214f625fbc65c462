-- ===== src/VirtualMemory/MapLoop.antt =====
-- The loop of `map_physical`.
use os.Base.{
  ℕ, zero, suc, ◌+◌, ◌*◌, ◌%◌, ◌^◌, ◌≤◌, ◌<◌, ◌≡◌, refl, Bool, true, false, ◌==◌, if◌then◌else◌,
  arith, ap, ◌∙◌, sym, subst,
}
use os.PageFrame.{page_size}
use os.VirtualMemory.{
  VirtualMemory, PageFlags, entry_page, with_present, flags_to_entry, map_page, map_pages,
}
use os.VirtualMemory.Ensure.{AllBusy}
use os.VirtualMemory.Store.{page_number}
use os.VirtualMemory.Map.{leaf_value, mapped_leaf, HasLeaves, MapPageResult, map_page_lem}

map_pages_on :
    (v : VirtualMemory) (va pa : ℕ) (flags : PageFlags) (r i : ℕ) (v1 : VirtualMemory)
    → map_page v ((va + i * page_size) % 2 ^ 64) ((pa + i * page_size) % 2 ^ 64) flags ≡ (v1, true)
    → map_pages v va pa flags (suc r) i ≡ map_pages v1 va pa flags r (i + 1)
unfolding map_pages
map_pages_on v va pa flags r i v1 e = rw e refl

map_pages_off :
    (v : VirtualMemory) (va pa : ℕ) (flags : PageFlags) (r i : ℕ) (v1 : VirtualMemory)
    → map_page v ((va + i * page_size) % 2 ^ 64) ((pa + i * page_size) % 2 ^ 64) flags ≡ (v1, false)
    → map_pages v va pa flags (suc r) i ≡ (v1, false)
unfolding map_pages
map_pages_off v va pa flags r i v1 e = rw e refl

-- The pages from `start` up to some `end` have been mapped: all that were asked for, or fewer and no
-- page is free.
abbrev pub MapResult : ℕ → (ℕ → ℕ) → ℕ → ℕ → PageFlags → ℕ → ℕ → VirtualMemory × Bool → Type 0
MapResult root old first pa flags start r (v', mapped) =
    (end : ℕ) × (start ≤ end)
    × HasLeaves v' root (λ a. mapped_leaf first pa flags start end a (old a))
    × (if mapped then end ≡ start + r else (end < start + r) × AllBusy v'.frames)

-- No page is in an empty range.
mapped_leaf-empty :
    (first pa : ℕ) (flags : PageFlags) (start a old : ℕ)
    → mapped_leaf first pa flags start start a old ≡ old
mapped_leaf-empty first pa flags start a old = ground arith

-- A page and then the pages after it.
mapped_leaf-next :
    (first pa : ℕ) (flags : PageFlags) (start end a old e va : ℕ)
    → start < end
    → page_number va ≡ first + start
    → e ≡ leaf_value pa flags start
    → mapped_leaf first pa flags
        (start + 1)
        end
        a
        (if page_number a == page_number va then e else old)
      ≡ mapped_leaf first pa flags start end a old
mapped_leaf-next first pa flags start end a old e va l p q = ground (arith, l, p, q)

module _ (va pa : ℕ) (flags : PageFlags) (va_aligned : va % page_size ≡ 0)
    (pa_aligned : pa % page_size ≡ 0) where
  page_value :
      (i : ℕ)
      → entry_page ((pa + i * page_size) % 2 ^ 64) * page_size + flags_to_entry (with_present flags)
        ≡ leaf_value pa flags i
  page_value i = omega (arith, pa_aligned)

  page_at :
      (i : ℕ)
      → page_number va + i < 2 ^ 36
      → page_number ((va + i * page_size) % 2 ^ 64) ≡ page_number va + i
  unfolding page_number
  page_at i h = omega (arith, va_aligned, h)

  abbrev after_page : ℕ → (ℕ → ℕ) → ℕ → ℕ
  after_page i old a =
      if page_number a == page_number ((va + i * page_size) % 2 ^ 64)
      then entry_page ((pa + i * page_size) % 2 ^ 64) * page_size
        + flags_to_entry (with_present flags)
      else old a

  -- The pages after page `i`, with page `i`.
  with_page :
      (r i root : ℕ) (old : ℕ → ℕ) (x : VirtualMemory × Bool)
      → page_number va + i < 2 ^ 36
      → MapResult root (after_page i old) (page_number va) pa flags (i + 1) r x
      → MapResult root old (page_number va) pa flags i (suc r) x
  with_page r i root old (v', mapped) b (end, l, (level', path', w', s', h'), c) = (
    end,
    omega (arith, l),
    (
      level',
      path',
      w',
      s',
      λ a.
          h' a
          ∙ mapped_leaf-next (page_number va) pa flags i end a (old a)
              (entry_page ((pa + i * page_size) % 2 ^ 64) * page_size
                + flags_to_entry (with_present flags))
              ((va + i * page_size) % 2 ^ 64) (omega (arith, l)) (page_at i b) (page_value i),
    ),
    all mapped c,
  )
    where
      all :
          (m : Bool)
          → (if m then end ≡ i + 1 + r else (end < i + 1 + r) × AllBusy v'.frames)
          → (if m then end ≡ i + suc r else (end < i + suc r) × AllBusy v'.frames)
      all true c = omega (arith, c)
      all false (l, busy) = (omega (arith, l), busy)

  pub map_pages_lem :
      (r i : ℕ) (v : VirtualMemory) (root : ℕ) (old : ℕ → ℕ)
      → HasLeaves v root old
      → page_number va + i + r ≤ 2 ^ 36
      → MapResult root old (page_number va) pa flags i r (map_pages v va pa flags r i)
  unfolding map_pages
  map_pages_lem zero i v root old (level, path, w, s, h) b = (
    i,
    omega arith,
    (level, path, w, s, λ a. h a ∙ sym (mapped_leaf-empty (page_number va) pa flags i a (old a))),
    omega arith,
  )
  map_pages_lem (suc r) i v root old (level, path, w, s, h) b =
      go (map_page v ((va + i * page_size) % 2 ^ 64) ((pa + i * page_size) % 2 ^ 64) flags) refl
        (map_page_lem w ((va + i * page_size) % 2 ^ 64) ((pa + i * page_size) % 2 ^ 64) flags)
        (λ v1 old1. map_pages_lem r (i + 1) v1 root old1)
    where
      go :
          (x : VirtualMemory × Bool)
          → map_page v ((va + i * page_size) % 2 ^ 64) ((pa + i * page_size) % 2 ^ 64) flags ≡ x
          → MapPageResult v
              ((va + i * page_size) % 2 ^ 64)
              (entry_page ((pa + i * page_size) % 2 ^ 64) * page_size
                + flags_to_entry (with_present flags))
              x
          → ((v1 : VirtualMemory) (old1 : ℕ → ℕ)
              → HasLeaves v1 root old1
              → page_number va + (i + 1) + r ≤ 2 ^ 36
              → MapResult root old1
                  (page_number va)
                  pa
                  flags
                  (i + 1)
                  r
                  (map_pages v1 va pa flags r (i + 1)))
          → MapResult root old
              (page_number va)
              pa
              flags
              i
              (suc r)
              (map_pages v va pa flags (suc r) i)
      go (v1, false) e ((level1, path1, w1, s1, h1), busy) rest =
          subst (MapResult root old (page_number va) pa flags i (suc r))
            (sym (map_pages_off v va pa flags r i v1 e))
            (
              i,
              omega arith,
              (
                level1,
                path1,
                w1,
                s1 ∙ s,
                λ a. h1 a ∙ h a ∙ sym (mapped_leaf-empty (page_number va) pa flags i a (old a)),
              ),
              (omega arith, busy),
            )
      go (v1, true) e ((level1, path1, w1, s1, h1), on) rest =
          subst (MapResult root old (page_number va) pa flags i (suc r))
            (sym (map_pages_on v va pa flags r i v1 e))
            (with_page r i root old (map_pages v1 va pa flags r (i + 1)) (omega (arith, b)) (
              rest v1 (after_page i old)
                (
                  level1,
                  path1,
                  w1,
                  s1 ∙ s,
                  λ a.
                      h1 a
                      ∙ ap
                          (λ o.
                            if page_number a == page_number ((va + i * page_size) % 2 ^ 64)
                            then entry_page ((pa + i * page_size) % 2 ^ 64) * page_size
                              + flags_to_entry (with_present flags)
                            else o)
                          (h a),
                )
                (omega (arith, b))))
