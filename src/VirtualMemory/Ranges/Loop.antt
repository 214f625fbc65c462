-- ===== src/VirtualMemory/Ranges/Loop.antt =====
-- The loops of `protect` and `free` over pages that are mapped, for any change of a leaf entry.
use os.Base.{
  ℕ, zero, suc, ◌+◌, ◌*◌, ◌%◌, ◌^◌, ◌≤◌, ◌<◌, ◌≡◌, refl, ◌≢◌, Bool, true, false, List, ◌==◌,
  if◌then◌else◌, arith, ap, ◌∙◌, sym, subst, leb, ltb, ◌&&◌,
}
use os.PageFrame.{page_size}
use os.VirtualMemory.{VirtualMemory}
use os.VirtualMemory.Tree.{IsTree, leaf_entry}
use os.VirtualMemory.Store.{page_number}
use os.VirtualMemory.Ranges.{each_page}

abbrev pub in_pages : ℕ → ℕ → ℕ → ℕ → Bool
in_pages first start end a =
    leb (first + start) (page_number a) && ltb (page_number a) (first + end)

-- The leaf entries after a change `g` of those of the pages `start` to `end`.
abbrev pub changed_leaf : (ℕ → ℕ) → ℕ → ℕ → ℕ → ℕ → ℕ → ℕ
changed_leaf g first start end a old = if in_pages first start end a then g old else old

changed_leaf-empty :
    (g : ℕ → ℕ) (first start a old : ℕ) → changed_leaf g first start start a old ≡ old
changed_leaf-empty g first start a old = ground arith

changed_leaf-next :
    (g : ℕ → ℕ) (first start end a old va : ℕ)
    → start < end
    → page_number va ≡ first + start
    → changed_leaf g first
        (start + 1)
        end
        a
        (if page_number a == page_number va then g old else old)
      ≡ changed_leaf g first start end a old
changed_leaf-next g first start end a old va l p = ground (arith, l, p)

-- What one round does at address `va`: the change of the page's leaf entry, or nothing where there is
-- none.
abbrev pub PageStep :
    (ℕ → ℕ) → (ℕ → List ℕ) → (ℕ → ℕ) → VirtualMemory → ℕ → VirtualMemory × Bool → Type 0
PageStep level path g v va (v', done) =
    IsTree v' level path
    × ((a : ℕ)
        → leaf_entry v' a ≡ (
            if done && (page_number a == page_number va)
            then g (leaf_entry v a)
            else leaf_entry v a))
    × (if done then leaf_entry v va ≢ 0 else leaf_entry v va ≡ 0)

-- What the loop does from page `start` on.
abbrev pub RangeStep :
    (ℕ → ℕ) → (ℕ → List ℕ) → (ℕ → ℕ) → (ℕ → ℕ) → ℕ → ℕ → ℕ → VirtualMemory × Bool → Type 0
RangeStep level path g old va start r (v', done) =
    (end : ℕ) × (start ≤ end)
    × IsTree v' level path
    × ((a : ℕ) → leaf_entry v' a ≡ changed_leaf g (page_number va) start end a (old a))
    × (if done
        then end ≡ start + r
        else (end < start + r) × (old ((va + end * page_size) % 2 ^ 64) ≡ 0))

module _ {level : ℕ → ℕ} {path : ℕ → List ℕ} (f : VirtualMemory → ℕ → VirtualMemory × Bool)
    (g : ℕ → ℕ) (Ok : ℕ → Type 0)
    (round : (v : VirtualMemory) (a : ℕ)
      → IsTree v level path
      → Ok (leaf_entry v a)
      → PageStep level path g v a (f v a))
    (va : ℕ) (aligned : va % page_size ≡ 0) where
  abbrev at : ℕ → ℕ
  at i = (va + i * page_size) % 2 ^ 64

  at-page : (i : ℕ) → page_number va + i < 2 ^ 36 → page_number (at i) ≡ page_number va + i
  unfolding page_number
  at-page i h = omega (arith, aligned, h)

  each_page-on :
      (v : VirtualMemory) (r i : ℕ) (v1 : VirtualMemory)
      → f v (at i) ≡ (v1, true)
      → each_page f v va (suc r) i ≡ each_page f v1 va r (i + 1)
  unfolding each_page
  each_page-on v r i v1 e = rw e refl

  each_page-off :
      (v : VirtualMemory) (r i : ℕ) (v1 : VirtualMemory)
      → f v (at i) ≡ (v1, false)
      → each_page f v va (suc r) i ≡ (v1, false)
  unfolding each_page
  each_page-off v r i v1 e = rw e refl

  abbrev after_page : ℕ → (ℕ → ℕ) → ℕ → ℕ
  after_page i old a = if page_number a == page_number (at i) then g (old a) else old a

  -- The pages after page `i`, with page `i`.
  with_page :
      (r i : ℕ) (old : ℕ → ℕ) (x : VirtualMemory × Bool)
      → page_number va + i + suc r ≤ 2 ^ 36
      → RangeStep level path g (after_page i old) va (i + 1) r x
      → RangeStep level path g old va i (suc r) x
  with_page r i old (v', done) b (end, l, w', h', c) = (
    end,
    omega (arith, l),
    w',
    λ a.
        h' a
        ∙ changed_leaf-next g (page_number va) i end a (old a) (at i) (omega (arith, l))
            (at-page i (omega (arith, b))),
    all done c,
  )
    where
      other : end < i + 1 + r → (page_number (at end) == page_number (at i)) ≡ false
      other k =
          let one = at-page end (omega (arith, b, k)) in
          let two = at-page i (omega (arith, b)) in ground (arith, one, two, l)

      all :
          (m : Bool)
          → (if m then end ≡ i + 1 + r else (end < i + 1 + r) × (after_page i old (at end) ≡ 0))
          → (if m then end ≡ i + suc r else (end < i + suc r) × (old (at end) ≡ 0))
      all true c = omega (arith, c)
      all false (k, z) = (
        omega (arith, k),
        ap (λ t. if t then g (old (at end)) else old (at end)) (sym (other k)) ∙ z,
      )

  -- A round changes no other page of the range.
  other_page :
      (v v1 : VirtualMemory) (i k : ℕ)
      → ((a : ℕ)
          → leaf_entry v1 a
            ≡ (if page_number a == page_number (at i) then g (leaf_entry v a) else leaf_entry v a))
      → i < k
      → page_number va + k < 2 ^ 36
      → leaf_entry v1 (at k) ≡ leaf_entry v (at k)
  other_page v v1 i k h l b =
      let one = at-page k b in
      let two = at-page i (omega (arith, b, l)) in
      let ne : (page_number (at k) == page_number (at i)) ≡ false = ground (arith, one, two, l) in
      h (at k) ∙ ap (λ t. if t then g (leaf_entry v (at k)) else leaf_entry v (at k)) ne

  abbrev Below : ℕ → ℕ → Type 0
  Below r i =
      (v : VirtualMemory) (old : ℕ → ℕ)
      → IsTree v level path
      → ((a : ℕ) → leaf_entry v a ≡ old a)
      → page_number va + i + r ≤ 2 ^ 36
      → ((k : ℕ) → i ≤ k → k < i + r → Ok (leaf_entry v (at k)))
      → RangeStep level path g old va i r (each_page f v va r i)

  each_page-step :
      (r i : ℕ)
      → Below r (i + 1)
      → (v : VirtualMemory) (old : ℕ → ℕ) (x : VirtualMemory × Bool) → f v (at i) ≡ x
      → PageStep level path g v (at i) x
      → ((a : ℕ) → leaf_entry v a ≡ old a)
      → page_number va + i + suc r ≤ 2 ^ 36
      → ((k : ℕ) → i ≤ k → k < i + suc r → Ok (leaf_entry v (at k)))
      → RangeStep level path g old va i (suc r) (each_page f v va (suc r) i)
  each_page-step r i below v old (v1, false) e (w1, h1, z) h b ok =
      subst (RangeStep level path g old va i (suc r)) (sym (each_page-off v r i v1 e)) (
        i,
        omega arith,
        w1,
        λ a. h1 a ∙ h a ∙ sym (changed_leaf-empty g (page_number va) i a (old a)),
        (omega arith, sym (h (at i)) ∙ z),
      )
  each_page-step r i below v old (v1, true) e (w1, h1, n) h b ok =
      subst (RangeStep level path g old va i (suc r)) (sym (each_page-on v r i v1 e)) (
        with_page r i old (each_page f v1 va r (i + 1)) b (
          below v1 (after_page i old) w1
            (λ a. h1 a ∙ ap (λ o. if page_number a == page_number (at i) then g o else o) (h a))
            (omega (arith, b))
            (λ k l u.
              subst Ok (sym (other_page v v1 i k h1 (omega (arith, l)) (omega (arith, b, u))))
                (ok k (omega (arith, l)) (omega (arith, u))))))

  pub each_page_lem : (r i : ℕ) → Below r i
  unfolding each_page
  each_page_lem zero i = λ v old w h b ok. (
    i,
    omega arith,
    w,
    λ a. h a ∙ sym (changed_leaf-empty g (page_number va) i a (old a)),
    omega arith,
  )
  each_page_lem (suc r) i = λ v old w h b ok.
      each_page-step r i (each_page_lem r (i + 1)) v old (f v (at i)) refl
        (round v (at i) w (ok i (omega arith) (omega arith))) h b ok
