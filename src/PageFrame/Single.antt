-- ===== src/PageFrame/Single.antt =====
-- `allocate(uint64_t& address)`, against the lowest free page.
use os.Base.{
  ℕ, zero, suc, ◌+◌, ◌*◌, ◌≤◌, ◌<◌, ◌≡◌, refl, ◌⊎◌, inl, inr, true, false, Option, none, some,
  arith, update, Bool-cases, dec_lt, if◌then◌else◌, subst₂, ◌-◌, sym, ◌∙◌, false≢true,
}
use os.Bitmap.{Bitmap, count_below-clear}
use os.PageFrame.{PageFrameContainer, page_size, word_nonzero, scan_word, scan_words, allocate}
use os.PageFrame.Inv.{WellFormed, First, page_address-small, set_busy-update}

First-skip :
    (bm : Bitmap) (lo mid hi : ℕ) (o : Option ℕ)
    → mid ≤ hi
    → lo ≤ mid
    → First bm lo mid none
    → First bm mid hi o
    → First bm lo hi o
First-skip bm lo mid hi none h k a b =
    λ i p q. elim (dec_lt i mid) [ yes l ↦ a i p l | no l ↦ b i (omega arith) q ]
First-skip bm lo mid hi (some x) h k a b = (
  omega arith,
  b.1,
  b.2,
  λ i p q. elim (dec_lt i mid) [ yes l ↦ a i p l | no l ↦ b.3 i (omega arith) q ],
)

First-widen :
    (bm : Bitmap) (lo mid hi p : ℕ) → mid ≤ hi → First bm lo mid (some p) → First bm lo hi (some p)
First-widen bm lo mid hi p h f = (f.0, omega arith, f.2, f.3)

First-one : (bm : Bitmap) (lo : ℕ) → bm lo ≡ false → First bm lo (lo + 1) none
First-one bm lo e i p q = ground arith

word_nonzero-First :
    (bm : Bitmap) (q b r : ℕ)
    → word_nonzero bm q b r ≡ false
    → First bm (64 * q + b) (64 * q + b + r) none
unfolding word_nonzero
word_nonzero-First bm q b zero e i h k = absurd (omega arith)
word_nonzero-First bm q b (suc r) e i h k =
    ground (arith, word_nonzero-First bm q (b + 1) r (ground arith) i)

scan_word-First :
    (bm : Bitmap) (q b r : ℕ) → First bm (64 * q + b) (64 * q + b + r) (scan_word bm q b r)
unfolding scan_word
scan_word-First bm q b zero = λ i h k. absurd (omega arith)
scan_word-First bm q b (suc r) = elim (Bool-cases (bm (64 * q + b))) [
  | inl e ↦ rw e (omega arith, omega arith, e, λ i h k. absurd (omega arith))
  | inr e ↦ rw e (
      First-skip bm (64 * q + b) (64 * q + b + 1) (64 * q + b + suc r) (scan_word bm q (b + 1) r)
        (omega arith) (omega arith) (First-one bm (64 * q + b) e)
        (subst₂ (λ lo hi. First bm lo hi (scan_word bm q (b + 1) r)) (omega arith) (omega arith)
          (scan_word-First bm q (b + 1) r)))
]

-- One word, tested and scanned.
one_word : Bitmap → ℕ → Option ℕ
unfolding word_nonzero scan_word
one_word bm q = if word_nonzero bm q 0 64 then scan_word bm q 0 64 else none

one_word-First : (bm : Bitmap) (q : ℕ) → First bm (64 * q) (64 * q + 64) (one_word bm q)
unfolding one_word
one_word-First bm q = elim (Bool-cases (word_nonzero bm q 0 64)) [
  | inl e ↦ rw e (
      subst₂ (λ lo hi. First bm lo hi (scan_word bm q 0 64)) (omega arith) (omega arith)
        (scan_word-First bm q 0 64))
  | inr e ↦ rw e (λ i h k. word_nonzero-First bm q 0 64 e i (omega arith) (omega arith))
]

scan_words-First : (bm : Bitmap) (q r : ℕ) → First bm (64 * q) (64 * (q + r)) (scan_words bm q r)
unfolding scan_words one_word
scan_words-First bm q zero = λ i h k. absurd (omega arith)
scan_words-First bm q (suc r) =
    go (one_word bm q) (one_word-First bm q) (scan_words-First bm (q + 1) r)
  where
    go :
        (o : Option ℕ)
        → First bm (64 * q) (64 * q + 64) o
        → First bm (64 * (q + 1)) (64 * (q + 1 + r)) (scan_words bm (q + 1) r)
        → First bm
            (64 * q)
            (64 * (q + suc r))
            (elim o [ some ipage ↦ some ipage | none ↦ scan_words bm (q + 1) r ])
    go none f g =
        First-skip bm (64 * q) (64 * q + 64) (64 * (q + suc r)) (scan_words bm (q + 1) r)
          (omega arith) (omega arith) f
          (subst₂ (λ lo hi. First bm lo hi (scan_words bm (q + 1) r)) (omega arith) (omega arith) g)
    go (some p) f g = First-widen bm (64 * q) (64 * q + 64) (64 * (q + suc r)) p (omega arith) f

-- The container after page `p` was handed out.
abbrev pub taken : PageFrameContainer → ℕ → PageFrameContainer
taken c p = record c { bitmap = update c.bitmap p false; free_page_count = c.free_page_count - 1 }

-- Page `p` is the lowest free one.
pub record IsLowest (c : PageFrameContainer) (p : ℕ) : Type 0 where
  pub in_range : p < c.page_count
  pub free_before : c.bitmap p ≡ true
  pub lower_busy : (i : ℕ) → i < p → c.bitmap i ≡ false
  pub counted : 0 < c.free_page_count

positive :
    {c : PageFrameContainer} (p : ℕ)
    → WellFormed c
    → p < c.page_count
    → c.bitmap p ≡ true
    → 0 < c.free_page_count
positive {c} p w h e = omega (arith, count_below-clear c.bitmap c.page_count p h e, w.count_exact)

in_range :
    {c : PageFrameContainer} (p : ℕ)
    → WellFormed c
    → p < 64 * c.bitmap_size
    → c.bitmap p ≡ true
    → p < c.page_count
in_range {c} p w h e = elim (dec_lt p c.page_count) [
  | yes l ↦ l
  | no l ↦ absurd (false≢true (sym (w.tail_busy p (omega arith) h) ∙ e))
]

-- On a well-formed, initialized allocator `allocate` either returns false, changes nothing and
-- no page is free, or it returns the address of the lowest free page, clears exactly that page's
-- bit and takes exactly one from the counter.
pub allocate_lem :
    {c : PageFrameContainer}
    → WellFormed c
    → c.initialized ≡ true
    → ((allocate c ≡ (c, none)) × ((i : ℕ) → i < c.page_count → c.bitmap i ≡ false))
      ⊎ ((p : ℕ) × IsLowest c p × (allocate c ≡ (taken c p, some (p * page_size))))
unfolding allocate
allocate_lem {c} w e =
    go (scan_words c.bitmap 0 c.bitmap_size) refl (scan_words-First c.bitmap 0 c.bitmap_size)
  where
    go :
        (o : Option ℕ)
        → scan_words c.bitmap 0 c.bitmap_size ≡ o
        → First c.bitmap (64 * 0) (64 * (0 + c.bitmap_size)) o
        → ((allocate c ≡ (c, none)) × ((i : ℕ) → i < c.page_count → c.bitmap i ≡ false))
          ⊎ ((p : ℕ) × IsLowest c p × (allocate c ≡ (taken c p, some (p * page_size))))
    go none s f = inl (rw (e, s), λ i h. f i (omega arith) (omega (arith, w.covers)))
    go (some p) s f =
        let b = in_range p w (omega arith) f.2 in
        let n = positive p w b f.2 in
        inr (
          p,
          record {
            in_range = b;
            free_before = f.2;
            lower_busy = λ i h. f.3 i (omega arith) h;
            counted = n;
          },
          rw (e, s, set_busy-update c.bitmap p, page_address-small w b) (ground arith),
        )

pub taken-WellFormed :
    {c : PageFrameContainer} {p : ℕ} → WellFormed c → IsLowest c p → WellFormed (taken c p)
taken-WellFormed {c} {p} w l = record {
  count_exact =
      omega
        (arith, count_below-clear c.bitmap c.page_count p l.in_range l.free_before, w.count_exact);
  tail_busy = λ i h k. ground (arith, w.tail_busy i, l.in_range);
  covers = w.covers;
  small = w.small;
}

-- On an initialized allocator `allocate` keeps the allocator well formed, whether it finds a
-- page or not.
pub allocate-WellFormed :
    {c : PageFrameContainer} → WellFormed c → c.initialized ≡ true → WellFormed (allocate c).0
allocate-WellFormed {c} w e = elim (allocate_lem w e) [
  | inl (r, _) ↦ rw r w
  | inr (p, l, r) ↦ rw r (taken-WellFormed w l)
]
