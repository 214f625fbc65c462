-- ===== src/PageFrame/Inv.antt =====
-- What every method of the page-frame allocator relies on and keeps.
use os.Base.{
  ℕ, zero, suc, ◌+◌, ◌*◌, ◌^◌, ◌≤◌, ◌<◌, ◌≡◌, refl, ap, true, false, Option, none, some, arith,
  update, ◌∙◌,
}
use os.Bitmap.{Bitmap, count_below, index_split, fill}
use os.PageFrame.{
  PageFrameContainer, page_size, page_address, set_busy, set_free, is_free, set_busy_range,
}

-- The counter is exact, the bits past the last page are clear, and no address wraps.
pub record WellFormed (c : PageFrameContainer) : Type 0 where
  pub count_exact : c.free_page_count ≡ count_below c.bitmap c.page_count
  pub tail_busy : (i : ℕ) → c.page_count ≤ i → i < 64 * c.bitmap_size → c.bitmap i ≡ false
  pub covers : c.page_count ≤ 64 * c.bitmap_size
  pub small : c.page_count * page_size < 2 ^ 64

-- The first set bit at or after `lo`, looked for below `hi`.
abbrev pub First : Bitmap → ℕ → ℕ → Option ℕ → Type 0
First bm lo hi none = (i : ℕ) → lo ≤ i → i < hi → bm i ≡ false
First bm lo hi (some p) =
    (lo ≤ p) × (p < hi) × (bm p ≡ true) × ((i : ℕ) → lo ≤ i → i < p → bm i ≡ false)

pub page_address-small :
    {c : PageFrameContainer} {p : ℕ}
    → WellFormed c
    → p < c.page_count
    → page_address p ≡ p * page_size
page_address-small w h = omega (arith, w.small)

pub set_busy-update : (bm : Bitmap) (i : ℕ) → set_busy bm i ≡ update bm i false
unfolding set_busy
set_busy-update bm i = ap (λ k. update bm k false) (index_split i)

pub set_free-update : (bm : Bitmap) (i : ℕ) → set_free bm i ≡ update bm i true
unfolding set_free
set_free-update bm i = ap (λ k. update bm k true) (index_split i)

pub is_free_lem : (bm : Bitmap) (i : ℕ) → is_free bm i ≡ bm i
unfolding is_free
is_free_lem bm i = ap bm (index_split i)

pub set_busy_range-fill : (bm : Bitmap) (s n : ℕ) → set_busy_range bm s n ≡ fill bm s n false
unfolding set_busy_range fill
set_busy_range-fill bm s zero = refl
set_busy_range-fill bm s (suc n) =
    ap (λ m. set_busy_range m (s + 1) n) (set_busy-update bm s)
    ∙ set_busy_range-fill (update bm s false) (s + 1) n
