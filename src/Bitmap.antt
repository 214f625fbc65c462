-- ===== src/Bitmap.antt =====
-- Bitmaps kept in 64-bit words, as src/kernel/mm/page_frame.cpp and
-- src/kernel/arch/x86_64/interrupt/vector_allocator.cpp keep them. The storage is read bit by bit:
-- bit `b` of word `q` is bit `64 * q + b` of the bitmap.
use os.Base.{
  ℕ, zero, suc, ◌+◌, ◌*◌, ◌/◌, ◌%◌, ◌≤◌, ◌<◌, ◌≡◌, refl, Bool, true, false, arith, if◌then◌else◌,
  update, update_ne, ◌∙◌, ap,
}

abbrev pub Bitmap : Type 0
Bitmap = ℕ → Bool

abbrev pub read_bit : Bitmap → ℕ → ℕ → Bool
read_bit bm q b = bm (64 * q + b)

abbrev pub write_bit : Bitmap → ℕ → ℕ → Bool → Bitmap
write_bit bm q b v = update bm (64 * q + b) v

pub index_split : (i : ℕ) → 64 * (i / 64) + i % 64 ≡ i
index_split i = omega arith

-- How many of the bits below `n` are set.
unfoldable pub count_below : Bitmap → ℕ → ℕ
count_below bm zero = 0
count_below bm (suc n) = (if bm n then 1 else 0) + count_below bm n

-- The bits `s`, ..., `s + n - 1`, all given the value `v`.
unfoldable pub fill : Bitmap → ℕ → ℕ → Bool → Bitmap
fill bm s zero v = bm
fill bm s (suc n) v = fill (update bm s v) (s + 1) n v

pub count_below-update_above :
    (bm : Bitmap) (n i : ℕ) (v : Bool) → n ≤ i → count_below (update bm i v) n ≡ count_below bm n
unfolding count_below
count_below-update_above bm zero i v h = refl
count_below-update_above bm (suc n) i v h =
    ground (arith, count_below-update_above bm n i v, update_ne bm i n v)

-- Clearing a set bit lowers the count by one.
pub count_below-clear :
    (bm : Bitmap) (n i : ℕ)
    → i < n
    → bm i ≡ true
    → count_below (update bm i false) n + 1 ≡ count_below bm n
unfolding count_below
count_below-clear bm zero i h e = elim h [ ]
count_below-clear bm (suc n) i h e =
    ground (arith, count_below-clear bm n i, count_below-update_above bm n i false)

-- Setting a clear bit raises it by one.
pub count_below-set :
    (bm : Bitmap) (n i : ℕ)
    → i < n
    → bm i ≡ false
    → count_below (update bm i true) n ≡ count_below bm n + 1
unfolding count_below
count_below-set bm zero i h e = elim h [ ]
count_below-set bm (suc n) i h e =
    ground (arith, count_below-set bm n i, count_below-update_above bm n i true)

pub fill_out : (bm : Bitmap) (s n : ℕ) (v : Bool) (i : ℕ) → i < s → fill bm s n v i ≡ bm i
unfolding fill
fill_out bm s zero v i h = refl
fill_out bm s (suc n) v i h =
    fill_out (update bm s v) (s + 1) n v i (omega arith) ∙ update_ne bm s i v (omega arith)

pub fill_above : (bm : Bitmap) (s n : ℕ) (v : Bool) (i : ℕ) → s + n ≤ i → fill bm s n v i ≡ bm i
unfolding fill
fill_above bm s zero v i h = refl
fill_above bm s (suc n) v i h =
    fill_above (update bm s v) (s + 1) n v i (omega arith) ∙ update_ne bm s i v (omega arith)

pub fill_in : (bm : Bitmap) (s n : ℕ) (v : Bool) (i : ℕ) → s ≤ i → i < s + n → fill bm s n v i ≡ v
unfolding fill
fill_in bm s zero v i h k = absurd (omega arith)
fill_in bm s (suc n) v i h k =
    ground (arith, fill_in (update bm s v) (s + 1) n v i, fill_out (update bm s v) (s + 1) n v i)

-- Clearing a run of `n` set bits lowers the count by `n`.
pub count_below-fill :
    (bm : Bitmap) (m s n : ℕ)
    → s + n ≤ m
    → ((i : ℕ) → s ≤ i → i < s + n → bm i ≡ true)
    → count_below (fill bm s n false) m + n ≡ count_below bm m
unfolding fill
count_below-fill bm m s zero h free = omega arith
count_below-fill bm m s (suc n) h free = omega (
  arith,
  count_below-fill (update bm s false) m (s + 1) n (omega arith)
      (λ i p q. update_ne bm s i false (omega arith) ∙ free i (omega arith) (omega arith)),
  count_below-clear bm m s (omega arith) (free s (omega arith) (omega arith)),
)

pub count_below-add_one :
    (bm : Bitmap) (n : ℕ) → count_below bm (n + 1) ≡ (if bm n then 1 else 0) + count_below bm n
unfolding count_below
count_below-add_one bm n = let e : n + 1 ≡ suc n = omega arith in rw e refl

-- Clear bits do not count.
pub count_below-flat :
    (bm : Bitmap) (a n : ℕ)
    → ((i : ℕ) → a ≤ i → i < a + n → bm i ≡ false)
    → count_below bm (a + n) ≡ count_below bm a
count_below-flat bm a zero h = ap (count_below bm) (omega arith)
count_below-flat bm a (suc n) h =
    ap (count_below bm) (omega arith)
    ∙ count_below-add_one bm (a + n)
    ∙ rw (h (a + n) (omega arith) (omega arith))
        (omega (arith, count_below-flat bm a n (λ i p q. h i p (omega arith))))
