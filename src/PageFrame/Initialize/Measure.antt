-- ===== src/PageFrame/Initialize/Measure.antt =====
-- Which pages the loops over the memory map paint.
use os.Base.{
  ℕ, ◌/◌, ◌^◌, ◌≤◌, ◌<◌, ◌≡◌, refl, inl, inr, Bool, true, false, arith, List, [], ◌∷◌, ◌||◌, ◌&&◌,
  ltb, leb, if◌then◌else◌, Bool-cases, ◌∙◌, sym, false≢true,
}
use os.Bitmap.{Bitmap}
use os.PageFrame.{page_size}
use os.PageFrame.Initialize.{
  BootMemoryRegion, Measured, boot_memory_region_is_usable, align_up_page, align_down_page,
  region_end, measure_region, measure, paint_region, paint,
}
use os.PageFrame.Initialize.Paint.{paint_pages_lem}

-- The last page of a usable region that is painted, exclusive.
abbrev pub painted_end : ℕ → BootMemoryRegion → ℕ
painted_end memory_end b =
    let down = align_down_page (region_end b) in
    (if ltb memory_end down then memory_end else down) / page_size

-- Page `i` lies in a usable region.
unfoldable pub in_region : ℕ → BootMemoryRegion → ℕ → Bool
in_region memory_end b i =
    boot_memory_region_is_usable b
    && (leb (align_up_page b.physical_start / page_size) i && ltb i (painted_end memory_end b))

unfoldable pub in_some_region : ℕ → List BootMemoryRegion → ℕ → Bool
in_some_region memory_end [] i = false
in_some_region memory_end (b ∷ bs) i = in_region memory_end b i || in_some_region memory_end bs i

or_false : (b : Bool) → (b || false) ≡ b
or_false true = refl
or_false false = refl

or_assoc : (a b c : Bool) → ((a || b) || c) ≡ (a || (b || c))
or_assoc true b c = refl
or_assoc false b c = refl

paint_region_lem :
    (memory_end : ℕ) (bm : Bitmap) (b : BootMemoryRegion) (i : ℕ)
    → paint_region memory_end bm b i ≡ (bm i || in_region memory_end b i)
unfolding paint_region in_region
paint_region_lem memory_end bm b i = elim (Bool-cases (boot_memory_region_is_usable b)) [
  | inr u ↦ rw u (sym (or_false (bm i)))
  | inl u ↦
      elim (Bool-cases
        (leb (painted_end memory_end b) (align_up_page b.physical_start / page_size))) [
          | inl none_left ↦ rw (u, none_left) (ground arith)
          | inr some_left ↦
              rw (u, some_left)
                (paint_pages_lem bm (align_up_page b.physical_start / page_size)
                  (painted_end memory_end b) i (ground arith))
        ]
]

-- Painting the memory map sets exactly the pages of its usable regions, cut off at `memory_end`.
pub paint_lem :
    (memory_end : ℕ) (bm : Bitmap) (bs : List BootMemoryRegion) (i : ℕ)
    → paint memory_end bm bs i ≡ (bm i || in_some_region memory_end bs i)
unfolding paint in_some_region
paint_lem memory_end bm [] i = sym (or_false (bm i))
paint_lem memory_end bm (b ∷ bs) i =
    paint_lem memory_end (paint_region memory_end bm b) bs i
    ∙ rw (paint_region_lem memory_end bm b i) (or_assoc (bm i) (in_region memory_end b i) _)

pub in_some_region-lt :
    (memory_end : ℕ) (bs : List BootMemoryRegion) (i : ℕ)
    → in_some_region memory_end bs i ≡ true
    → i < memory_end / page_size
unfolding in_some_region in_region
in_some_region-lt memory_end [] i h = absurd (false≢true h)
in_some_region-lt memory_end (b ∷ bs) i h = ground (arith, in_some_region-lt memory_end bs i)

measure_region-lt :
    (trackable : ℕ) (m : Measured) (b : BootMemoryRegion)
    → m.memory_end_address < 2 ^ 64
    → (measure_region trackable m b).memory_end_address < 2 ^ 64
unfolding measure_region
measure_region-lt trackable m b h = ground arith

pub measure-lt :
    (trackable : ℕ) (m : Measured) (bs : List BootMemoryRegion)
    → m.memory_end_address < 2 ^ 64
    → (measure trackable m bs).memory_end_address < 2 ^ 64
unfolding measure
measure-lt trackable m [] h = h
measure-lt trackable m (b ∷ bs) h =
    measure-lt trackable (measure_region trackable m b) bs (measure_region-lt trackable m b h)

measure_region-le :
    (trackable : ℕ) (m : Measured) (b : BootMemoryRegion)
    → m.memory_end_address ≤ trackable
    → (measure_region trackable m b).memory_end_address ≤ trackable
unfolding measure_region
measure_region-le trackable m b h = ground arith

-- The loop keeps the end of memory within what the bitmap can track.
pub measure-le :
    (trackable : ℕ) (m : Measured) (bs : List BootMemoryRegion)
    → m.memory_end_address ≤ trackable
    → (measure trackable m bs).memory_end_address ≤ trackable
unfolding measure
measure-le trackable m [] h = h
measure-le trackable m (b ∷ bs) h =
    measure-le trackable (measure_region trackable m b) bs (measure_region-le trackable m b h)
