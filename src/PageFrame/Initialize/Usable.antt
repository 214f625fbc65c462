-- ===== src/PageFrame/Initialize/Usable.antt =====
-- Where the painted pages lie: inside the usable regions of the memory map.
use os.Base.{
  ℕ, ◌+◌, ◌-◌, ◌*◌, ◌^◌, ◌≤◌, ◌<◌, ◌≡◌, ◌⊎◌, inl, inr, true, arith, List, [], ◌∷◌, Bool-cases,
  false≢true,
}
use os.PageFrame.{page_size}
use os.PageFrame.Initialize.{BootMemoryRegion, boot_memory_region_is_usable}
use os.PageFrame.Initialize.Measure.{in_region, in_some_region}

-- Every region of the memory map ends, rounded up to a page, within 64 bits.
abbrev pub FitsMemory : List BootMemoryRegion → Type 0
FitsMemory [] = Unit {0}
FitsMemory (b ∷ bs) = (b.physical_start + b.length + (page_size - 1) < 2 ^ 64) × FitsMemory bs

-- All bytes of page `i` belong to region `b`.
abbrev pub IsInside : BootMemoryRegion → ℕ → Type 0
IsInside b i =
    (b.physical_start ≤ i * page_size) × (i * page_size + page_size ≤ b.physical_start + b.length)

-- All bytes of page `i` belong to one usable region of the memory map.
abbrev pub IsUsablePage : List BootMemoryRegion → ℕ → Type 0
IsUsablePage [] i = ⊥
IsUsablePage (b ∷ bs) i =
    ((boot_memory_region_is_usable b ≡ true) × IsInside b i) ⊎ IsUsablePage bs i

in_region-IsInside :
    (memory_end : ℕ) (b : BootMemoryRegion) (i : ℕ)
    → b.physical_start + b.length + (page_size - 1) < 2 ^ 64
    → in_region memory_end b i ≡ true
    → (boot_memory_region_is_usable b ≡ true) × IsInside b i
unfolding in_region
in_region-IsInside memory_end b i fits h = ground arith

pub in_some_region-IsUsablePage :
    (memory_end : ℕ) (bs : List BootMemoryRegion) (i : ℕ)
    → FitsMemory bs
    → in_some_region memory_end bs i ≡ true
    → IsUsablePage bs i
unfolding in_some_region
in_some_region-IsUsablePage memory_end [] i fits h = absurd (false≢true h)
in_some_region-IsUsablePage memory_end (b ∷ bs) i fits h =
    elim (Bool-cases (in_region memory_end b i)) [
      | inl e ↦ inl (in_region-IsInside memory_end b i fits.0 e)
      | inr e ↦ inr (in_some_region-IsUsablePage memory_end bs i fits.1 (ground arith))
    ]
