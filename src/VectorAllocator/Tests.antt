-- ===== src/VectorAllocator/Tests.antt =====
-- The vector allocator where the vectors 0x50 and 0x51 are taken.
use os.Base.{ℕ, ◌≡◌, ◌<◌, refl, ◌⊎◌, none, some, ltb}
use os.Bitmap.{Bitmap}
use os.VectorAllocator.{
  irq_allocate_vector, irq_vector_is_allocated, find_vector, irq_vector_is_allocatable,
}
use os.VectorAllocator.Laws.{irq_allocate_vector_lem, IsFree, OnlyAdds}

abbrev two_taken : Bitmap
two_taken i = ltb i 2

third_vector : (irq_allocate_vector two_taken).1 ≡ some 0x52
unfolding irq_allocate_vector find_vector irq_vector_is_allocatable irq_vector_is_allocated
third_vector = refl

irq_allocate_vector_lem_example :
    let (bm', result) = irq_allocate_vector two_taken in
    ((result ≡ none) × (bm' ≡ two_taken) × ((w : ℕ) → ¬ IsFree two_taken w))
    ⊎ ((v : ℕ) × (result ≡ some v)
        × IsFree two_taken v
        × ((w : ℕ) → w < v → ¬ IsFree two_taken w)
        × OnlyAdds two_taken v bm')
irq_allocate_vector_lem_example = irq_allocate_vector_lem two_taken
