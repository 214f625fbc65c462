-- ===== src/VectorAllocator.antt =====
-- The allocator of dynamic interrupt vectors: src/kernel/arch/x86_64/interrupt/vector_allocator.cpp.
-- `g_vector_bitmap` is a map from the index of a vector to its bit; a set bit is an allocated vector.
pub mod Laws
pub mod Tests
use os.Base.{
  ℕ, zero, suc, ◌*◌, ◌+◌, ◌-◌, ◌/◌, ◌%◌, Bool, true, false, Option, none, some, ◌&&◌, ◌||◌, not,
  leb, ltb, ◌==◌, if◌then◌else◌,
}
use os.Bitmap.{Bitmap, read_bit, write_bit}

abbrev pub dynamic_irq_vector_base : ℕ
dynamic_irq_vector_base = 0x50

abbrev pub dynamic_irq_vector_limit : ℕ
dynamic_irq_vector_limit = 0xEF

-- `T_SYSCALL`
abbrev pub t_syscall : ℕ
t_syscall = 0x80

abbrev pub vector_index : ℕ → ℕ
vector_index vector = vector - dynamic_irq_vector_base

abbrev pub bitmap_get : Bitmap → ℕ → Bool
bitmap_get bm index = read_bit bm (index / 64) (index % 64)

abbrev pub bitmap_set : Bitmap → ℕ → Bitmap
bitmap_set bm index = write_bit bm (index / 64) (index % 64) true

abbrev pub bitmap_clear : Bitmap → ℕ → Bitmap
bitmap_clear bm index = write_bit bm (index / 64) (index % 64) false

-- `irq_vector_allocator_reset()`, which clears the words of the bitmap.
unfoldable pub irq_vector_allocator_reset : Bitmap → Bitmap
irq_vector_allocator_reset bm index =
    let count = dynamic_irq_vector_limit - dynamic_irq_vector_base + 1 in
    if ltb index ((count + 64 - 1) / 64 * 64) then false else bm index

unfoldable pub irq_vector_is_allocatable : ℕ → Bool
irq_vector_is_allocatable vector =
    leb dynamic_irq_vector_base vector
    && leb vector dynamic_irq_vector_limit
    && not (vector == t_syscall)

unfoldable pub irq_vector_is_allocated : Bitmap → ℕ → Bool
irq_vector_is_allocated bm vector =
    if not (irq_vector_is_allocatable vector) then false else bitmap_get bm (vector_index vector)

-- The loop of `irq_allocate_vector`: `r` candidates are left, from `candidate` on.
unfoldable pub find_vector : Bitmap → ℕ → ℕ → Option ℕ
find_vector bm zero candidate = none
find_vector bm (suc r) candidate =
    let rest = find_vector bm r (candidate + 1) in
    if not (irq_vector_is_allocatable candidate) || irq_vector_is_allocated bm candidate
    then rest
    else some candidate

abbrev pub take_vector : Bitmap → Option ℕ → Bitmap × Option ℕ
take_vector bm none = (bm, none)
take_vector bm (some vector) = (bitmap_set bm (vector_index vector), some vector)

-- `irq_allocate_vector(uint8_t& vector)`
unfoldable pub irq_allocate_vector : Bitmap → Bitmap × Option ℕ
irq_allocate_vector bm = take_vector bm (
    find_vector bm (dynamic_irq_vector_limit - dynamic_irq_vector_base + 1) dynamic_irq_vector_base)

-- `irq_reserve_vector(uint8_t vector)`
unfoldable pub irq_reserve_vector : Bitmap → ℕ → Bitmap × Bool
irq_reserve_vector bm vector =
    if not (irq_vector_is_allocatable vector) || irq_vector_is_allocated bm vector
    then (bm, false)
    else (bitmap_set bm (vector_index vector), true)

-- `irq_free_vector(uint8_t vector)`
unfoldable pub irq_free_vector : Bitmap → ℕ → Bitmap × Bool
irq_free_vector bm vector =
    if not (irq_vector_is_allocatable vector) || not (irq_vector_is_allocated bm vector)
    then (bm, false)
    else (bitmap_clear bm (vector_index vector), true)
