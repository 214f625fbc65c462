-- ===== src/PageFrame/Initialize.antt =====
-- `PageFrameContainer::initialize` of src/kernel/mm/page_frame.cpp, loop by loop. A word mask is a
-- predicate on the 64 bit positions. The kernel's own physical range is fixed by the build
-- (cmake/templates/kernel_layout.hpp.in), so its ends are parameters.
pub mod Paint
pub mod Count
pub mod Measure
pub mod Usable
pub mod Marking
pub mod Ready
pub mod Tests
use os.Base.{
  ℕ, zero, suc, ◌+◌, ◌-◌, ◌*◌, ◌/◌, ◌%◌, ◌^◌, Bool, true, false, Option, none, some, ◌>>=◌, List,
  [], ◌∷◌, ◌||◌, ◌&&◌, not, if◌then◌else◌, ltb, leb, ◌==◌,
}
use os.Bitmap.{Bitmap, read_bit}
use os.PageFrame.{PageFrameContainer, page_size, is_free, set_busy, count_down}

pub data BootMemoryType : Type 0 where
  usable reserved acpi_reclaimable acpi_nvs bad_memory mmio framebuffer : BootMemoryType
  kernel_image bootloader_reclaimable : BootMemoryType

pub record BootMemoryRegion : Type 0 where
  pub physical_start : ℕ
  pub length : ℕ
  pub type : BootMemoryType

pub boot_memory_region_is_usable : BootMemoryRegion → Bool
boot_memory_region_is_usable b = elim b.type [ usable ↦ true | _ ↦ false ]

abbrev pub align_up_page : ℕ → ℕ
align_up_page value = ((value + page_size - 1) % 2 ^ 64) / page_size * page_size

abbrev pub align_down_page : ℕ → ℕ
align_down_page value = value / page_size * page_size

-- `b.physical_start + b.length`
abbrev pub region_end : BootMemoryRegion → ℕ
region_end b = (b.physical_start + b.length) % 2 ^ 64

abbrev pub max_trackable_end : ℕ → ℕ
max_trackable_end bitmap_limit = ((bitmap_limit * 64) % 2 ^ 64 * page_size) % 2 ^ 64

pub record Measured : Type 0 where
  pub memory_size : ℕ
  pub memory_end_address : ℕ

-- One round of the first loop over the memory map.
pub measure_region : ℕ → Measured → BootMemoryRegion → Measured
unfolding boot_memory_region_is_usable
measure_region trackable m b =
    if not (boot_memory_region_is_usable b)
    then m
    else let clipped_start = align_up_page b.physical_start in
      let down = align_down_page (region_end b) in
      let clipped_end = (if ltb trackable down then trackable else down) in
      if leb clipped_end clipped_start then m else record {
        memory_size = (m.memory_size + (clipped_end - clipped_start)) % 2 ^ 64;
        memory_end_address =
            if ltb m.memory_end_address clipped_end then clipped_end else m.memory_end_address;
      }

pub measure : ℕ → Measured → List BootMemoryRegion → Measured
unfolding measure_region
measure trackable m [] = m
measure trackable m (b ∷ bs) = measure trackable (measure_region trackable m b) bs

abbrev pub Mask : Type 0
Mask = ℕ → Bool

-- `(1ull << n) - 1`
abbrev pub low_mask : ℕ → Mask
low_mask n b = ltb b n

abbrev pub all_ones : Mask
all_ones b = true

abbrev pub shift_left : Mask → ℕ → Mask
shift_left m k b = leb k b && m (b - k)

-- `m >> k`: bits shifted in from above are clear.
abbrev pub shift_right : Mask → ℕ → Mask
shift_right m k b = ltb (b + k) 64 && m (b + k)

-- `bitmap_[q] |= mask`
pub or_word : Bitmap → ℕ → Mask → Bitmap
or_word bm q mask i = bm i || ((i / 64 == q) && mask (i % 64))

-- `memsetq(bitmap_ + q, ~0, 8 * n)`
pub set_words : Bitmap → ℕ → ℕ → Bitmap
set_words bm q n i = bm i || (leb q (i / 64) && ltb (i / 64) (q + n))

-- `memsetq(bitmap_, 0, n * 8)`
pub clear_words : Bitmap → ℕ → Bitmap
clear_words bm n i = if ltb (i / 64) n then false else bm i

-- `ifirst == ilast`: the range lies in one word.
pub paint_one_word : Bitmap → ℕ → ℕ → Bitmap
unfolding or_word
paint_one_word bm start_page end_page =
    let first_bit = start_page % 64 in
    let last_bit = (end_page - 1) % 64 in
    let bit_count = last_bit - first_bit + 1 in
    or_word bm (start_page / 64)
      (if 64 == bit_count then all_ones else shift_left (low_mask bit_count) first_bit)

-- The first word from `start_page` on, the words between, the last word up to `end_page`.
pub paint_many_words : Bitmap → ℕ → ℕ → Bitmap
unfolding or_word set_words
paint_many_words bm start_page end_page =
    let ifirst = start_page / 64 in
    let ilast = (end_page - 1) / 64 in
    let first = or_word bm ifirst (shift_left all_ones (start_page % 64)) in
    let middle =
      (if ltb (ifirst + 1) ilast
        then set_words first (ifirst + 1) (ilast - ifirst - 1)
        else first) in
    let last_bits = end_page % 64 in
    or_word middle ilast
      (if 0 == last_bits then all_ones else shift_right all_ones (64 - last_bits))

-- The pages `start_page`, ..., `end_page - 1` painted free, a word at a time.
pub paint_pages : Bitmap → ℕ → ℕ → Bitmap
paint_pages bm start_page end_page =
    if start_page / 64 == (end_page - 1) / 64
    then paint_one_word bm start_page end_page
    else paint_many_words bm start_page end_page

-- One round of the second loop over the memory map.
pub paint_region : ℕ → Bitmap → BootMemoryRegion → Bitmap
paint_region memory_end_address bm b =
    if not (boot_memory_region_is_usable b)
    then bm
    else let start_page = align_up_page b.physical_start / page_size in
      let down = align_down_page (region_end b) in
      let end_page =
        (if ltb memory_end_address down then memory_end_address else down) / page_size in
      if leb end_page start_page then bm else paint_pages bm start_page end_page

pub paint : ℕ → Bitmap → List BootMemoryRegion → Bitmap
paint memory_end_address bm [] = bm
paint memory_end_address bm (b ∷ bs) =
    paint memory_end_address (paint_region memory_end_address bm b) bs

pub record Counter : Type 0 where
  pub num_pages : ℕ
  pub ipage : ℕ

-- `while(bit_count-- && ipage < page_count_)`: `r` bits are left, from bit `b` of word `q` on.
pub count_word : Bitmap → ℕ → ℕ → ℕ → ℕ → Counter → Counter
count_word bm page_count q b zero s = s
count_word bm page_count q b (suc r) s = elim (ltb s.ipage page_count) [
  | true ↦
      count_word bm page_count q (b + 1) r (record {
        num_pages = s.num_pages + (if read_bit bm q b then 1 else 0);
        ipage = s.ipage + 1;
      })
  | false ↦ s
]

pub any_bit : Bitmap → ℕ → ℕ → ℕ → Bool
any_bit bm q b zero = false
any_bit bm q b (suc r) = read_bit bm q b || any_bit bm q (b + 1) r

-- The count of free pages: `r` words are left, from word `q` on. A zero word is skipped, and
-- `ipage` does not move over it.
pub count_words : Bitmap → ℕ → ℕ → ℕ → Counter → Counter
count_words bm page_count q zero s = s
count_words bm page_count q (suc r) s =
    count_words bm page_count (q + 1) r
      (if any_bit bm q 0 64 then count_word bm page_count q 0 64 s else s)

pub mark_busy_counted : PageFrameContainer → ℕ → PageFrameContainer
mark_busy_counted c ipage =
    if ltb ipage c.page_count && is_free c.bitmap ipage
    then record c {
      bitmap = set_busy c.bitmap ipage;
      free_page_count = count_down c.free_page_count;
    }
    else c

-- `for(vp = from; vp < to; vp += kPageSize)` on fuel; `none` where the fuel ends before the loop does.
pub mark_busy_loop : ℕ → PageFrameContainer → ℕ → ℕ → Option PageFrameContainer
mark_busy_loop zero c vp to = none
mark_busy_loop (suc fuel) c vp to = elim (ltb vp to) [
  | true ↦ mark_busy_loop fuel (mark_busy_counted c (vp / page_size)) ((vp + page_size) % 2 ^ 64) to
  | false ↦ some c
]

-- Each round moves `vp` by a page, so that many rounds reach `to`, unless `vp` wraps around before
-- it does: the loop then goes on for ever.
pub mark_busy_range : PageFrameContainer → ℕ → ℕ → Option PageFrameContainer
mark_busy_range c from to = mark_busy_loop (suc (to / page_size + 1)) c from to

abbrev pub early_reserved_physical_end : ℕ
early_reserved_physical_end = 0x20000

module _ (kernel_reserved_start kernel_reserved_end : ℕ) where
  pub mark_reserved : PageFrameContainer → Option PageFrameContainer
  mark_reserved c = do
    c1 ←
        mark_busy_range c c.bitmap_physical_address
          ((c.bitmap_physical_address + (c.bitmap_limit * 8) % 2 ^ 64) % 2 ^ 64)
    c2 ← mark_busy_range c1 0 early_reserved_physical_end
    mark_busy_range c2 kernel_reserved_start kernel_reserved_end

  -- What follows once the bitmap fits: clear, paint, count, reserve.
  pub build : PageFrameContainer → List BootMemoryRegion → Option PageFrameContainer
  build c regions =
      let painted = paint c.memory_end_address (clear_words c.bitmap c.bitmap_size) regions in
      let counted =
        count_words painted c.page_count 0 c.bitmap_size (record { num_pages = 0; ipage = 0 }) in
      mark_reserved (record c { bitmap = painted; free_page_count = counted.num_pages })
      >>= λ marked. some (record marked { initialized = true })

  -- `initialize(memory_regions, bitmap_address, bitmap_limit)`; `none` where it does not return.
  pub initialize :
      PageFrameContainer → List BootMemoryRegion → ℕ → ℕ → Option (PageFrameContainer × Bool)
  initialize c regions bitmap_address bitmap_limit =
      if c.initialized
      then some (c, false)
      else let m =
          measure (max_trackable_end bitmap_limit)
            (record { memory_size = 0; memory_end_address = 0 }) regions in
        let measured = record c {
          memory_size = m.memory_size;
          memory_end_address = m.memory_end_address;
          bitmap_physical_address = bitmap_address;
          bitmap_limit = bitmap_limit;
        } in
        if not (ltb 0 m.memory_size && ltb 0 m.memory_end_address)
        then some (measured, false)
        else let page_count = m.memory_end_address / page_size in
          let sized = record measured {
            page_count = page_count;
            bitmap_size = ((page_count + 7) / 8 + 7) / 8;
          } in
          if leb sized.bitmap_size bitmap_limit
          then (build sized regions >>= λ built. some (built, true))
          else some (sized, false)
