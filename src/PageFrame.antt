-- ===== src/PageFrame.antt =====
-- src/kernel/mm/page_frame.hpp and page_frame.cpp: the bitmap allocator of physical pages. A set bit is
-- a free page. `bool` methods with an out parameter return the new container and an `Option`.
-- The lock `g_page_frames_lock` makes each method one step.
pub mod Inv
pub mod Single
pub mod Run
pub mod Release
pub mod Reserve
pub mod Initialize
pub mod Tests
use os.Base.{
  ℕ, zero, suc, ◌+◌, ◌-◌, ◌*◌, ◌/◌, ◌%◌, ◌^◌, Bool, true, false, Option, none, some, ◌||◌, not,
  if◌then◌else◌, ltb, leb, ◌==◌,
}
use os.Bitmap.{Bitmap, read_bit, write_bit}

abbrev pub page_size : ℕ
page_size = 4096

pub record PageFrameContainer : Type 0 where
  pub memory_size : ℕ
  pub memory_end_address : ℕ
  pub page_count : ℕ
  pub free_page_count : ℕ
  pub bitmap : Bitmap
  pub bitmap_physical_address : ℕ
  pub bitmap_size : ℕ
  pub bitmap_limit : ℕ
  pub initialized : Bool

-- `address = ipage << 12`
abbrev pub page_address : ℕ → ℕ
page_address ipage = (ipage * page_size) % 2 ^ 64

pub set_free : Bitmap → ℕ → Bitmap
set_free bm ipage = write_bit bm (ipage / 64) (ipage % 64) true

pub set_busy : Bitmap → ℕ → Bitmap
set_busy bm ipage = write_bit bm (ipage / 64) (ipage % 64) false

pub is_free : Bitmap → ℕ → Bool
is_free bm ipage = read_bit bm (ipage / 64) (ipage % 64)

-- `if(free_page_count_ > 0) { --free_page_count_; }`: `-` stops at 0.
abbrev pub count_down : ℕ → ℕ
count_down n = if ltb 0 n then n - 1 else n

-- `*p`: whether one of the bits `b`, ..., `b + r - 1` of word `q` is set.
pub word_nonzero : Bitmap → ℕ → ℕ → ℕ → Bool
word_nonzero bm q b zero = false
word_nonzero bm q b (suc r) = read_bit bm q b || word_nonzero bm q (b + 1) r

-- `while(val)`: the lowest set bit of word `q` from bit `b` on; `r` bits are left in `val`.
pub scan_word : Bitmap → ℕ → ℕ → ℕ → Option ℕ
scan_word bm q b zero = none
scan_word bm q b (suc r) =
    let rest = scan_word bm q (b + 1) r in if read_bit bm q b then some (64 * q + b) else rest

-- `while(p < bitmap_end)`: `r` words are left, from word `q` on.
pub scan_words : Bitmap → ℕ → ℕ → Option ℕ
unfolding word_nonzero scan_word
scan_words bm q zero = none
scan_words bm q (suc r) = elim (if word_nonzero bm q 0 64 then scan_word bm q 0 64 else none) [
  | some ipage ↦ some ipage
  | none ↦ scan_words bm (q + 1) r
]

pub allocate_at : PageFrameContainer → Option ℕ → PageFrameContainer × Option ℕ
unfolding set_busy
allocate_at c none = (c, none)
allocate_at c (some ipage) = (
  record c { bitmap = set_busy c.bitmap ipage; free_page_count = count_down c.free_page_count },
  some (page_address ipage),
)

-- `allocate(uint64_t& address)`
unfoldable pub allocate : PageFrameContainer → PageFrameContainer × Option ℕ
unfolding allocate_at scan_words
allocate c =
    if not c.initialized then (c, none) else allocate_at c (scan_words c.bitmap 0 c.bitmap_size)

-- The loop of `allocate(address, count)`: `r` pages are left, from page `i` on. The result is
-- `run_start` of the run that page `i` completes.
pub scan_run : Bitmap → ℕ → ℕ → ℕ → ℕ → ℕ → Option ℕ
unfolding is_free
scan_run bm page_count count zero i run_start = none
scan_run bm page_count count (suc r) i run_start = elim (is_free bm i) [
  | true ↦
      let start = (if run_start == page_count then i else run_start) in
      let rest = scan_run bm page_count count r (i + 1) start in
      if i - start + 1 == count then some start else rest
  | false ↦ scan_run bm page_count count r (i + 1) page_count
]

-- `for(j = run_start; j <= i; ++j) set_busy(j)`
pub set_busy_range : Bitmap → ℕ → ℕ → Bitmap
unfolding set_busy
set_busy_range bm j zero = bm
set_busy_range bm j (suc n) = set_busy_range (set_busy bm j) (j + 1) n

pub allocate_run_at : PageFrameContainer → ℕ → Option ℕ → PageFrameContainer × Option ℕ
unfolding set_busy_range
allocate_run_at c count none = (c, none)
allocate_run_at c count (some start) = (
  record c {
    bitmap = set_busy_range c.bitmap start count;
    free_page_count =
        if leb count c.free_page_count then c.free_page_count - count else c.free_page_count;
  },
  some (page_address start),
)

-- `allocate(uint64_t& address, unsigned count)`
unfoldable pub allocate_run : PageFrameContainer → ℕ → PageFrameContainer × Option ℕ
unfolding allocate_run_at scan_run
allocate_run c count =
    if not c.initialized
    then (c, none)
    else if count == 0
    then (c, none)
    else allocate_run_at c count (scan_run c.bitmap c.page_count count c.page_count 0 c.page_count)

-- `free(uint64_t address)`
unfoldable pub free : PageFrameContainer → ℕ → PageFrameContainer × Bool
unfolding set_free is_free
free c address =
    if not c.initialized
    then (c, false)
    else if not (address % page_size == 0)
    then (c, false)
    else if not (ltb (address / page_size) c.page_count)
    then (c, false)
    else if is_free c.bitmap (address / page_size)
    then (c, false)
    else (
      record c {
        bitmap = set_free c.bitmap (address / page_size);
        free_page_count = c.free_page_count + 1;
      },
      true,
    )

pub reserve_page : PageFrameContainer → ℕ → PageFrameContainer
unfolding set_busy is_free
reserve_page c ipage =
    if is_free c.bitmap ipage
    then record c {
      bitmap = set_busy c.bitmap ipage;
      free_page_count = count_down c.free_page_count;
    }
    else c

-- `for(ipage = start_page; ipage < end_page; ++ipage)`, with `r` pages left.
pub reserve_pages : PageFrameContainer → ℕ → ℕ → PageFrameContainer × Bool
unfolding reserve_page
reserve_pages c ipage zero = (c, true)
reserve_pages c ipage (suc r) = elim (ltb ipage c.page_count) [
  | false ↦ (c, false)
  | true ↦ reserve_pages (reserve_page c ipage) (ipage + 1) r
]

-- `(address + length + kPageSize - 1) >> 12`, in 64 bits.
abbrev pub range_end_page : ℕ → ℕ → ℕ
range_end_page address length = ((address + length + page_size - 1) % 2 ^ 64) / page_size

-- `reserve_range(uint64_t address, uint64_t length)`
pub reserve_range : PageFrameContainer → ℕ → ℕ → PageFrameContainer × Bool
reserve_range c address length =
    if not c.initialized || (length == 0)
    then (c, false)
    else let start_page = address / page_size in
      let end_page = range_end_page address length in
      if leb end_page start_page
      then (c, true)
      else reserve_pages c start_page (end_page - start_page)

-- `reserve_tracked_physical_range` of src/kernel/mm/boot_reserve.cpp, whose result is discarded.
pub reserve_tracked_physical_range : PageFrameContainer → ℕ → ℕ → PageFrameContainer
reserve_tracked_physical_range c physical_start length =
    if (length == 0) || leb c.memory_end_address physical_start
    then c
    else let sum = (physical_start + length) % 2 ^ 64 in
      let clamped_end = (if ltb sum c.memory_end_address then sum else c.memory_end_address) in
      if ltb physical_start clamped_end
      then (reserve_range c physical_start (clamped_end - physical_start)).0
      else c
