-- ===== src/Cpio/Bounds.antt =====
-- Where the parts of an entry lie that `for_each_cpio_newc_file` accepts.
use os.Base.{ℕ, ◌+◌, ◌%◌, ◌≤◌, ◌<◌, ◌≡◌, some, arith}
use os.Cpio.{
  Archive, Entry, read_entry, place_entry, checked_add, align_up_checked, header_size, next_offset,
}

pub checked_add-some : (left right : ℕ) {n : ℕ} → checked_add left right ≡ some n → n ≡ left + right
unfolding checked_add
checked_add-some left right h = ground (arith, h)

pub align_up-some :
    (value : ℕ) {n : ℕ}
    → align_up_checked value 4 ≡ some n
    → (value ≤ n) × (n < value + 4) × (n % 4 ≡ 0)
unfolding align_up_checked checked_add
align_up-some value h = ground (arith, h)

-- An accepted entry lies after its header and within the archive.
pub record IsInside (archive_size offset : ℕ) (e : Entry) : Type 0 where
  pub after_header : offset + header_size < e.file_offset
  pub size : e.file_end ≡ e.file_offset + e.file_size
  pub within : e.file_end ≤ archive_size

pub read_entry-IsInside :
    (archive : Archive) (archive_size offset : ℕ) {e : Entry}
    → read_entry archive archive_size offset ≡ some e
    → IsInside archive_size offset e
unfolding read_entry place_entry checked_add align_up_checked
read_entry-IsInside archive archive_size offset {e} h = record {
  after_header = ground (arith, h);
  size = ground (arith, h);
  within = ground (arith, h);
}

pub next_offset-lt : (offset : ℕ) (e : Entry) {n : ℕ} → next_offset offset e ≡ some n → offset < n
unfolding next_offset align_up_checked checked_add
next_offset-lt offset e h = ground (arith, h)
