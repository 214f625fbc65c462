-- ===== src/UserElf.antt =====
-- Which ELF images the kernel loads for a user program, and where their segments go:
-- src/kernel/proc/user_elf.cpp and src/common/elf/elf64.hpp. An image is a function from offsets to
-- bytes, or `none` for a null pointer; the headers are read at their offsets, lowest byte first.
pub mod Segment
pub mod Fields
pub mod Entry
pub mod Tests
use os.Base.{
  ℕ, zero, suc, ◌+◌, ◌-◌, ◌*◌, ◌/◌, ◌%◌, ◌^◌, Bool, true, false, Option, none, some, ◌&&◌, ◌||◌,
  not, leb, ltb, ◌==◌, if◌then◌else◌, guard, ◌>>=◌, ◌>>◌,
}
use os.PageFrame.{page_size}
use os.VirtualMemory.{PageFlags}
use os.UserAddress.{user_space_base, user_stack_top}

abbrev pub Image : Type 0
Image = ℕ → ℕ

-- The fields of the header that the code reads.
pub record Elf64Header : Type 0 where
  pub magic : ℕ
  pub type : ℕ
  pub machine : ℕ
  pub entry : ℕ
  pub phoff : ℕ
  pub phentsize : ℕ
  pub phnum : ℕ

pub record Elf64ProgramHeader : Type 0 where
  pub type : ℕ
  pub flags : ℕ
  pub offset : ℕ
  pub vaddr : ℕ
  pub paddr : ℕ
  pub filesz : ℕ
  pub memsz : ℕ
  pub align : ℕ

pub record LoadSegmentPlan : Type 0 where
  pub segment_start : ℕ
  pub segment_end : ℕ
  pub page_flags : PageFlags

-- A field of `n` bytes at `offset`.
unfoldable pub read_field : Image → ℕ → ℕ → ℕ
read_field image offset zero = 0
read_field image offset (suc n) = image offset + 256 * read_field image (offset + 1) n

abbrev pub elf_header_at : Image → Elf64Header
elf_header_at image = record {
  magic = read_field image 0 4;
  type = read_field image 16 2;
  machine = read_field image 18 2;
  entry = read_field image 24 8;
  phoff = read_field image 32 8;
  phentsize = read_field image 54 2;
  phnum = read_field image 56 2;
}

abbrev pub program_header_at : Image → ℕ → Elf64ProgramHeader
program_header_at image offset = record {
  type = read_field image offset 4;
  flags = read_field image (offset + 4) 4;
  offset = read_field image (offset + 8) 8;
  vaddr = read_field image (offset + 16) 8;
  paddr = read_field image (offset + 24) 8;
  filesz = read_field image (offset + 32) 8;
  memsz = read_field image (offset + 40) 8;
  align = read_field image (offset + 48) 8;
}

-- `checked_add(left, right, result)`
abbrev pub checked_add : ℕ → ℕ → Option ℕ
checked_add left right =
    if ltb (2 ^ 64 - 1 - right) left then none else some ((left + right) % 2 ^ 64)

-- `align_up_checked(value, kPageSize, result)`
abbrev pub align_up_checked : ℕ → Option ℕ
align_up_checked value = do
  biased ← checked_add value (page_size - 1)
  some (biased / page_size * page_size)

-- `header_from_image(image, image_size)`
unfoldable pub header_from_image : Option Image → ℕ → Option Elf64Header
header_from_image none image_size = none
header_from_image (some image) image_size =
    let header = elf_header_at image in
    if ltb image_size 64
    then none
    else if not (header.magic == 0x464C457F)
        || leb image_size header.phoff
        || not (header.phentsize == 56)
    then none
    else some header

-- `program_header_from_image(header, image, image_size, index)`
unfoldable pub program_header_from_image :
    Elf64Header → Option Image → ℕ → ℕ → Option Elf64ProgramHeader
program_header_from_image header none image_size index = none
program_header_from_image header (some image) image_size index = do
  let index_offset = index * header.phentsize % 2 ^ 64
  guard (not (not (0 == header.phentsize) && not (index_offset / header.phentsize == index)))
  program_offset ← checked_add header.phoff index_offset
  program_end ← checked_add program_offset 56
  guard (leb program_end image_size)
  some (program_header_at image program_offset)

-- `loadable_segment_bounds_valid(program, image_size)`
abbrev pub loadable_segment_bounds_valid : Elf64ProgramHeader → ℕ → Option (Unit {0})
loadable_segment_bounds_valid program image_size = do
  guard (leb program.filesz program.memsz)
  file_end ← checked_add program.offset program.filesz
  guard (leb file_end image_size)

-- `loadable_segment_raw_end(program, raw_end)`
abbrev pub loadable_segment_raw_end : Elf64ProgramHeader → Option ℕ
loadable_segment_raw_end program = checked_add program.vaddr program.memsz

-- `stack_guard_base()`, below the 16 pages of the stack and the guard page.
abbrev pub stack_guard_base : ℕ
stack_guard_base = user_stack_top - (16 + 1) * page_size

-- `stack_base()`
abbrev pub stack_base : ℕ
stack_base = user_stack_top - 16 * page_size

-- `initial_stack_pointer()`
abbrev pub initial_stack_pointer : ℕ
initial_stack_pointer = user_stack_top / 16 * 16 - 8

-- `validate_executable_header(header)`
abbrev pub validate_executable_header : Elf64Header → Bool
validate_executable_header header = (header.type == 2) && (header.machine == 62)

abbrev pub is_loadable : Elf64ProgramHeader → Bool
is_loadable program = (program.type == 1) && not (0 == program.memsz)

abbrev pub segment_flags : ℕ → PageFlags
segment_flags flags = record {
  present = true;
  write = flags / 2 % 2 == 1;
  user = true;
  no_execute = not (flags % 2 == 1);
}

-- The checks of `plan_load_segment` on the pages of a segment, and the plan.
abbrev pub plan_pages : Elf64ProgramHeader → ℕ → Option LoadSegmentPlan
plan_pages program segment_end =
    let segment_start = program.vaddr / page_size * page_size in
    if ltb segment_start user_space_base
      || ltb stack_guard_base segment_end
      || not (segment_start / 2 ^ 39 % 512 == 1)
    then none
    else if leb segment_end segment_start
    then none
    else some record {
      segment_start = segment_start;
      segment_end = segment_end;
      page_flags = segment_flags program.flags;
    }

-- `plan_load_segment(program, image_size, plan)`
unfoldable pub plan_load_segment : Elf64ProgramHeader → ℕ → Option LoadSegmentPlan
plan_load_segment program image_size = do
  guard (is_loadable program)
  loadable_segment_bounds_valid program image_size
  raw_segment_end ← loadable_segment_raw_end program
  segment_end ← align_up_checked raw_segment_end
  plan_pages program segment_end

-- The loop of `entry_point_in_loadable_segment`: `r` headers are left, from `index` on.
unfoldable pub entry_loop : Elf64Header → Option Image → ℕ → ℕ → ℕ → Bool
entry_loop header image image_size index zero = false
entry_loop header image image_size index (suc r) =
    let rest = entry_loop header image image_size (index + 1) r in
    elim (program_header_from_image header image image_size index) [
      | none ↦ false
      | some program ↦
          if not (is_loadable program) then rest else elim (plan_load_segment program image_size) [
            | none ↦ false
            | some plan ↦ elim (loadable_segment_raw_end program) [
              | none ↦ false
              | some raw_segment_end ↦
                  if leb program.vaddr header.entry && ltb header.entry raw_segment_end
                  then true
                  else rest
            ]
          ]
    ]

-- `entry_point_in_loadable_segment(header, image, image_size)`
abbrev pub entry_point_in_loadable_segment : Elf64Header → Option Image → ℕ → Bool
entry_point_in_loadable_segment header image image_size =
    entry_loop header image image_size 0 header.phnum

-- `validate_user_elf_image(header, image, image_size)`
unfoldable pub validate_user_elf_image : Elf64Header → Option Image → ℕ → Bool
validate_user_elf_image header image image_size =
    validate_executable_header header && entry_point_in_loadable_segment header image image_size
