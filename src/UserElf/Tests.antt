-- ===== src/UserElf/Tests.antt =====
-- The image checks on a program with one segment of 120 bytes in the file and a page in memory.
use os.Base.{ℕ, ◌<◌, ◌≡◌, ◌↔◌, refl, true, none, some, ◌==◌, if◌then◌else◌, arith}
use os.UserElf.{
  Image, Elf64Header, Elf64ProgramHeader, read_field, elf_header_at, header_from_image,
  plan_load_segment, program_header_from_image, entry_loop, validate_user_elf_image,
  validate_executable_header,
}
use os.UserElf.Segment.{fits, plan_of, plan_load_segment_lem}
use os.UserElf.Fields.{IsBytes}
use os.UserElf.Entry.{Passes, IsEntry, validate_user_elf_image_lem}

abbrev image : Image
image i =
    if i == 0
    then 0x7F
    else if i == 1
    then 0x45
    else if i == 2
    then 0x4C
    else if i == 3
    then 0x46
    else if i == 16
    then 2
    else if i == 18
    then 62
    else if i == 24
    then 0x10
    else if i == 26
    then 0x40
    else if i == 28
    then 0x80
    else if i == 32
    then 64
    else if i == 54
    then 56
    else if i == 56
    then 1
    else if i == 64
    then 1
    else if i == 68
    then 5
    else if i == 82
    then 0x40
    else if i == 84
    then 0x80
    else if i == 96
    then 120
    else if i == 105
    then 0x10
    else 0

image-IsBytes : IsBytes image
image-IsBytes i = ground arith

abbrev header : Elf64Header
header = elf_header_at image

header_of_image : header_from_image (some image) 120 ≡ some header
unfolding header_from_image read_field
header_of_image = refl

accepted : validate_user_elf_image header (some image) 120 ≡ true
unfolding validate_user_elf_image entry_loop program_header_from_image plan_load_segment read_field
accepted = refl

validate_user_elf_image_lem_example : (validate_user_elf_image header (some image) 120 ≡ true) ↔ (
    (validate_executable_header header ≡ true)
    × ((k : ℕ) × (k < header.phnum)
        × IsEntry image 120 header k
        × ((j : ℕ) → j < k → Passes image 120 header j)))
validate_user_elf_image_lem_example =
    validate_user_elf_image_lem image 120 header image-IsBytes (omega arith) header_of_image

abbrev segment : Elf64ProgramHeader
segment = record {
  type = 1;
  flags = 5;
  offset = 0;
  vaddr = 0x8000400000;
  paddr = 0;
  filesz = 120;
  memsz = 0x1001;
  align = 4096;
}

plan_load_segment_lem_example :
    plan_load_segment segment 120 ≡ (if fits segment 120 then some (plan_of segment) else none)
plan_load_segment_lem_example =
    plan_load_segment_lem segment 120 (omega arith) (omega arith) (omega arith) (omega arith)
      (omega arith)
