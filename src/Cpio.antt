-- ===== src/Cpio.antt =====
-- The initrd archive: src/kernel/fs/cpio_newc.cpp. `archive i` is the byte at offset `i` of the
-- archive. A C string is the list of the bytes before its null byte.
pub mod Bounds
pub mod Local
pub mod Files
pub mod Slices
pub mod Path
pub mod Written
pub mod Contents
pub mod Tests
use os.Base.{
  ℕ, zero, suc, ◌+◌, ◌-◌, ◌*◌, ◌/◌, ◌%◌, ◌^◌, Bool, true, false, Option, none, some, List, [], ◌∷◌,
  ◌&&◌, not, ltb, leb, ◌==◌, if◌then◌else◌, guard, ◌>>=◌, ◌>>◌,
}

abbrev pub Archive : Type 0
Archive = ℕ → ℕ

-- `sizeof(CpioNewcHeader)` and the offsets of the fields that are read.
abbrev pub header_size : ℕ
header_size = 110

abbrev pub mode_offset : ℕ
mode_offset = 14

abbrev pub filesize_offset : ℕ
filesize_offset = 54

abbrev pub namesize_offset : ℕ
namesize_offset = 94

unfoldable pub checked_add : ℕ → ℕ → Option ℕ
checked_add left right = if ltb (2 ^ 64 - 1 - right) left then none else some (left + right)

-- The alignment is a power of 2, so `biased & ~(alignment - 1)` takes the remainder away.
unfoldable pub align_up_checked : ℕ → ℕ → Option ℕ
align_up_checked value alignment =
    if alignment == 0
    then none
    else do biased ← checked_add value (alignment - 1); some (biased - biased % alignment)

-- `kCpioNewcMagic`, "070701"
abbrev pub cpio_newc_magic : List ℕ
cpio_newc_magic = 48 ∷ 55 ∷ 48 ∷ 55 ∷ 48 ∷ 49 ∷ []

-- The loop of `magic_matches`, from byte `offset` on.
unfoldable pub bytes_match : Archive → ℕ → List ℕ → Bool
bytes_match archive offset [] = true
bytes_match archive offset (b ∷ bs) =
    let rest = bytes_match archive (offset + 1) bs in if archive offset == b then rest else false

abbrev pub magic_matches : Archive → ℕ → Bool
magic_matches archive offset = bytes_match archive offset cpio_newc_magic

abbrev pub hex_nibble : ℕ → Option ℕ
hex_nibble c =
    if leb 48 c && leb c 57
    then some (c - 48)
    else if leb 97 c && leb c 102
    then some (c - 97 + 10)
    else if leb 65 c && leb c 70
    then some (c - 65 + 10)
    else none

-- The loop of `parse_hex`: `digits` are left, `value` has been read.
unfoldable pub parse_hex_from : Archive → ℕ → ℕ → ℕ → Option ℕ
parse_hex_from archive offset zero value = some value
parse_hex_from archive offset (suc digits) value = do
  nibble ← hex_nibble (archive offset)
  parse_hex_from archive (offset + 1) digits (value * 16 % 2 ^ 32 + nibble)

-- `parse_hex(text, digits, value)`
abbrev pub parse_hex : Archive → ℕ → ℕ → Option ℕ
parse_hex archive offset digits = parse_hex_from archive offset digits 0

-- The C string at `offset`: the bytes before the first null byte, wherever it is. The loop looks at
-- `n` bytes; the address space holds 2 ^ 64.
unfoldable pub c_string : Archive → ℕ → ℕ → List ℕ
c_string archive offset zero = []
c_string archive offset (suc n) =
    let rest = c_string archive (offset + 1) n in
    if archive offset == 0 then [] else archive offset ∷ rest

-- `while('/' == *path)`
abbrev pub skip_slashes : List ℕ → List ℕ
skip_slashes [] = []
skip_slashes (c ∷ cs) = if c == 47 then skip_slashes cs else c ∷ cs

-- `normalize_archive_path(path)`
unfoldable pub normalize_archive_path : List ℕ → List ℕ
normalize_archive_path [] = []
normalize_archive_path (c ∷ []) = skip_slashes (c ∷ [])
normalize_archive_path (c ∷ d ∷ cs) =
    let rest = normalize_archive_path cs in
    if (c == 46) && (d == 47) then rest else skip_slashes (c ∷ d ∷ cs)

-- The loop of `cpio_newc_paths_equal`.
unfoldable pub strings_equal : List ℕ → List ℕ → Bool
strings_equal [] [] = true
strings_equal [] (d ∷ ds) = false
strings_equal (c ∷ cs) [] = false
strings_equal (c ∷ cs) (d ∷ ds) = let rest = strings_equal cs ds in if c == d then rest else false

-- `cpio_newc_paths_equal(archive_name, wanted)`
unfoldable pub cpio_newc_paths_equal : List ℕ → List ℕ → Bool
cpio_newc_paths_equal archive_name wanted =
    strings_equal (normalize_archive_path archive_name) (normalize_archive_path wanted)

-- `(mode & kCpioModeTypeMask) == kCpioModeRegular`
abbrev pub is_regular_entry : ℕ → Bool
is_regular_entry mode = mode / 0x1000 % 16 == 8

-- What the loop reads of an entry.
pub record Entry : Type 0 where
  pub mode : ℕ
  pub name : List ℕ
  pub file_offset : ℕ
  pub file_size : ℕ
  pub file_end : ℕ

-- From `name_end` to `file_end`, with the fields of the header.
unfoldable pub place_entry : Archive → ℕ → ℕ → ℕ → ℕ → ℕ → Option Entry
place_entry archive archive_size header_end mode name_size file_size = do
  guard (not (name_size == 0))
  name_end ← checked_add header_end name_size
  guard (leb name_end archive_size)
  guard (archive (header_end + name_size - 1) == 0)
  file_offset ← align_up_checked name_end 4
  guard (leb file_offset archive_size)
  file_end ← checked_add file_offset file_size
  guard (leb file_end archive_size)
  some (record {
    mode = mode;
    name = c_string archive header_end (2 ^ 64);
    file_offset = file_offset;
    file_size = file_size;
    file_end = file_end;
  })

-- The part of a round before the test for the trailer; `none` where the function returns false.
unfoldable pub read_entry : Archive → ℕ → ℕ → Option Entry
read_entry archive archive_size offset = do
  header_end ← checked_add offset header_size
  guard (leb header_end archive_size)
  guard (magic_matches archive offset)
  mode ← parse_hex archive (offset + mode_offset) 8
  name_size ← parse_hex archive (offset + namesize_offset) 8
  file_size ← parse_hex archive (offset + filesize_offset) 8
  place_entry archive archive_size header_end mode name_size file_size

-- "TRAILER!!!"
abbrev pub trailer_name : List ℕ
trailer_name = 84 ∷ 82 ∷ 65 ∷ 73 ∷ 76 ∷ 69 ∷ 82 ∷ 33 ∷ 33 ∷ 33 ∷ []

-- A visitor with its context: the name, the offset and the size of a file.
abbrev pub Visitor : Type 0 → Type 0
Visitor C = List ℕ → ℕ → ℕ → C → C × Bool

-- The part of a round from the visitor on, up to the next offset.
abbrev pub visit_entry : {C : Type 0} → Visitor C → Entry → C → C × Bool
visit_entry visitor e c =
    if is_regular_entry e.mode then visitor e.name e.file_offset e.file_size c else (c, true)

unfoldable pub next_offset : ℕ → Entry → Option ℕ
next_offset offset e = do next ← align_up_checked e.file_end 4; guard (ltb offset next); some next

-- A round of the loop of `for_each_cpio_newc_file` returns, or goes on at an offset.
pub data Round (C : Type 0) : Type 0 where
  returns : C → Bool → Round C
  continues : ℕ → C → Round C

abbrev pub visited_round : {C : Type 0} → ℕ → Entry → C × Bool → Round C
visited_round offset e (c, false) = returns c false
visited_round offset e (c, true) = elim (next_offset offset e) [
  | none ↦ returns c false
  | some next ↦ continues next c
]

abbrev pub entry_round : {C : Type 0} → Visitor C → ℕ → Entry → C → Round C
entry_round visitor offset e c =
    if cpio_newc_paths_equal e.name trailer_name
    then returns c true
    else visited_round offset e (visit_entry visitor e c)

unfoldable pub visit_round : {C : Type 0} → Archive → ℕ → Visitor C → ℕ → C → Round C
visit_round archive archive_size visitor offset c =
    if ltb archive_size offset
    then returns c false
    else elim (read_entry archive archive_size offset) [
      | none ↦ returns c false
      | some e ↦ entry_round visitor offset e c
    ]

-- The loop; `none` where the fuel ends before the function returns.
unfoldable pub visit_from : {C : Type 0} → Archive → ℕ → Visitor C → ℕ → ℕ → C → Option (C × Bool)
visit_from archive archive_size visitor zero offset c = none
visit_from archive archive_size visitor (suc fuel) offset c =
    elim (visit_round archive archive_size visitor offset c) [
      | returns c1 result ↦ some (c1, result)
      | continues next c1 ↦ visit_from archive archive_size visitor fuel next c1
    ]

-- `for_each_cpio_newc_file(archive, archive_size, visitor, context)`
unfoldable pub for_each_cpio_newc_file :
    {C : Type 0} → Archive → ℕ → Visitor C → C → Option (C × Bool)
for_each_cpio_newc_file archive archive_size visitor c =
    visit_from archive archive_size visitor (archive_size + 1) 0 c

-- The end of `copy_cpio_newc_path`: `space` bytes of the destination are left.
unfoldable pub copy_bytes : ℕ → List ℕ → List ℕ
copy_bytes zero source = []
copy_bytes (suc zero) source = 0 ∷ []
copy_bytes (suc (suc space)) [] = 0 ∷ copy_bytes (suc space) []
copy_bytes (suc (suc space)) (b ∷ bs) = b ∷ copy_bytes (suc space) bs

abbrev pub with_slash : List ℕ → List ℕ
with_slash [] = []
with_slash (b ∷ bs) = 47 ∷ b ∷ bs

-- `copy_cpio_newc_path(destination, destination_size, archive_name)`: the bytes of the destination.
unfoldable pub copy_cpio_newc_path : ℕ → List ℕ → List ℕ
copy_cpio_newc_path destination_size archive_name =
    copy_bytes destination_size (with_slash (normalize_archive_path archive_name))
