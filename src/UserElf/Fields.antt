-- ===== src/UserElf/Fields.antt =====
-- The fields of the headers and where they are read.
use os.Base.{
  ℕ, zero, suc, ◌+◌, ◌*◌, ◌^◌, ◌≤◌, ◌<◌, ◌≡◌, inl, inr, none, some, ◌||◌, not, leb, ltb, ◌==◌,
  if◌then◌else◌, arith, Bool-cases, sym, ◌∙◌, subst, some_inj, none-ne-some,
}
use os.UserElf.{
  Image, Elf64Header, Elf64ProgramHeader, read_field, elf_header_at, program_header_at,
  header_from_image, program_header_from_image,
}

abbrev pub IsBytes : Image → Type 0
IsBytes image = (i : ℕ) → image i < 256

abbrev field_bound : ℕ → ℕ
field_bound zero = 1
field_bound (suc n) = 256 * field_bound n

read_field-bound :
    (image : Image) → IsBytes image → (n offset : ℕ) → read_field image offset n < field_bound n
unfolding read_field
read_field-bound image b zero offset = omega arith
read_field-bound image b (suc n) offset =
    omega (arith, read_field-bound image b n (offset + 1), b offset)

-- The fields that the checks on a segment add up fit in 64 bits.
abbrev pub IsWords : Elf64ProgramHeader → Type 0
IsWords p = (p.offset < 2 ^ 64) × (p.filesz < 2 ^ 64) × (p.vaddr < 2 ^ 64) × (p.memsz < 2 ^ 64)

pub program_header_at-IsWords :
    (image : Image) → IsBytes image → (offset : ℕ) → IsWords (program_header_at image offset)
program_header_at-IsWords image b offset = (
  read_field-bound image b 8 (offset + 8),
  read_field-bound image b 8 (offset + 32),
  read_field-bound image b 8 (offset + 16),
  read_field-bound image b 8 (offset + 40),
)

-- What `header_from_image` returns.
pub header_from_image_lem :
    (image : Image) (image_size : ℕ) (header : Elf64Header)
    → IsBytes image
    → header_from_image (some image) image_size ≡ some header
    → (64 ≤ image_size)
      × (header.phoff < image_size)
      × (header.phentsize ≡ 56)
      × (header.phnum < 2 ^ 16)
unfolding header_from_image
header_from_image_lem image image_size header b e = elim (Bool-cases (ltb image_size 64)) [
  | inl z ↦ absurd (none-ne-some (rw z at e))
  | inr z ↦
      elim (Bool-cases (
        not (read_field image 0 4 == 0x464C457F)
        || leb image_size (read_field image 32 8)
        || not (read_field image 54 2 == 56))) [
          | inl c ↦ absurd (none-ne-some (rw (z, c) at e))
          | inr c ↦
              let q : elf_header_at image ≡ header = some_inj (rw (z, c) at e) in
              let n : read_field image 56 2 < 2 ^ 16 = read_field-bound image b 2 56 in
              (
                ground (arith, z),
                subst (λ x. x.phoff < image_size) q (ground (arith, c)),
                subst (λ x. x.phentsize ≡ 56) q (ground (arith, c)),
                subst (λ x. x.phnum < 2 ^ 16) q n,
              )
        ]
]

-- With entries of 56 bytes no offset wraps around, and the division test always holds.
pub program_header_from_image-closed :
    (image : Image) (image_size index : ℕ) (header : Elf64Header)
    → image_size < 2 ^ 64
    → index < 2 ^ 16
    → header.phoff < image_size
    → header.phentsize ≡ 56
    → program_header_from_image header (some image) image_size index ≡ (
        if leb (header.phoff + index * 56 + 56) image_size
        then some (program_header_at image (header.phoff + index * 56))
        else none)
unfolding program_header_from_image
program_header_from_image-closed image image_size index header c i h s = rw s (ground arith)

pub program_header_from_image_lem :
    (image : Image) (image_size index : ℕ) (header : Elf64Header) (program : Elf64ProgramHeader)
    → IsBytes image
    → image_size < 2 ^ 64
    → index < 2 ^ 16
    → header.phoff < image_size
    → header.phentsize ≡ 56
    → program_header_from_image header (some image) image_size index ≡ some program
    → (header.phoff + index * 56 + 56 ≤ image_size)
      × (program ≡ program_header_at image (header.phoff + index * 56))
program_header_from_image_lem image image_size index header program b c i h s e =
    let q = sym (program_header_from_image-closed image image_size index header c i h s) ∙ e in
    elim (Bool-cases (leb (header.phoff + index * 56 + 56) image_size)) [
      | inr z ↦ absurd (none-ne-some (rw z at q))
      | inl z ↦ (ground (arith, z), sym (some_inj (rw z at q)))
    ]
