-- ===== src/Cpio/Local.antt =====
-- The bytes that `for_each_cpio_newc_file` reads.
use os.Base.{
  ℕ, zero, suc, ◌+◌, ◌-◌, ◌*◌, ◌%◌, ◌^◌, ◌≤◌, ◌<◌, ◌≡◌, refl, inl, inr, Bool, true, false, Option,
  none, some, List, [], ◌∷◌, length, arith, ltb, leb, ◌==◌, if◌then◌else◌, ◌>>=◌, ◌>>◌, guard, ap,
  ◌∙◌, Bool-cases, Option-cases, sym,
}
use os.Cpio.{
  Archive, Visitor, Round, returns, continues, read_entry, place_entry, checked_add, c_string,
  bytes_match, parse_hex_from, parse_hex, hex_nibble, magic_matches, cpio_newc_magic, header_size,
  mode_offset, namesize_offset, filesize_offset, visit_round, entry_round, visit_from,
  for_each_cpio_newc_file,
}
use os.Cpio.Bounds.{checked_add-some}

-- Two memories that hold the same archive.
abbrev pub SameArchive : ℕ → Archive → Archive → Type 0
SameArchive archive_size a b = (i : ℕ) → i < archive_size → a i ≡ b i

checked_add-small :
    (left right : ℕ) {n : ℕ} → 0 < left → checked_add left right ≡ some n → right - 1 < 2 ^ 64
unfolding checked_add
checked_add-small left right pos h = ground (arith, pos, h)

module _ (size : ℕ) (a b : Archive) (same : SameArchive size a b) where
  bytes_match-same :
      (offset : ℕ) (bs : List ℕ)
      → offset + length bs ≤ size
      → bytes_match a offset bs ≡ bytes_match b offset bs
  unfolding bytes_match
  bytes_match-same offset [] h = refl
  bytes_match-same offset (x ∷ xs) h =
      rw (same offset (omega (arith, h)), bytes_match-same (offset + 1) xs (omega (arith, h))) refl

  parse_hex-same :
      (offset digits value : ℕ)
      → offset + digits ≤ size
      → parse_hex_from a offset digits value ≡ parse_hex_from b offset digits value
  unfolding parse_hex_from
  parse_hex-same offset zero value h = refl
  parse_hex-same offset (suc digits) value h =
      ap (λ x. hex_nibble x >>= λ n. parse_hex_from a (offset + 1) digits (value * 16 % 2 ^ 32 + n))
        (same offset (omega (arith, h)))
      ∙ step (hex_nibble (b offset)) (λ v. parse_hex-same (offset + 1) digits v (omega (arith, h)))
    where
      step :
          (o : Option ℕ)
          → ((v : ℕ)
              → parse_hex_from a (offset + 1) digits v ≡ parse_hex_from b (offset + 1) digits v)
          → (o >>= λ n. parse_hex_from a (offset + 1) digits (value * 16 % 2 ^ 32 + n))
            ≡ (o >>= λ n. parse_hex_from b (offset + 1) digits (value * 16 % 2 ^ 32 + n))
      step none h = refl
      step (some n) h = h (value * 16 % 2 ^ 32 + n)

  -- Up to a null byte in the archive.
  c_string-same :
      (k offset fuel : ℕ)
      → k < fuel
      → offset + k < size
      → a (offset + k) ≡ 0
      → c_string a offset fuel ≡ c_string b offset fuel
  unfolding c_string
  c_string-same k offset zero f h z = absurd (omega (arith, f))
  c_string-same k offset (suc fuel) f h z = elim (Bool-cases (b offset == 0)) [
    | inl e ↦ rw (same offset (omega (arith, h)), e) refl
    | inr e ↦ step k f h z e (λ j g i y. c_string-same j (offset + 1) fuel g i y)
  ]
    where
      step :
          (j : ℕ)
          → j < suc fuel
          → offset + j < size
          → a (offset + j) ≡ 0
          → (b offset == 0) ≡ false
          → ((i : ℕ)
              → i < fuel
              → offset + 1 + i < size
              → a (offset + 1 + i) ≡ 0
              → c_string a (offset + 1) fuel ≡ c_string b (offset + 1) fuel)
          → c_string a offset (suc fuel) ≡ c_string b offset (suc fuel)
      step zero g i y e rest = absurd (
          let place : offset ≡ offset + 0 = omega arith in
          let here : a offset ≡ 0 = ap a place ∙ y in
          let there = same offset (omega (arith, i)) in ground (arith, here, there, e))
      step (suc j) g i y e rest =
          let place : offset + 1 + j ≡ offset + suc j = omega arith in
          rw
            (
              same offset (omega (arith, i)),
              rest j (omega (arith, g)) (omega (arith, i)) (ap a place ∙ y),
            )
            refl

  place_entry-same :
      (header_end mode name_size file_size : ℕ)
      → 0 < header_end
      → place_entry a size header_end mode name_size file_size
        ≡ place_entry b size header_end mode name_size file_size
  unfolding place_entry
  place_entry-same header_end mode name_size file_size pos = elim (Bool-cases (name_size == 0)) [
    | inl z ↦ rw (z, place_entry) refl
    | inr z ↦ elim (Option-cases (checked_add header_end name_size)) [
      | inl c ↦ rw (z, c, place_entry) refl
      | inr (n, c) ↦ elim (Bool-cases (leb n size)) [
        | inr l ↦ rw (z, c, l, place_entry) refl
        | inl l ↦
            let end = checked_add-some header_end name_size c in
            let last : a (header_end + name_size - 1) ≡ b (header_end + name_size - 1) =
              same (header_end + name_size - 1) (ground (arith, end, l, z)) in
            elim (Bool-cases (a (header_end + name_size - 1) == 0)) [
              | inr k ↦ rw (z, c, l, sym last, k, place_entry) refl
              | inl k ↦
                  let place : header_end + (name_size - 1) ≡ header_end + name_size - 1 =
                    ground (arith, z) in
                  let name : c_string a header_end (2 ^ 64) ≡ c_string b header_end (2 ^ 64) =
                    c_string-same (name_size - 1) header_end (2 ^ 64)
                      (checked_add-small header_end name_size pos c) (ground (arith, end, l, z))
                      (ap a place ∙ ground (arith, k)) in
                  rw (z, c, l, last, name, place_entry) refl
            ]
      ]
    ]
  ]

  read_entry-same : (offset : ℕ) → read_entry a size offset ≡ read_entry b size offset
  unfolding read_entry
  read_entry-same offset = elim (Option-cases (checked_add offset header_size)) [
    | inl c ↦ rw (c, read_entry) refl
    | inr (n, c) ↦ elim (Bool-cases (leb n size)) [
      | inr l ↦ rw (c, l, read_entry) refl
      | inl l ↦
          let end = checked_add-some offset header_size c in
          let fits : offset + 110 ≤ size = ground (arith, end, l) in
          let magic : magic_matches a offset ≡ magic_matches b offset =
            bytes_match-same offset cpio_newc_magic (omega (arith, fits)) in
          let mode = parse_hex-same (offset + mode_offset) 8 0 (omega (arith, fits)) in
          let name = parse_hex-same (offset + namesize_offset) 8 0 (omega (arith, fits)) in
          let file = parse_hex-same (offset + filesize_offset) 8 0 (omega (arith, fits)) in
          rw (c, l, magic, mode, name, file, read_entry)
            (fields n (omega (arith, end)) (parse_hex b (offset + mode_offset) 8)
              (parse_hex b (offset + namesize_offset) 8) (parse_hex b (offset + filesize_offset) 8)
              (magic_matches b offset))
    ]
  ]
    where
      fields :
          (n : ℕ)
          → 0 < n
          → (m s f : Option ℕ) (g : Bool)
          → (guard g
              >> (m >>= λ mode. s >>= λ name_size.
                  f >>= λ file_size. place_entry a size n mode name_size file_size))
            ≡ (guard g
                >> (m >>= λ mode. s >>= λ name_size.
                    f >>= λ file_size. place_entry b size n mode name_size file_size))
      fields n pos m s f false = refl
      fields n pos none s f true = refl
      fields n pos (some x) none f true = refl
      fields n pos (some x) (some y) none true = refl
      fields n pos (some x) (some y) (some z) true = place_entry-same n x y z pos

  visit_round-same :
      {C : Type 0} (visitor : Visitor C) (offset : ℕ) (c : C)
      → visit_round a size visitor offset c ≡ visit_round b size visitor offset c
  unfolding visit_round
  visit_round-same visitor offset c =
      ap
        (λ o.
          if ltb size offset
          then returns c false
          else elim o [ none ↦ returns c false | some e ↦ entry_round visitor offset e c ])
        (read_entry-same offset)

  visit_from-same :
      {C : Type 0} (visitor : Visitor C) (fuel offset : ℕ) (c : C)
      → visit_from a size visitor fuel offset c ≡ visit_from b size visitor fuel offset c
  unfolding visit_from
  visit_from-same visitor zero offset c = refl
  visit_from-same {C} visitor (suc fuel) offset c =
      ap
        (λ r. elim r [
          | returns c1 result ↦ some (c1, result)
          | continues next c1 ↦ visit_from a size visitor fuel next c1
        ])
        (visit_round-same visitor offset c)
      ∙ step (visit_round b size visitor offset c) (λ n c1. visit_from-same visitor fuel n c1)
    where
      step :
          (r : Round C)
          → ((n : ℕ) (c1 : C)
              → visit_from a size visitor fuel n c1 ≡ visit_from b size visitor fuel n c1)
          → elim r as (λ x. Option (C × Bool)) [
            | returns c1 result ↦ some (c1, result)
            | continues next c1 ↦ visit_from a size visitor fuel next c1
          ]
            ≡ elim r as (λ x. Option (C × Bool)) [
              | returns c1 result ↦ some (c1, result)
              | continues next c1 ↦ visit_from b size visitor fuel next c1
            ]
      step (returns c1 result) h = refl
      step (continues n c1) h = h n c1

-- `for_each_cpio_newc_file` reads no byte outside the archive: its result is the same for two
-- memories that hold the same archive.
pub for_each_cpio_newc_file-same :
    {C : Type 0} (size : ℕ) (a b : Archive) (visitor : Visitor C) (c : C)
    → SameArchive size a b
    → for_each_cpio_newc_file a size visitor c ≡ for_each_cpio_newc_file b size visitor c
unfolding for_each_cpio_newc_file
for_each_cpio_newc_file-same size a b visitor c same =
    visit_from-same size a b same visitor (size + 1) 0 c
