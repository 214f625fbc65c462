-- ===== src/UserElf/Entry.antt =====
-- Which images validate_user_elf_image accepts.
use os.Base.{
  ℕ, zero, suc, ◌+◌, ◌*◌, ◌^◌, ◌≤◌, ◌<◌, ◌≡◌, ◌⊎◌, ◌↔◌, refl, Bool, true, false, inl, inr, none,
  some, ◌&&◌, not, leb, ltb, ◌==◌, if◌then◌else◌, arith, Bool-cases, sym, ◌∙◌, subst, le→leb,
}
use os.UserElf.{
  Image, Elf64Header, Elf64ProgramHeader, program_header_at, header_from_image,
  program_header_from_image, is_loadable, plan_load_segment, loadable_segment_raw_end, entry_loop,
  validate_user_elf_image, validate_executable_header,
}
use os.UserElf.Segment.{fits, plan_of, plan_load_segment_lem}
use os.UserElf.Fields.{
  IsBytes, program_header_at-IsWords, header_from_image_lem, program_header_from_image-closed,
}

raw_end :
    (q : Elf64ProgramHeader) (image_size : ℕ)
    → fits q image_size ≡ true
    → loadable_segment_raw_end q ≡ some (q.vaddr + q.memsz)
raw_end q image_size f = ground arith

module _ (image : Image) (image_size : ℕ) (header : Elf64Header) where
  -- Program header `k`, in the table of entries of 56 bytes.
  abbrev pub header_k : ℕ → Elf64ProgramHeader
  header_k k = program_header_at image (header.phoff + k * 56)

  abbrev contains_entry : Elf64ProgramHeader → Bool
  contains_entry q = leb q.vaddr header.entry && ltb header.entry (q.vaddr + q.memsz)

  -- Header `k` lies in the image and is not loadable, or its segment fits.
  abbrev pub Passes : ℕ → Type 0
  Passes k =
      (header.phoff + k * 56 + 56 ≤ image_size)
      × ((is_loadable (header_k k) ≡ false) ⊎ (fits (header_k k) image_size ≡ true))

  -- Header `k` lies in the image, its segment fits and contains the entry point.
  abbrev pub IsEntry : ℕ → Type 0
  IsEntry k =
      (header.phoff + k * 56 + 56 ≤ image_size)
      × (fits (header_k k) image_size ≡ true)
      × ((header_k k).vaddr ≤ header.entry)
      × (header.entry < (header_k k).vaddr + (header_k k).memsz)

  module _ (bytes : IsBytes image) (small : image_size < 2 ^ 64)
      (starts : header.phoff < image_size) (entries : header.phentsize ≡ 56) where
    abbrev loop : ℕ → ℕ → Bool
    loop = entry_loop header (some image) image_size

    read :
        (k : ℕ)
        → k < 2 ^ 16
        → program_header_from_image header (some image) image_size k
          ≡ (if leb (header.phoff + k * 56 + 56) image_size then some (header_k k) else none)
    read k h = program_header_from_image-closed image image_size k header small h starts entries

    plan :
        (k : ℕ)
        → plan_load_segment (header_k k) image_size
          ≡ (if fits (header_k k) image_size then some (plan_of (header_k k)) else none)
    plan k =
        let (o, z, v, m) = program_header_at-IsWords image bytes (header.phoff + k * 56) in
        plan_load_segment_lem (header_k k) image_size o z v m small

    -- One round of the loop.
    entry_loop-step :
        (index r : ℕ)
        → index < 2 ^ 16
        → loop index (suc r) ≡ (
            if not (leb (header.phoff + index * 56 + 56) image_size)
            then false
            else if not (is_loadable (header_k index))
            then loop (index + 1) r
            else if not (fits (header_k index) image_size)
            then false
            else if contains_entry (header_k index)
            then true
            else loop (index + 1) r)
    unfolding entry_loop
    entry_loop-step index r h =
        elim (Bool-cases (leb (header.phoff + index * 56 + 56) image_size)) [
          | inr i ↦
              let e : program_header_from_image header (some image) image_size index ≡ none =
                read index h ∙ rw i refl in
              rw (e, entry_loop) (rw i refl)
          | inl i ↦
              let e : program_header_from_image header (some image) image_size index
                  ≡ some (header_k index) =
                read index h ∙ rw i refl in
              elim (Bool-cases (is_loadable (header_k index))) [
                | inr l ↦ rw (e, entry_loop) (rw (i, l) refl)
                | inl l ↦ elim (Bool-cases (fits (header_k index) image_size)) [
                  | inr f ↦
                      let p : plan_load_segment (header_k index) image_size ≡ none =
                        plan index ∙ rw f refl in
                      rw (e, entry_loop) (rw (i, f, l, p) refl)
                  | inl f ↦
                      let p : plan_load_segment (header_k index) image_size
                          ≡ some (plan_of (header_k index)) =
                        plan index ∙ rw f refl in
                      let raw = raw_end (header_k index) image_size f in
                      rw (e, entry_loop) (rw (i, f, l, p, raw) refl)
                ]
              ]
        ]

    -- The first segment with the entry point, from header `index` on.
    abbrev Found : ℕ → ℕ → Type 0
    Found index r =
        (k : ℕ) × (index ≤ k)
        × (k < index + r)
        × IsEntry k
        × ((j : ℕ) → index ≤ j → j < k → Passes j)

    extend : (index r : ℕ) → Passes index → Found (index + 1) r → Found index (suc r)
    extend index r q (k, a, b, f, p) = (
      k,
      omega (arith, a),
      omega (arith, b),
      f,
      λ j c d. elim (Bool-cases (index == j)) [
        | inl same ↦ subst Passes (ground (arith, same)) q
        | inr other ↦ p j (ground (arith, c, other)) d
      ],
    )

    finds : (r index : ℕ) → index + r ≤ 2 ^ 16 → loop index r ≡ true → Found index r
    finds zero index h e = absurd (unfold entry_loop in cc e)
    finds (suc r) index h e =
        let t = sym (entry_loop-step index r (omega (arith, h))) ∙ e in
        let rest = finds r (index + 1) (omega (arith, h)) in
        elim (Bool-cases (leb (header.phoff + index * 56 + 56) image_size)) [
          | inr i ↦ absurd (cc (rw i at t))
          | inl i ↦
              let inside : header.phoff + index * 56 + 56 ≤ image_size = ground (arith, i) in
              elim (Bool-cases (fits (header_k index) image_size)) [
                | inl f ↦
                    let l : is_loadable (header_k index) ≡ true = ground (arith, f) in
                    elim (Bool-cases (contains_entry (header_k index))) [
                      | inl c ↦ (
                        index,
                        omega arith,
                        omega arith,
                        (inside, f, ground (arith, c), ground (arith, c)),
                        λ j a b. absurd (omega (arith, a, b)),
                      )
                      | inr c ↦ extend index r (inside, inr f) (rest (rw (i, f, l, c) at t))
                    ]
                | inr f ↦ elim (Bool-cases (is_loadable (header_k index))) [
                  | inl l ↦ absurd (cc (rw (i, f, l) at t))
                  | inr l ↦ extend index r (inside, inl l) (rest (rw (i, f, l) at t))
                ]
              ]
        ]

    misses : (r index : ℕ) → index + r ≤ 2 ^ 16 → Found index r → loop index r ≡ true
    misses zero index h (k, a, b, f, p) = absurd (omega (arith, a, b))
    misses (suc r) index h (k, a, b, f, p) =
        entry_loop-step index r (omega (arith, h)) ∙ elim (Bool-cases (index == k)) [
          | inl same ↦
              let (i, g, c, d) = subst IsEntry (sym (ground (arith, same))) f in
              let l : is_loadable (header_k index) ≡ true = ground (arith, g) in
              let entry_inside : contains_entry (header_k index) ≡ true = ground (arith, c, d) in
              rw (le→leb (header.phoff + index * 56 + 56) image_size i, g, l, entry_inside) refl
          | inr other ↦
              let (i, q) = p index (omega arith) (ground (arith, a, other)) in
              let rest = misses r (index + 1) (omega (arith, h)) (
                k,
                ground (arith, a, other),
                omega (arith, b),
                f,
                λ j c d. p j (omega (arith, c)) d,
              ) in
              elim q [
                | inl l ↦ rw (le→leb (header.phoff + index * 56 + 56) image_size i, l) rest
                | inr g ↦
                    let l : is_loadable (header_k index) ≡ true = ground (arith, g) in
                    elim (Bool-cases (contains_entry (header_k index))) [
                      | inl c ↦
                          rw (le→leb (header.phoff + index * 56 + 56) image_size i, g, l, c) refl
                      | inr c ↦
                          rw (le→leb (header.phoff + index * 56 + 56) image_size i, g, l, c) rest
                    ]
              ]
        ]

  -- For an image whose header `header_from_image` returns, `validate_user_elf_image` accepts it
  -- exactly if the header is that of an x86-64 executable and some program header has a segment that
  -- fits and contains the entry point, and every header before it lies in the image and is not
  -- loadable or has a segment that fits.
  pub validate_user_elf_image_lem :
      IsBytes image
      → image_size < 2 ^ 64
      → header_from_image (some image) image_size ≡ some header
      → (validate_user_elf_image header (some image) image_size ≡ true) ↔ (
          (validate_executable_header header ≡ true)
          × ((k : ℕ) × (k < header.phnum) × IsEntry k × ((j : ℕ) → j < k → Passes j)))
  unfolding validate_user_elf_image
  validate_user_elf_image_lem bytes small e =
      let (_, starts, entries, n) = header_from_image_lem image image_size header bytes e in
      (
        (λ t. elim (Bool-cases (validate_executable_header header)) [
          | inr v ↦ absurd (cc (rw v at t))
          | inl v ↦
              let (k, a, b, f, p) =
                finds bytes small starts entries header.phnum 0 (omega (arith, n)) (rw v at t) in
              (v, (k, omega (arith, b), f, λ j l. p j (omega arith) l))
        ]),
        λ q.
            let (v, (k, b, f, p)) = q in
            rw v (
              misses bytes small starts entries header.phnum 0 (omega (arith, n))
                (k, omega arith, omega (arith, b), f, λ j a l. p j l)),
      )
