-- ===== src/UserElf/Segment.antt =====
-- plan_load_segment against the bounds that it is meant to enforce.
use os.Base.{
  ℕ, ◌+◌, ◌-◌, ◌*◌, ◌/◌, ◌%◌, ◌^◌, ◌==◌, ◌||◌, not, ◌≤◌, ◌<◌, ◌≡◌, refl, Bool, true, false, inl,
  inr, Option, none, some, ◌&&◌, leb, if◌then◌else◌, guard, ◌>>=◌, ◌>>◌, arith, Bool-cases, ◌⊎◌, ap,
  ◌∙◌,
}
use os.PageFrame.{page_size}
use os.UserAddress.{user_space_base}
use os.UserElf.{
  Elf64ProgramHeader, LoadSegmentPlan, plan_pages, loadable_segment_bounds_valid,
  loadable_segment_raw_end, align_up_checked, plan_load_segment, is_loadable, segment_flags,
  stack_guard_base,
}

-- The segment is loadable, its bytes lie in the image, and its memory in user space below the guard
-- page of the stack; nothing wraps around.
abbrev pub fits : Elf64ProgramHeader → ℕ → Bool
fits program image_size =
    is_loadable program
    && leb program.filesz program.memsz
    && leb (program.offset + program.filesz) image_size
    && leb user_space_base program.vaddr
    && leb (program.vaddr + program.memsz) stack_guard_base

-- The permission bits of a program header: 1 is to execute, 2 to write and 4 to read.
abbrev pub may_execute : ℕ → Bool
may_execute flags = let low = flags % 8 in (low == 1) || (low == 3) || (low == 5) || (low == 7)

abbrev pub may_write : ℕ → Bool
may_write flags = let low = flags % 8 in (low == 2) || (low == 3) || (low == 6) || (low == 7)

-- The pages that the memory of the segment touches, for the user, to be written and executed where
-- the segment is.
abbrev pub plan_of : Elf64ProgramHeader → LoadSegmentPlan
plan_of program = record {
  segment_start = program.vaddr / page_size * page_size;
  segment_end = (program.vaddr + program.memsz + page_size - 1) / page_size * page_size;
  page_flags = record {
    present = true;
    write = may_write program.flags;
    user = true;
    no_execute = not (may_execute program.flags);
  };
}

segment_flags-plan :
    (flags : ℕ)
    → segment_flags flags ≡ record {
      present = true;
      write = may_write flags;
      user = true;
      no_execute = not (may_execute flags);
    }
segment_flags-plan flags = ground arith

abbrev pages_of : Elf64ProgramHeader → Option LoadSegmentPlan
pages_of program = do
  raw_segment_end ← loadable_segment_raw_end program
  segment_end ← align_up_checked raw_segment_end
  plan_pages program segment_end

bounds-guard :
    (program : Elf64ProgramHeader) (image_size : ℕ)
    → program.offset < 2 ^ 64
    → program.filesz < 2 ^ 64
    → image_size < 2 ^ 64
    → loadable_segment_bounds_valid program image_size
      ≡ guard (leb program.filesz program.memsz && leb (program.offset + program.filesz) image_size)
bounds-guard program image_size a b e = ground arith

pages_of-inside :
    (program : Elf64ProgramHeader)
    → 0 < program.memsz
    → user_space_base ≤ program.vaddr
    → program.vaddr + program.memsz ≤ stack_guard_base
    → pages_of program ≡ some (plan_of program)
pages_of-inside program pos low high =
    within
    ∙ ap (λ f. some (record (plan_of program) { page_flags = f }))
        (segment_flags-plan program.flags)
  where
    within :
        pages_of program
        ≡ some (record (plan_of program) { page_flags = segment_flags program.flags })
    within = ground arith

pages_of-outside :
    (program : Elf64ProgramHeader)
    → program.vaddr < 2 ^ 64
    → program.memsz < 2 ^ 64
    → (program.vaddr < user_space_base) ⊎ (stack_guard_base < program.vaddr + program.memsz)
    → pages_of program ≡ none
pages_of-outside program c d o = ground arith

-- The checks on the file come first; `pages_of` is what is left.
plan_load_segment-split :
    (program : Elf64ProgramHeader) (image_size : ℕ)
    → program.offset < 2 ^ 64
    → program.filesz < 2 ^ 64
    → image_size < 2 ^ 64
    → plan_load_segment program image_size ≡ (
        if is_loadable program
          && leb program.filesz program.memsz
          && leb (program.offset + program.filesz) image_size
        then pages_of program
        else none)
unfolding plan_load_segment
plan_load_segment-split program image_size a b e =
    ap (λ x. guard (is_loadable program) >> (x >> pages_of program))
      (bounds-guard program image_size a b e)
    ∙ joined (is_loadable program) (leb program.filesz program.memsz)
        (leb (program.offset + program.filesz) image_size) (pages_of program)
  where
    joined :
        (l f o : Bool) (r : Option LoadSegmentPlan)
        → (guard l >> (guard (f && o) >> r)) ≡ (if l && f && o then r else none)
    joined false f o r = refl
    joined true false o r = refl
    joined true true false r = refl
    joined true true true r = refl

-- For fields of 64 bits, `plan_load_segment` accepts a segment exactly if it is loadable and not
-- empty in memory, its bytes lie in the image and are no more than its memory, and its memory lies
-- in user space below the guard page of the stack, all without wrap-around. The plan covers the
-- pages of that memory, with the write and execute permissions of the segment.
pub plan_load_segment_lem :
    (program : Elf64ProgramHeader) (image_size : ℕ)
    → program.offset < 2 ^ 64
    → program.filesz < 2 ^ 64
    → program.vaddr < 2 ^ 64
    → program.memsz < 2 ^ 64
    → image_size < 2 ^ 64
    → plan_load_segment program image_size
      ≡ (if fits program image_size then some (plan_of program) else none)
unfolding plan_load_segment
plan_load_segment_lem program image_size a b c d e =
    plan_load_segment-split program image_size a b e ∙ elim (Bool-cases (is_loadable program)) [
      | inr l ↦ rw l refl
      | inl l ↦
          elim (Bool-cases (
            leb user_space_base program.vaddr
            && leb (program.vaddr + program.memsz) stack_guard_base)) [
              | inl m ↦
                  rw
                    (
                      l,
                      pages_of-inside program (ground (arith, l)) (ground (arith, m))
                          (ground (arith, m)),
                    )
                    (ground (arith, m))
              | inr m ↦ rw (l, pages_of-outside program c d (ground (arith, m))) (ground (arith, m))
            ]
    ]
