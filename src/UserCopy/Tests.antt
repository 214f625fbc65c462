-- ===== src/UserCopy/Tests.antt =====
-- The copy theorems on an address space whose page at 0x8000401000 is the frame at 0x8000.
use os.Base.{
  ℕ, ◌+◌, ◌<◌, ◌≡◌, refl, true, false, some, arith, ◌∙◌, ◌==◌, if◌then◌else◌, leb, sym, update,
}
use os.VirtualMemory.{translate, find_table}
use os.VirtualMemory.Ranges.{attach}
use os.VirtualMemory.Tests.{process}
use os.UserAddress.{
  is_user_address_range, is_canonical_virtual_address, ends_in_user_space, has_bit,
  has_required_user_flags,
}
use os.UserCopy.{
  Memory, Buffer, finished, copy_to_user, copy_from_user, copy_user_string, copy_loop, string_loop,
  store_from, load_from,
}
use os.UserCopy.Page.{translate-further}
use os.UserCopy.Bytes.{each_byte}
use os.UserCopy.Accepted.{copy_to_user-each_byte}
use os.UserCopy.Isolation.{Leaves, copy_to_user-Leaves}
use os.UserCopy.Result.{Holds, copy_from_user-Holds, copy_from_user-finished}
use os.UserCopy.Strings.{copy_user_string-copies}
use os.UserCopy.StringEnds.{IsString, copy_user_string-IsString}

-- "hi" and its zero byte at 0x8010, and 7 everywhere else.
abbrev memory : Memory
memory p = if p == 0x8010 then 104 else if p == 0x8011 then 105 else if p == 0x8012 then 0 else 7

abbrev blank : Buffer
blank i = 1

abbrev pointer : ℕ
pointer = 0x8000401010

first_byte : translate (attach process 0x1000) pointer ≡ some (0x8010, 7)
unfolding translate find_table attach
first_byte = refl

in_range : is_user_address_range pointer 3 ≡ true
unfolding is_user_address_range is_canonical_virtual_address ends_in_user_space
in_range = refl

mapped : (k : ℕ) → k < 3 → translate (attach process 0x1000) (pointer + k) ≡ some (0x8010 + k, 7)
mapped k h =
    translate-further pointer k (omega (arith, h)) (attach process 0x1000) ∙ rw first_byte refl

copy_to_user-each_byte_example :
    copy_to_user process (some 0x1000) pointer (some blank) 3 memory
    ≡ each_byte
        (attach process 0x1000)
        (λ flags. has_required_user_flags flags true)
        (store_from blank)
        pointer
        3
        0
        memory
copy_to_user-each_byte_example =
    copy_to_user-each_byte process 0x1000 pointer 3 (omega arith) (omega arith) in_range blank
      memory

copy_to_user-Leaves_example :
    Leaves
      (λ m. m 0x9000 ≡ memory 0x9000)
      (copy_to_user process (some 0x1000) pointer (some blank) 3 memory)
copy_to_user-Leaves_example =
    copy_to_user-Leaves process 0x1000 pointer 3 0x9000 (some blank) memory (omega arith)
      (omega arith) (λ k flags l e. absurd (ground (arith, sym (mapped k l) ∙ e, l)))

copy_from_user-Holds_example :
    (b : Buffer) × (copy_from_user process (some 0x1000) pointer false 3 memory blank ≡ finished b)
    × Holds 0 3 (λ k. memory (0x8010 + k)) blank b
copy_from_user-Holds_example =
    copy_from_user-Holds process 0x1000 pointer 3 memory blank (omega arith) (omega arith) in_range
      (λ k. 0x8010 + k) (λ k. 7) mapped (λ k h. unfold has_required_user_flags in refl)

copy_user_string-copies_example :
    (b : Buffer) × (copy_user_string process (some 0x1000) pointer false 8 memory blank
      ≡ finished b)
    × ((i : ℕ) → b i ≡ (if leb i 2 then memory (0x8010 + i) else blank i))
copy_user_string-copies_example =
    copy_user_string-copies process 0x1000 pointer 8 memory 2 blank (λ k. 0x8010 + k) (λ k. 7)
      (omega arith) (omega arith) (omega arith) in_range (λ k h. mapped k (omega (arith, h)))
      (λ k h. refl) (λ k h. ground (arith, h)) refl

abbrev got : Buffer
got = load_from memory 0x8012 2 (load_from memory 0x8011 1 (load_from memory 0x8010 0 blank))

reads : copy_from_user process (some 0x1000) pointer false 3 memory blank ≡ finished got
unfolding copy_from_user copy_loop is_user_address_range is_canonical_virtual_address
    ends_in_user_space translate find_table attach has_required_user_flags
reads = refl

copy_from_user-finished_example :
    (physical : ℕ) × (flags : ℕ) × (translate (attach process 0x1000) (pointer + 1)
      ≡ some (physical, flags))
    × (has_bit flags 2 ≡ true)
    × (got 1 ≡ memory physical)
copy_from_user-finished_example =
    copy_from_user-finished process 0x1000 pointer 3 memory blank (omega arith) (omega arith)
      in_range got 1 reads (omega arith)

string_reads :
    copy_user_string process (some 0x1000) pointer false 8 memory blank
    ≡ finished (update (update (update blank 0 104) 1 105) 2 0)
unfolding copy_user_string string_loop copy_from_user copy_loop is_user_address_range
    is_canonical_virtual_address ends_in_user_space translate find_table attach
    has_required_user_flags
string_reads = refl

copy_user_string-IsString_example :
    (n : ℕ) × IsString 0 8 blank (update (update (update blank 0 104) 1 105) 2 0) n
copy_user_string-IsString_example =
    copy_user_string-IsString process 0x1000 pointer 8 memory blank
      (update (update (update blank 0 104) 1 105) 2 0) string_reads
