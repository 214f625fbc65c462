-- ===== src/UserCopy/Accepted.antt =====
-- copy_to_user and copy_from_user on a range that they accept.
use os.Base.{ℕ, zero, suc, ◌+◌, ◌^◌, ◌≤◌, ◌<◌, ◌≡◌, true, false, some, arith, ◌∙◌, sym}
use os.VirtualMemory.{VirtualMemory}
use os.VirtualMemory.Ranges.{attach}
use os.UserAddress.{is_user_address_range, has_required_user_flags}
use os.UserAddress.Range.{is_user_address_range_lem}
use os.UserCopy.{Memory, Buffer, store_from, load_from, copy_to_user, copy_from_user}
use os.UserCopy.Bytes.{each_byte, copy_loop-each_byte}

ends_below :
    (length address : ℕ)
    → address < 2 ^ 64
    → length < 2 ^ 64
    → is_user_address_range address length ≡ true
    → address + length ≤ 2 ^ 64
ends_below zero address a c h = omega (arith, a)
ends_below (suc n) address a c h =
    let o = sym (is_user_address_range_lem address (suc n) a (omega arith) c) ∙ h in
    ground (arith, o)

module _ (v : VirtualMemory) (cr3 user_pointer length : ℕ) (pointer_bound : user_pointer < 2 ^ 64)
    (length_bound : length < 2 ^ 64)
    (in_range : is_user_address_range user_pointer length ≡ true) where
  -- On a range inside user space `copy_to_user` does what a copy does that translates and tests
  -- every byte by itself, wrap-around of the address excluded: the same memory, the same refusal.
  pub copy_to_user-each_byte :
      (source : Buffer) (memory : Memory)
      → copy_to_user v (some cr3) user_pointer (some source) length memory
        ≡ each_byte
            (attach v cr3)
            (λ flags. has_required_user_flags flags true)
            (store_from source)
            user_pointer
            length
            0
            memory
  unfolding copy_to_user
  copy_to_user-each_byte source memory = rw in_range (
      copy_loop-each_byte (attach v cr3) (λ flags. has_required_user_flags flags true)
        (store_from source) user_pointer length
        (ends_below length user_pointer pointer_bound length_bound in_range) memory)

  -- The same of `copy_from_user`.
  pub copy_from_user-each_byte :
      (memory : Memory) (destination : Buffer)
      → copy_from_user v (some cr3) user_pointer false length memory destination
        ≡ each_byte
            (attach v cr3)
            (λ flags. has_required_user_flags flags false)
            (load_from memory)
            user_pointer
            length
            0
            destination
  unfolding copy_from_user
  copy_from_user-each_byte memory destination = rw in_range (
      copy_loop-each_byte (attach v cr3) (λ flags. has_required_user_flags flags false)
        (load_from memory) user_pointer length
        (ends_below length user_pointer pointer_bound length_bound in_range) destination)
