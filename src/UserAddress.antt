-- ===== src/UserAddress.antt =====
-- Which addresses a system call may touch for its caller: src/kernel/mm/user_address.hpp. Addresses
-- and lengths are 64-bit words.
pub mod Range
pub mod Tests
use os.Base.{
  ℕ, ◌+◌, ◌-◌, ◌/◌, ◌%◌, ◌^◌, Bool, true, false, ◌&&◌, ◌||◌, not, leb, ltb, ◌==◌, if◌then◌else◌,
}

-- `kUserSpaceBase`
abbrev pub user_space_base : ℕ
user_space_base = 0x0000008000000000

-- `kUserStackTop`
abbrev pub user_stack_top : ℕ
user_stack_top = 0x0000008040000000

unfoldable pub is_canonical_virtual_address : ℕ → Bool
is_canonical_virtual_address address = (0 == address / 2 ^ 48) || (0xFFFF == address / 2 ^ 48)

-- The end of `is_user_address_range`, from `end_address` on.
unfoldable pub ends_in_user_space : ℕ → ℕ → Bool
ends_in_user_space address end_address =
    if not (is_canonical_virtual_address end_address)
    then false
    else leb user_space_base address && ltb end_address user_stack_top

-- `is_user_address_range(address, length)`
unfoldable pub is_user_address_range : ℕ → ℕ → Bool
is_user_address_range address length =
    if length == 0
    then true
    else if (0 == address) || not (is_canonical_virtual_address address)
    then false
    else if ltb (2 ^ 64 - 1 - (length - 1)) address
    then false
    else ends_in_user_space address ((address + (length - 1)) % 2 ^ 64)

-- A bit of the page flags.
abbrev pub has_bit : ℕ → ℕ → Bool
has_bit flags bit = flags / 2 ^ bit % 2 == 1

-- `has_required_user_flags(flags, require_write)`: `User` is bit 2 and `Write` is bit 1.
unfoldable pub has_required_user_flags : ℕ → Bool → Bool
has_required_user_flags flags require_write =
    if not (has_bit flags 2)
    then false
    else if require_write && not (has_bit flags 1)
    then false
    else true
