-- ===== src/UserCopy.antt =====
-- Copies between the kernel and an address space: src/kernel/mm/user_copy.cpp. Physical memory is a
-- function from addresses to bytes; a buffer of the kernel is one from offsets to bytes. The pages
-- that a copy writes to hold no page tables, so the tables do not change while it runs.
pub mod Page
pub mod Bytes
pub mod Accepted
pub mod Isolation
pub mod Result
pub mod StringLoop
pub mod StringEnds
pub mod Strings
pub mod Tests
use os.Base.{
  ℕ, zero, suc, ◌+◌, ◌-◌, ◌%◌, ◌^◌, Bool, true, false, Option, none, some, update, ltb, ◌==◌, ◌||◌,
  not, if◌then◌else◌,
}
use os.PageFrame.{page_size}
use os.VirtualMemory.{VirtualMemory, translate}
use os.VirtualMemory.Ranges.{attach}
use os.UserAddress.{is_user_address_range, has_required_user_flags}

abbrev pub Memory : Type 0
Memory = ℕ → ℕ

abbrev pub Buffer : Type 0
Buffer = ℕ → ℕ

-- The reason of the event that `record_user_copy_failure` records, and its offset.
pub data Reason : Type 0 where
  null_context bad_range not_translated no_permission string_too_long : Reason

pub record Failure : Type 0 where
  pub reason : Reason
  pub offset : ℕ

abbrev pub failure : Reason → ℕ → Failure
failure reason offset = record { reason = reason; offset = offset }

-- True, or false with the event recorded; `unfinished` where the fuel ends first.
pub data Outcome (S : Type 0) : Type 0 where
  finished : S → Outcome S
  refused : S → Failure → Outcome S
  unfinished : Outcome S

-- The bytes of a page from `address` on, or those that are left.
abbrev pub chunk_of : ℕ → ℕ → ℕ
chunk_of address left =
    let page_offset = address % page_size in
    if ltb left (page_size - page_offset) then left else page_size - page_offset

-- `memcpy` of `n` bytes; `move physical offset` moves one byte.
abbrev pub move_bytes : {S : Type 0} → (ℕ → ℕ → S → S) → ℕ → ℕ → ℕ → S → S
move_bytes move physical offset zero s = s
move_bytes move physical offset (suc n) s =
    move_bytes move (physical + 1) (offset + 1) n (move physical offset s)

module _ {S : Type 0} (vm : VirtualMemory) (accept : ℕ → Bool) (move : ℕ → ℕ → S → S)
    (pointer length : ℕ) where
  -- The loop of the three copies: `accept` tests the flags of a page.
  unfoldable pub copy_loop : ℕ → ℕ → S → Outcome S
  copy_loop zero copied s = if ltb copied length then unfinished else finished s
  copy_loop (suc fuel) copied s = elim (ltb copied length) [
    | false ↦ finished s
    | true ↦ elim (translate vm ((pointer + copied) % 2 ^ 64)) [
      | none ↦ refused s (failure Reason.not_translated copied)
      | some (physical, flags) ↦ elim (accept flags) [
        | false ↦ refused s (failure Reason.no_permission copied)
        | true ↦
            let chunk = chunk_of ((pointer + copied) % 2 ^ 64) (length - copied) in
            copy_loop fuel (copied + chunk) (move_bytes move physical copied chunk s)
      ]
    ]
  ]

abbrev pub store_from : Buffer → ℕ → ℕ → Memory → Memory
store_from source physical offset memory = update memory physical (source offset)

abbrev pub load_from : Memory → ℕ → ℕ → Buffer → Buffer
load_from memory physical offset destination = update destination offset (memory physical)

-- `copy_into_address_space(vm, virtual_address, source, length)`
unfoldable pub copy_into_address_space : VirtualMemory → ℕ → Buffer → ℕ → Memory → Outcome Memory
copy_into_address_space vm virtual_address source length memory =
    copy_loop vm (λ flags. true) (store_from source) virtual_address length length 0 memory

-- `copy_to_user(frames, thread, user_pointer, source, length)`: a thread is its `address_space_cr3`.
unfoldable pub copy_to_user :
    VirtualMemory → Option ℕ → ℕ → Option Buffer → ℕ → Memory → Outcome Memory
copy_to_user v none user_pointer source length memory =
    refused memory (failure Reason.null_context 0)
copy_to_user v (some cr3) user_pointer none length memory =
    refused memory (failure Reason.null_context 0)
copy_to_user v (some cr3) user_pointer (some source) length memory =
    if not (is_user_address_range user_pointer length)
    then refused memory (failure Reason.bad_range 0)
    else copy_loop (attach v cr3) (λ flags. has_required_user_flags flags true) (store_from source)
        user_pointer length length 0 memory

-- `copy_from_user(frames, thread, user_pointer, destination, length)`; `is_null` says whether the
-- destination is null.
unfoldable pub copy_from_user :
    VirtualMemory → Option ℕ → ℕ → Bool → ℕ → Memory → Buffer → Outcome Buffer
copy_from_user v none user_pointer is_null length memory destination =
    refused destination (failure Reason.null_context 0)
copy_from_user v (some cr3) user_pointer is_null length memory destination =
    if is_null
    then refused destination (failure Reason.null_context 0)
    else if not (is_user_address_range user_pointer length)
    then refused destination (failure Reason.bad_range 0)
    else copy_loop (attach v cr3) (λ flags. has_required_user_flags flags false) (load_from memory)
        user_pointer length length 0 destination

module _ (v : VirtualMemory) (cr3 : ℕ) (user_pointer destination_size : ℕ) (memory : Memory) where
  -- The loop of `copy_user_string`: `r` bytes of the destination are left, from `index` on.
  unfoldable pub string_loop : ℕ → ℕ → Buffer → Outcome Buffer
  string_loop zero index destination =
      refused (update destination (destination_size - 1) 0) (failure Reason.string_too_long 0)
  string_loop (suc r) index destination =
      elim (copy_from_user v (some cr3) ((user_pointer + index) % 2 ^ 64) false 1 memory (λ i. 0)) [
        | unfinished ↦ unfinished
        | refused _ reason ↦ refused destination reason
        | finished ch ↦ elim (ch 0 == 0) [
          | true ↦ finished (update destination index (ch 0))
          | false ↦ string_loop r (index + 1) (update destination index (ch 0))
        ]
      ]

-- `copy_user_string(frames, thread, user_pointer, destination, destination_size)`
unfoldable pub copy_user_string :
    VirtualMemory → Option ℕ → ℕ → Bool → ℕ → Memory → Buffer → Outcome Buffer
copy_user_string v none user_pointer is_null destination_size memory destination =
    refused destination (failure Reason.null_context 0)
copy_user_string v (some cr3) user_pointer is_null destination_size memory destination =
    if is_null || (destination_size == 0) || (user_pointer == 0)
    then refused destination (failure Reason.null_context 0)
    else string_loop v cr3 user_pointer destination_size memory destination_size 0 destination
