-- ===== src/UserCopy/StringLoop.antt =====
-- The rounds of the loop of copy_user_string.
use os.Base.{ℕ, suc, ◌+◌, ◌%◌, ◌^◌, ◌≡◌, refl, true, false, some, ◌==◌, update}
use os.VirtualMemory.{VirtualMemory}
use os.UserCopy.{
  Outcome, finished, refused, unfinished, Failure, Memory, Buffer, copy_from_user, string_loop,
}

module _ (v : VirtualMemory) (cr3 user_pointer destination_size : ℕ) (memory : Memory) where
  abbrev pub loop : ℕ → ℕ → Buffer → Outcome Buffer
  loop = string_loop v cr3 user_pointer destination_size memory

  -- Byte `k` of the string, read by itself.
  abbrev pub byte_at : ℕ → Outcome Buffer
  byte_at k = copy_from_user v (some cr3) ((user_pointer + k) % 2 ^ 64) false 1 memory (λ i. 0)

  pub loop-end :
      (r index : ℕ) (destination ch : Buffer)
      → byte_at index ≡ finished ch
      → (ch 0 == 0) ≡ true
      → loop (suc r) index destination ≡ finished (update destination index (ch 0))
  unfolding string_loop
  loop-end r index destination ch e z = rw (e, string_loop) (rw z refl)

  pub loop-next :
      (r index : ℕ) (destination ch : Buffer)
      → byte_at index ≡ finished ch
      → (ch 0 == 0) ≡ false
      → loop (suc r) index destination ≡ loop r (index + 1) (update destination index (ch 0))
  unfolding string_loop
  loop-next r index destination ch e z = rw (e, string_loop) (rw z refl)

  pub loop-stops :
      (r index : ℕ) (destination ch : Buffer) (f : Failure)
      → byte_at index ≡ refused ch f
      → loop (suc r) index destination ≡ refused destination f
  unfolding string_loop
  loop-stops r index destination ch f e = rw (e, string_loop) refl

  pub loop-waits :
      (r index : ℕ) (destination : Buffer)
      → byte_at index ≡ unfinished
      → loop (suc r) index destination ≡ unfinished
  unfolding string_loop
  loop-waits r index destination e = rw (e, string_loop) refl
