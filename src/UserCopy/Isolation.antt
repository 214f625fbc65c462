-- ===== src/UserCopy/Isolation.antt =====
-- What copy_to_user leaves alone: the physical bytes that the thread may not write.
use os.Base.{
  ℕ, zero, suc, ◌+◌, ◌^◌, ◌≤◌, ◌<◌, ◌≡◌, refl, Bool, true, false, inl, inr, Bool-cases,
  Option-cases, Option, none, some, ◌==◌, ◌&&◌, arith, ap, ◌∙◌, sym, subst, false≢true,
}
use os.VirtualMemory.{VirtualMemory, translate}
use os.VirtualMemory.Ranges.{attach}
use os.UserAddress.{is_user_address_range, has_bit, has_required_user_flags}
use os.UserCopy.{Outcome, finished, refused, unfinished, Memory, Buffer, store_from, copy_to_user}
use os.UserCopy.Bytes.{each_byte, each_byte-on, byte-missing, byte-denied}
use os.UserCopy.Accepted.{copy_to_user-each_byte}

-- The copy ends, and `P` holds of the state that it leaves.
abbrev pub Leaves : {S : Type 0} → (S → Type 0) → Outcome S → Type 0
Leaves P (finished s) = P s
Leaves P (refused s reason) = P s
Leaves P unfinished = ⊥

module _ {S : Type 0} (vm : VirtualMemory) (accept : ℕ → Bool) (move : ℕ → ℕ → S → S)
    (pointer end : ℕ) (P : S → Type 0)
    (step : (k p f : ℕ) (s : S)
      → k < end
      → translate vm (pointer + k) ≡ some (p, f)
      → accept f ≡ true
      → P s
      → P (move p k s)) where
  -- What every move keeps, the copy keeps.
  pub each_byte-Leaves :
      (left copied : ℕ) (s : S)
      → left + copied ≤ end
      → P s
      → Leaves P (each_byte vm accept move pointer left copied s)
  each_byte-Leaves zero copied s h i = unfold each_byte in i
  each_byte-Leaves (suc left) copied s h i = elim (Option-cases (translate vm (pointer + copied))) [
    | inl e ↦ subst (Leaves P) (sym (byte-missing vm accept move pointer left copied s e)) i
    | inr ((p, f), e) ↦ elim (Bool-cases (accept f)) [
      | inr a ↦ subst (Leaves P) (sym (byte-denied vm accept move pointer left copied s p f e a)) i
      | inl a ↦ subst (Leaves P) (sym (each_byte-on vm accept move pointer left copied s p f e a)) (
          each_byte-Leaves left (copied + 1) (move p copied s) (omega (arith, h))
            (step copied p f s (omega (arith, h)) e a i))
    ]
  ]

both_bits :
    (flags : ℕ)
    → has_required_user_flags flags true ≡ true
    → has_bit flags 2 && has_bit flags 1 ≡ true
unfolding has_required_user_flags
both_bits flags h = ground (arith, h)

-- `copy_to_user` ends, and it leaves a byte of physical memory alone, whether it succeeds or fails,
-- if every address of the range that leads to this byte does so through a page without the user bit
-- or without the write bit.
pub copy_to_user-Leaves :
    (v : VirtualMemory) (cr3 user_pointer length physical : ℕ) (source : Option Buffer)
    (memory : Memory)
    → user_pointer < 2 ^ 64
    → length < 2 ^ 64
    → ((k flags : ℕ)
        → k < length
        → translate (attach v cr3) (user_pointer + k) ≡ some (physical, flags)
        → has_bit flags 2 && has_bit flags 1 ≡ false)
    → Leaves
        (λ m. m physical ≡ memory physical)
        (copy_to_user v (some cr3) user_pointer source length memory)
unfolding copy_to_user
copy_to_user-Leaves v cr3 user_pointer length physical none memory a b closed = refl
copy_to_user-Leaves v cr3 user_pointer length physical (some source) memory a b closed =
    elim (Bool-cases (is_user_address_range user_pointer length)) [
      | inr e ↦ rw e refl
      | inl e ↦
          let kept : Memory → Type 0 = λ m. m physical ≡ memory physical in
          subst (Leaves kept)
            (sym (copy_to_user-each_byte v cr3 user_pointer length a b e source memory))
            (each_byte-Leaves (attach v cr3) (λ flags. has_required_user_flags flags true)
              (store_from source) user_pointer length kept
              (λ k p f m l t w i. elim (Bool-cases (p == physical)) [
                | inl q ↦ absurd (
                    false≢true (
                      sym (closed k f l (t ∙ ap (λ x. some (x, f)) (ground (arith, q))))
                      ∙ both_bits f w))
                | inr q ↦ rw q i
              ])
              length 0 memory (omega arith) refl)
    ]
