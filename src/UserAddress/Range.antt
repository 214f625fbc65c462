-- ===== src/UserAddress/Range.antt =====
-- The range check against the interval of user space.
use os.Base.{
  ℕ, ◌+◌, ◌-◌, ◌/◌, ◌%◌, ◌^◌, ◌≤◌, ◌<◌, ◌≡◌, refl, inl, inr, Bool, true, false, ◌&&◌, ◌||◌, not,
  leb, ltb, ◌==◌, arith, Bool-cases, ◌∙◌, sym, ap, false≢true,
}
use os.UserAddress.{
  user_space_base, user_stack_top, is_canonical_virtual_address, ends_in_user_space,
  is_user_address_range,
}

low-canonical : (a : ℕ) → a < 2 ^ 48 → is_canonical_virtual_address a ≡ true
unfolding is_canonical_virtual_address
low-canonical a h = let k : a / 2 ^ 48 ≡ 0 = omega arith in rw k refl

abbrev lies_inside : ℕ → ℕ → Bool
lies_inside address length = leb user_space_base address && leb (address + length) user_stack_top

inside-bounds :
    (address length : ℕ)
    → lies_inside address length ≡ true
    → (user_space_base ≤ address) × (address + length ≤ user_stack_top)
inside-bounds address length h = (ground arith, ground arith)

-- The end of the check, where the last byte does not wrap.
ends_in_user_space_lem :
    (address length : ℕ)
    → 0 < length
    → ends_in_user_space address (address + (length - 1)) ≡ lies_inside address length
unfolding ends_in_user_space
ends_in_user_space_lem address length b =
    elim (Bool-cases (is_canonical_virtual_address (address + (length - 1)))) [
      | inl k ↦ rw k (ground arith)
      | inr k ↦ rw k (elim (Bool-cases (lies_inside address length)) [
        | inr o ↦ sym o
        | inl o ↦
            let s = inside-bounds address length o in
            absurd
              (false≢true (sym k ∙ low-canonical (address + (length - 1)) (omega (arith, s.1))))
      ])
    ]

-- A 64-bit range that is not empty is accepted exactly if all its bytes lie between the base of user
-- space and the top of the user stack, wrap-around excluded.
pub is_user_address_range_lem :
    (address length : ℕ)
    → address < 2 ^ 64
    → 0 < length
    → length < 2 ^ 64
    → is_user_address_range address length
      ≡ (leb user_space_base address && leb (address + length) user_stack_top)
unfolding is_user_address_range
is_user_address_range_lem address length a b c =
    let some_bytes : (length == 0) ≡ false = ground arith in
    elim (Bool-cases ((0 == address) || not (is_canonical_virtual_address address))) [
      | inl h ↦
          rw (some_bytes, h)
            (elim (Bool-cases (lies_inside address length)) [
              | inr o ↦ sym o
              | inl o ↦
                  let s = inside-bounds address length o in
                  let k = low-canonical address (omega (arith, s.1)) in
                  let z : (0 == address) ≡ false = let q = s.0 in ground arith in
                  absurd (
                    false≢true (
                      sym (ap (λ x. x || not (is_canonical_virtual_address address)) z ∙ ap not k)
                      ∙ h))
            ])
      | inr h ↦ elim (Bool-cases (ltb (2 ^ 64 - 1 - (length - 1)) address)) [
        | inl w ↦
            let wraps : 2 ^ 64 - 1 - (length - 1) < address = ground arith in
            rw (some_bytes, h, w)
              (elim (Bool-cases (lies_inside address length)) [
                | inr o ↦ sym o
                | inl o ↦ let s = inside-bounds address length o in absurd (omega (arith, s.1))
              ])
        | inr w ↦
            let fits : address ≤ 2 ^ 64 - 1 - (length - 1) = ground arith in
            let last : (address + (length - 1)) % 2 ^ 64 ≡ address + (length - 1) = omega arith in
            rw (some_bytes, h, w, last) (ends_in_user_space_lem address length b)
      ]
    ]
