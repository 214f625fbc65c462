-- ===== src/UserCopy/Bytes.antt =====
-- The loop of the copies against a copy of one byte after the other.
use os.Base.{
  ℕ, zero, suc, ◌+◌, ◌-◌, ◌%◌, ◌^◌, ◌≤◌, ◌<◌, ◌≡◌, refl, Bool, true, false, inl, inr, Bool-cases,
  Option-cases, none, some, arith, ap, ◌∙◌, sym, subst, ltb,
}
use os.PageFrame.{page_size}
use os.VirtualMemory.{VirtualMemory, translate}
use os.UserCopy.{Outcome, finished, refused, Reason, failure, chunk_of, move_bytes, copy_loop}
use os.UserCopy.Page.{further, translate-further}

module _ {S : Type 0} (vm : VirtualMemory) (accept : ℕ → Bool) (move : ℕ → ℕ → S → S)
    (pointer : ℕ) where
  -- The reference: every byte is translated and tested by itself. `left` bytes are left.
  unfoldable pub each_byte : ℕ → ℕ → S → Outcome S
  each_byte zero copied s = finished s
  each_byte (suc left) copied s = elim (translate vm (pointer + copied)) [
    | none ↦ refused s (failure Reason.not_translated copied)
    | some (physical, flags) ↦ elim (accept flags) [
      | false ↦ refused s (failure Reason.no_permission copied)
      | true ↦ each_byte left (copied + 1) (move physical copied s)
    ]
  ]

  pub each_byte-on :
      (left copied : ℕ) (s : S) (p f : ℕ)
      → translate vm (pointer + copied) ≡ some (p, f)
      → accept f ≡ true
      → each_byte (suc left) copied s ≡ each_byte left (copied + 1) (move p copied s)
  unfolding each_byte
  each_byte-on left copied s p f e a = rw (e, a, each_byte) refl

  pub byte-missing :
      (left copied : ℕ) (s : S)
      → translate vm (pointer + copied) ≡ none
      → each_byte (suc left) copied s ≡ refused s (failure Reason.not_translated copied)
  unfolding each_byte
  byte-missing left copied s e = rw (e, each_byte) refl

  pub byte-denied :
      (left copied : ℕ) (s : S) (p f : ℕ)
      → translate vm (pointer + copied) ≡ some (p, f)
      → accept f ≡ false
      → each_byte (suc left) copied s ≡ refused s (failure Reason.no_permission copied)
  unfolding each_byte
  byte-denied left copied s p f e a = rw (e, a, each_byte) refl

  -- The bytes of a chunk of a page.
  each_byte-chunk :
      (n left copied : ℕ) (s : S) (p f : ℕ)
      → translate vm (pointer + copied) ≡ some (p, f)
      → accept f ≡ true
      → (pointer + copied) % page_size + n ≤ page_size
      → each_byte (n + left) copied s ≡ each_byte left (copied + n) (move_bytes move p copied n s)
  each_byte-chunk zero left copied s p f e a h =
      subst (λ x. each_byte (0 + left) copied s ≡ each_byte left x s) (omega arith)
        (ap (λ x. each_byte x copied s) (omega arith))
  each_byte-chunk (suc zero) left copied s p f e a h =
      subst (λ x. each_byte x copied s ≡ each_byte left (copied + 1) (move p copied s))
        (omega arith) (each_byte-on left copied s p f e a)
  each_byte-chunk (suc (suc n)) left copied s p f e a h =
      let next : translate vm (pointer + (copied + 1)) ≡ some (p + 1, f) =
        ap (translate vm) (omega arith)
        ∙ translate-further (pointer + copied) 1 (omega (arith, h)) vm
        ∙ ap (further 1) e in
      subst
        (λ x.
          each_byte x copied s
          ≡ each_byte left (copied + suc (suc n))
              (move_bytes move (p + 1) (copied + 1) (suc n) (move p copied s)))
        (omega arith)
        (each_byte-on (suc n + left) copied s p f e a
          ∙ each_byte-chunk (suc n) left (copied + 1) (move p copied s) (p + 1) f next a
              (omega (arith, h))
          ∙ ap
              (λ x.
                each_byte left x (move_bytes move (p + 1) (copied + 1) (suc n) (move p copied s)))
              (omega arith))

  module _ (length : ℕ) (no_wrap : pointer + length ≤ 2 ^ 64) where
    abbrev loop : ℕ → ℕ → S → Outcome S
    loop = copy_loop vm accept move pointer length

    loop-missing :
        (fuel copied : ℕ) (s : S)
        → ltb copied length ≡ true
        → (pointer + copied) % 2 ^ 64 ≡ pointer + copied
        → translate vm (pointer + copied) ≡ none
        → loop (suc fuel) copied s ≡ refused s (failure Reason.not_translated copied)
    unfolding copy_loop
    loop-missing fuel copied s more wrapped e = rw (more, wrapped, e, copy_loop) refl

    loop-denied :
        (fuel copied : ℕ) (s : S) (p f : ℕ)
        → ltb copied length ≡ true
        → (pointer + copied) % 2 ^ 64 ≡ pointer + copied
        → translate vm (pointer + copied) ≡ some (p, f)
        → accept f ≡ false
        → loop (suc fuel) copied s ≡ refused s (failure Reason.no_permission copied)
    unfolding copy_loop
    loop-denied fuel copied s p f more wrapped e a = rw (more, wrapped, e, a, copy_loop) refl

    loop-granted :
        (fuel copied : ℕ) (s : S) (p f : ℕ)
        → ltb copied length ≡ true
        → (pointer + copied) % 2 ^ 64 ≡ pointer + copied
        → translate vm (pointer + copied) ≡ some (p, f)
        → accept f ≡ true
        → loop (suc fuel) copied s ≡ (
            let chunk = chunk_of (pointer + copied) (length - copied) in
            loop fuel (copied + chunk) (move_bytes move p copied chunk s))
    unfolding copy_loop
    loop-granted fuel copied s p f more wrapped e a =
        rw (more, wrapped, e, a, copy_loop) (rw wrapped refl)

    -- With fuel for the bytes that are left the loop does what the reference does.
    copy_loop-bytes :
        (fuel copied : ℕ) (s : S)
        → copied ≤ length
        → length ≤ copied + fuel
        → loop fuel copied s ≡ each_byte (length - copied) copied s
    unfolding copy_loop
    copy_loop-bytes zero copied s l h =
        let done : ltb copied length ≡ false = ground (arith, h) in
        let none_left : length - copied ≡ 0 = omega (arith, h) in
        rw (none_left, done, copy_loop) (unfold each_byte in refl)
    copy_loop-bytes (suc fuel) copied s l h = elim (Bool-cases (ltb copied length)) [
      | inr done ↦
          let none_left : length - copied ≡ 0 = ground (arith, done, l) in
          rw (none_left, done, copy_loop) (unfold each_byte in refl)
      | inl more ↦
          let left : length - copied ≡ suc (length - copied - 1) = ground (arith, more) in
          let wrapped : (pointer + copied) % 2 ^ 64 ≡ pointer + copied =
            omega (arith, no_wrap, left) in
          elim (Option-cases (translate vm (pointer + copied))) [
            | inl missing ↦
                loop-missing fuel copied s more wrapped missing
                ∙ rw left (sym (byte-missing (length - copied - 1) copied s missing))
            | inr ((p, f), found) ↦ elim (Bool-cases (accept f)) [
              | inr denied ↦
                  loop-denied fuel copied s p f more wrapped found denied
                  ∙ rw left (sym (byte-denied (length - copied - 1) copied s p f found denied))
              | inl granted ↦
                  let n : ℕ = chunk_of (pointer + copied) (length - copied) in
                  let some_bytes : 0 < n = ground (arith, left) in
                  let no_more : n ≤ length - copied = ground arith in
                  let one_page : (pointer + copied) % page_size + n ≤ page_size = ground arith in
                  loop-granted fuel copied s p f more wrapped found granted
                  ∙ copy_loop-bytes fuel (copied + n) (move_bytes move p copied n s)
                      (omega (arith, no_more, left)) (omega (arith, some_bytes, h))
                  ∙ sym (
                      each_byte-chunk n (length - (copied + n)) copied s p f found granted one_page)
                  ∙ ap (λ x. each_byte x copied s) (omega (arith, no_more, left))
            ]
          ]
    ]

    -- From the first byte on.
    pub copy_loop-each_byte : (s : S) → loop length 0 s ≡ each_byte length 0 s
    copy_loop-each_byte s =
        copy_loop-bytes length 0 s (omega arith) (omega arith)
        ∙ ap (λ x. each_byte x 0 s) (omega arith)
