-- ===== src/UserCopy/Result.antt =====
-- What copy_from_user reads.
use os.Base.{
  ℕ, zero, suc, ◌+◌, ◌^◌, ◌≤◌, ◌<◌, ◌≡◌, ◌≢◌, refl, Bool, true, false, inl, inr, Bool-cases,
  Option-cases, some, ◌==◌, ◌&&◌, if◌then◌else◌, arith, ap, ◌∙◌, sym, ltb, leb,
}
use os.VirtualMemory.{VirtualMemory, translate}
use os.VirtualMemory.Ranges.{attach}
use os.UserAddress.{is_user_address_range, has_bit, has_required_user_flags}
use os.UserCopy.{
  Outcome, finished, refused, unfinished, Memory, Buffer, Failure, load_from, copy_from_user,
}
use os.UserCopy.Bytes.{each_byte, each_byte-on, byte-missing, byte-denied}
use os.UserCopy.Accepted.{copy_from_user-each_byte}

-- The bytes from `first` on, `count` of them, come from `bytes`, the others from `old`.
abbrev pub Holds : ℕ → ℕ → (ℕ → ℕ) → Buffer → Buffer → Type 0
Holds first count bytes old buffer =
    (i : ℕ) → buffer i ≡ (if leb first i && ltb i (first + count) then bytes i else old i)

abbrev opened : Outcome Buffer → Buffer
opened (finished b) = b
opened (refused b reason) = b
opened unfinished = λ i. 0

finished≢refused : {b c : Buffer} {f : Failure} → finished b ≢ refused c f
finished≢refused e = cc e

module _ (vm : VirtualMemory) (accept : ℕ → Bool) (memory : Memory) (pointer : ℕ) where
  abbrev read : ℕ → ℕ → Buffer → Outcome Buffer
  read = each_byte vm accept (load_from memory) pointer

  read-Holds :
      (left copied : ℕ) (old : Buffer) (physical flags : ℕ → ℕ)
      → ((k : ℕ)
          → copied ≤ k
          → k < copied + left
          → translate vm (pointer + k) ≡ some (physical k, flags k))
      → ((k : ℕ) → copied ≤ k → k < copied + left → accept (flags k) ≡ true)
      → (b : Buffer) × (read left copied old ≡ finished b)
        × Holds copied left (λ k. memory (physical k)) old b
  read-Holds zero copied old physical flags m a =
      (old, (unfold each_byte in refl), λ i. ground arith)
  read-Holds (suc left) copied old physical flags m a =
      let (b, e, h) =
        read-Holds left (copied + 1) (load_from memory (physical copied) copied old) physical flags
          (λ k l n. m k (omega (arith, l)) (omega (arith, n)))
          (λ k l n. a k (omega (arith, l)) (omega (arith, n))) in
      (
        b,
        each_byte-on vm accept (load_from memory) pointer left copied old (physical copied)
              (flags copied) (m copied (omega arith) (omega arith))
              (a copied (omega arith) (omega arith))
            ∙ e,
        λ i. ground (arith, h i),
      )

  read-zero : (copied : ℕ) (old : Buffer) → read zero copied old ≡ finished old
  unfolding each_byte
  read-zero copied old = refl

  -- The other direction: a copy that ends well has read each byte through a page that it accepts.
  read-finished :
      (left copied : ℕ) (old b : Buffer)
      → read left copied old ≡ finished b
      → ((i : ℕ) → i < copied → b i ≡ old i)
        × ((k : ℕ)
            → copied ≤ k
            → k < copied + left
            → (physical : ℕ) × (flags : ℕ) × (translate vm (pointer + k) ≡ some (physical, flags))
              × (accept flags ≡ true)
              × (b k ≡ memory physical))
  read-finished zero copied old b e = (
    (λ i l. ap (λ x. opened x i) (sym e ∙ read-zero copied old)),
    λ k l n. absurd (omega (arith, l, n)),
  )
  read-finished (suc left) copied old b e = elim (Option-cases (translate vm (pointer + copied))) [
    | inl m ↦ absurd (
        finished≢refused
          (sym e ∙ byte-missing vm accept (load_from memory) pointer left copied old m))
    | inr ((p, f), m) ↦ elim (Bool-cases (accept f)) [
      | inr a ↦ absurd (
          finished≢refused
            (sym e ∙ byte-denied vm accept (load_from memory) pointer left copied old p f m a))
      | inl a ↦
          let ih =
            read-finished left (copied + 1) (load_from memory p copied old) b (
              sym (each_byte-on vm accept (load_from memory) pointer left copied old p f m a)
              ∙ e) in
          (
            (λ i l. ih.0 i (omega (arith, l)) ∙ ground (arith, l)),
            λ k l n. elim (Bool-cases (copied == k)) [
              | inl q ↦ (
                p,
                f,
                ap (λ x. translate vm (pointer + x)) (ground (arith, q)) ∙ m,
                a,
                ap b (ground (arith, q)) ∙ ih.0 copied (omega arith) ∙ ground arith,
              )
              | inr q ↦ ih.1 k (ground (arith, q, l)) (omega (arith, n))
            ],
          )
    ]
  ]

user_bit : (flags : ℕ) → has_required_user_flags flags false ≡ true → has_bit flags 2 ≡ true
unfolding has_required_user_flags
user_bit flags h = ground (arith, h)

module _ (v : VirtualMemory) (cr3 user_pointer length : ℕ) (memory : Memory) (destination : Buffer)
    (pointer_bound : user_pointer < 2 ^ 64) (length_bound : length < 2 ^ 64)
    (in_range : is_user_address_range user_pointer length ≡ true) where
  -- Where every address of a range inside user space leads to a page that its flags open to the
  -- thread, `copy_from_user` succeeds: the bytes of the destination up to the length are those at
  -- the physical addresses, the others are the same.
  pub copy_from_user-Holds :
      (physical flags : ℕ → ℕ)
      → ((k : ℕ)
          → k < length
          → translate (attach v cr3) (user_pointer + k) ≡ some (physical k, flags k))
      → ((k : ℕ) → k < length → has_required_user_flags (flags k) false ≡ true)
      → (b : Buffer) × (copy_from_user v (some cr3) user_pointer false length memory destination
          ≡ finished b)
        × Holds 0 length (λ k. memory (physical k)) destination b
  copy_from_user-Holds physical flags m a =
      let (b, e, h) =
        read-Holds (attach v cr3) (λ flags. has_required_user_flags flags false) memory user_pointer
          length 0 destination physical flags (λ k l n. m k (omega (arith, n)))
          (λ k l n. a k (omega (arith, n))) in
      (
        b,
        copy_from_user-each_byte v cr3 user_pointer length pointer_bound length_bound in_range
              memory destination
            ∙ e,
        h,
      )

  -- Where `copy_from_user` succeeds on a range inside user space, every byte of the destination up
  -- to the length comes from a page to which the address leads and which has the user bit.
  pub copy_from_user-finished :
      (b : Buffer) (k : ℕ)
      → copy_from_user v (some cr3) user_pointer false length memory destination ≡ finished b
      → k < length
      → (physical : ℕ) × (flags : ℕ) × (translate (attach v cr3) (user_pointer + k)
          ≡ some (physical, flags))
        × (has_bit flags 2 ≡ true)
        × (b k ≡ memory physical)
  copy_from_user-finished b k e l =
      let (physical, flags, t, a, r) =
        (read-finished (attach v cr3) (λ flags. has_required_user_flags flags false) memory
            user_pointer length 0 destination b
            (sym (
                copy_from_user-each_byte v cr3 user_pointer length pointer_bound length_bound
                  in_range memory destination)
              ∙ e)).1
          k (omega arith) (omega (arith, l)) in
      (physical, flags, t, user_bit flags a, r)
