-- ===== src/UserCopy/Strings.antt =====
-- copy_user_string on a string of the thread.
use os.Base.{
  ℕ, zero, suc, ◌+◌, ◌%◌, ◌^◌, ◌≤◌, ◌<◌, ◌≡◌, ◌≢◌, refl, true, false, inl, inr, Bool-cases, some,
  ◌==◌, ◌&&◌, ◌||◌, if◌then◌else◌, arith, ap, ◌∙◌, sym, leb, update,
}
use os.VirtualMemory.{VirtualMemory, translate}
use os.VirtualMemory.Ranges.{attach}
use os.UserAddress.{is_user_address_range, has_bit, has_required_user_flags}
use os.UserAddress.Range.{is_user_address_range_lem}
use os.UserCopy.{Outcome, finished, Memory, Buffer, copy_from_user, copy_user_string, string_loop}
use os.UserCopy.Result.{copy_from_user-Holds}
use os.UserCopy.StringLoop.{byte_at, loop-end, loop-next}

byte_of_range :
    (pointer k length : ℕ)
    → pointer < 2 ^ 64
    → length < 2 ^ 64
    → k < length
    → is_user_address_range pointer length ≡ true
    → (is_user_address_range (pointer + k) 1 ≡ true) × (pointer + k < 2 ^ 64)
byte_of_range pointer k length p l h r =
    let o = sym (is_user_address_range_lem pointer length p (omega (arith, h)) l) ∙ r in
    let below : pointer + k < 2 ^ 64 = ground (arith, o) in
    (
      is_user_address_range_lem (pointer + k) 1 below (omega arith) (omega arith)
          ∙ ground (arith, o),
      below,
    )

above_zero :
    (pointer length : ℕ)
    → pointer < 2 ^ 64
    → length < 2 ^ 64
    → 0 < length
    → is_user_address_range pointer length ≡ true
    → 0 < pointer
above_zero pointer length p l h r =
    let o = sym (is_user_address_range_lem pointer length p h l) ∙ r in ground (arith, o)

module _ (v : VirtualMemory) (cr3 user_pointer destination_size : ℕ) (memory : Memory) where
  abbrev loop : ℕ → ℕ → Buffer → Outcome Buffer
  loop = string_loop v cr3 user_pointer destination_size memory

  abbrev reads_byte : ℕ → Outcome Buffer
  reads_byte = byte_at v cr3 user_pointer destination_size memory

  loop-copies :
      (n r index : ℕ) (destination : Buffer) (bytes : ℕ → ℕ)
      → n < r
      → ((k : ℕ)
          → index ≤ k
          → k ≤ index + n
          → (ch : Buffer) × (reads_byte k ≡ finished ch) × (ch 0 ≡ bytes k))
      → ((k : ℕ) → index ≤ k → k < index + n → bytes k ≢ 0)
      → bytes (index + n) ≡ 0
      → (b : Buffer) × (loop r index destination ≡ finished b)
        × ((i : ℕ) → b i ≡ (if leb index i && leb i (index + n) then bytes i else destination i))
  loop-copies n zero index destination bytes h reads others last = absurd (omega (arith, h))
  loop-copies zero (suc r) index destination bytes h reads others last =
      let (ch, e, q) = reads index (omega arith) (omega arith) in
      let z : bytes index ≡ 0 = ap bytes (omega arith) ∙ last in
      (
        update destination index (ch 0),
        loop-end v cr3 user_pointer destination_size memory r index destination ch e
            (ground (arith, q, z)),
        λ i. elim (Bool-cases (index == i)) [
          | inl same ↦ rw same (ground (arith, q, same))
          | inr other ↦ ground (arith, other)
        ],
      )
  loop-copies (suc n) (suc r) index destination bytes h reads others last =
      let (ch, e, q) = reads index (omega arith) (omega arith) in
      let more : bytes index ≢ 0 = others index (omega arith) (omega arith) in
      let (b, d, c) =
        loop-copies n r (index + 1) (update destination index (ch 0)) bytes (omega (arith, h))
          (λ k l m. reads k (omega (arith, l)) (omega (arith, m)))
          (λ k l m. others k (omega (arith, l)) (omega (arith, m)))
          (ap bytes (omega arith) ∙ last) in
      (
        b,
        loop-next v cr3 user_pointer destination_size memory r index destination ch e
              (ground (arith, q, more))
            ∙ d,
        λ i. c i ∙ elim (Bool-cases (index == i)) [
          | inl same ↦ rw same (ground (arith, q, same))
          | inr other ↦ ground (arith, other)
        ],
      )

  -- A byte of the range, where its page is open to the thread.
  byte_at-mapped :
      (k length physical flags : ℕ)
      → user_pointer < 2 ^ 64
      → length < 2 ^ 64
      → k < length
      → is_user_address_range user_pointer length ≡ true
      → translate (attach v cr3) (user_pointer + k) ≡ some (physical, flags)
      → has_bit flags 2 ≡ true
      → (ch : Buffer) × (reads_byte k ≡ finished ch) × (ch 0 ≡ memory physical)
  byte_at-mapped k length physical flags p l h r t u =
      let (single, below) = byte_of_range user_pointer k length p l h r in
      let (ch, e, c) =
        copy_from_user-Holds v cr3 (user_pointer + k) 1 memory (λ i. 0) below (omega arith) single
          (λ i. physical) (λ i. flags)
          (λ i m. ap (λ x. translate (attach v cr3) x) (omega (arith, m)) ∙ t)
          (λ i m. unfold has_required_user_flags in rw u refl) in
      let wrapped : (user_pointer + k) % 2 ^ 64 ≡ user_pointer + k = omega (arith, below) in
      (ch, ap (λ x. copy_from_user v (some cr3) x false 1 memory (λ i. 0)) wrapped ∙ e, c 0)

  -- A string of `n` bytes and the zero byte after them, which lies in user space on pages with the
  -- user bit and is shorter than the destination, is copied with its zero byte, and
  -- `copy_user_string` succeeds; the rest of the destination stays the same.
  pub copy_user_string-copies :
      (n : ℕ) (destination : Buffer) (physical flags : ℕ → ℕ)
      → user_pointer < 2 ^ 64
      → n < destination_size
      → destination_size < 2 ^ 64
      → is_user_address_range user_pointer (n + 1) ≡ true
      → ((k : ℕ) → k ≤ n → translate (attach v cr3) (user_pointer + k) ≡ some (physical k, flags k))
      → ((k : ℕ) → k ≤ n → has_bit (flags k) 2 ≡ true)
      → ((k : ℕ) → k < n → memory (physical k) ≢ 0)
      → memory (physical n) ≡ 0
      → (b : Buffer) × (copy_user_string v
            (some cr3)
            user_pointer
            false
            destination_size
            memory
            destination
          ≡ finished b)
        × ((i : ℕ) → b i ≡ (if leb i n then memory (physical i) else destination i))
  unfolding copy_user_string
  copy_user_string-copies n destination physical flags p s l r maps users others last =
      let (b, e, c) =
        loop-copies n destination_size 0 destination (λ k. memory (physical k)) s
          (λ k f m.
            byte_at-mapped k (n + 1) (physical k) (flags k) p (omega (arith, s, l))
              (omega (arith, m)) r (maps k (omega (arith, m))) (users k (omega (arith, m))))
          (λ k f m. others k (omega (arith, m)))
          (ap (λ x. memory (physical x)) (omega arith) ∙ last) in
      let ok : (false || (destination_size == 0) || (user_pointer == 0)) ≡ false =
        ground
          (arith, s, above_zero user_pointer (n + 1) p (omega (arith, s, l)) (omega arith) r) in
      (b, rw ok e, λ i. c i ∙ ground arith)
