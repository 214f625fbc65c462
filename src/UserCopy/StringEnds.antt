-- ===== src/UserCopy/StringEnds.antt =====
-- The string that copy_user_string leaves.
use os.Base.{
  ℕ, zero, suc, ◌+◌, ◌≤◌, ◌<◌, ◌≡◌, ◌≢◌, refl, false, inl, inr, ◌⊎◌, Bool-cases, some, ◌==◌, ◌||◌,
  arith, ap, ◌∙◌, sym, update,
}
use os.VirtualMemory.{VirtualMemory}
use os.UserCopy.{
  Outcome, finished, refused, unfinished, Failure, Memory, Buffer, copy_user_string, string_loop,
}
use os.UserCopy.StringLoop.{byte_at, loop-end, loop-next, loop-stops, loop-waits}

Outcome-cases :
    (o : Outcome Buffer)
    → ((b : Buffer) × (o ≡ finished b))
      ⊎ (((b : Buffer) × (f : Failure) × (o ≡ refused b f)) ⊎ (o ≡ unfinished))
Outcome-cases (finished b) = inl (b, refl)
Outcome-cases (refused b f) = inr (inl (b, f, refl))
Outcome-cases unfinished = inr (inr refl)

abbrev opened : Outcome Buffer → Buffer
opened (finished b) = b
opened (refused b reason) = b
opened unfinished = λ i. 0

-- From `first` on the buffer holds a string whose zero byte is at `n`, one of `count` offsets, and
-- elsewhere what the old one holds.
abbrev pub IsString : ℕ → ℕ → Buffer → Buffer → ℕ → Type 0
IsString first count old b n =
    (first ≤ n)
    × (n < first + count)
    × (b n ≡ 0)
    × ((i : ℕ) → first ≤ i → i < n → b i ≢ 0)
    × ((i : ℕ) → (i < first) ⊎ (n < i) → b i ≡ old i)

module _ (v : VirtualMemory) (cr3 user_pointer destination_size : ℕ) (memory : Memory) where
  abbrev loop : ℕ → ℕ → Buffer → Outcome Buffer
  loop = string_loop v cr3 user_pointer destination_size memory

  abbrev reads_byte : ℕ → Outcome Buffer
  reads_byte = byte_at v cr3 user_pointer destination_size memory

  loop-ends :
      (r index : ℕ) (destination b : Buffer)
      → loop r index destination ≡ finished b
      → (n : ℕ) × IsString index r destination b n
  loop-ends zero index destination b e = absurd (unfold string_loop in cc e)
  loop-ends (suc r) index destination b e = elim (Outcome-cases (reads_byte index)) [
    | inr (inl (c, f, q)) ↦
        absurd
          (cc (loop-stops v cr3 user_pointer destination_size memory r index destination c f q, e))
    | inr (inr q) ↦
        absurd (cc (loop-waits v cr3 user_pointer destination_size memory r index destination q, e))
    | inl (ch, q) ↦ elim (Bool-cases (ch 0 == 0)) [
      | inl z ↦
          let s : update destination index (ch 0) ≡ b = ap opened (
            sym (loop-end v cr3 user_pointer destination_size memory r index destination ch q z)
            ∙ e) in
          (
            index,
            (
              omega arith,
              omega arith,
              sym (ap (λ x. x index) s) ∙ ground (arith, z),
              (λ i l m. absurd (omega (arith, l, m))),
              λ i o. sym (ap (λ x. x i) s) ∙ ground (arith, o),
            ),
          )
      | inr z ↦
          let (n, (l, m, t, others, rest)) =
            loop-ends r (index + 1) (update destination index (ch 0)) b (
              sym (loop-next v cr3 user_pointer destination_size memory r index destination ch q z)
              ∙ e) in
          (
            n,
            (
              omega (arith, l),
              omega (arith, m),
              t,
              (λ i g h. elim (Bool-cases (index == i)) [
                | inl same ↦
                    let k : b i ≡ ch 0 =
                      rest i (inl (ground (arith, same))) ∙ ground (arith, same) in
                    ground (arith, k, z)
                | inr other ↦ others i (ground (arith, g, other)) h
              ]),
              λ i o. elim (Bool-cases (index == i)) [
                | inl same ↦ absurd (ground (arith, same, o, l))
                | inr other ↦ rest i (ground (arith, o, other)) ∙ rw other refl
              ],
            ),
          )
    ]
  ]

  -- Where `copy_user_string` succeeds, whatever the address, the destination holds a string that
  -- ends inside it: a zero byte with no zero byte before it, and past it nothing is written.
  pub copy_user_string-IsString :
      (destination b : Buffer)
      → copy_user_string v (some cr3) user_pointer false destination_size memory destination
        ≡ finished b
      → (n : ℕ) × IsString 0 destination_size destination b n
  unfolding copy_user_string
  copy_user_string-IsString destination b e =
      elim (Bool-cases (false || (destination_size == 0) || (user_pointer == 0))) [
        | inl bad ↦ absurd (cc (rw bad at e))
        | inr ok ↦ loop-ends destination_size 0 destination b (rw ok at e)
      ]
