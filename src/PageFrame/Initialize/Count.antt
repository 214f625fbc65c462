-- ===== src/PageFrame/Initialize/Count.antt =====
-- The loop that counts the free pages.
use os.Base.{
  ℕ, zero, suc, ◌+◌, ◌*◌, ◌≤◌, ◌<◌, ◌≡◌, refl, Bool, true, false, arith, ltb, if◌then◌else◌,
  Bool-cases, ◌∙◌, ap, sym, inl, inr, subst, ◌-◌,
}
use os.Bitmap.{Bitmap, count_below, count_below-add_one, count_below-flat}
use os.PageFrame.Initialize.{Counter, count_word, count_words, any_bit}

module _ (bm : Bitmap) (page_count limit : ℕ)
    (tail : (i : ℕ) → page_count ≤ i → i < 64 * limit → bm i ≡ false) where
  -- The counter has seen the bits below `n`; it is behind by the zero words that were skipped.
  record Seen (n : ℕ) (s : Counter) : Type 0 where
    counted : s.num_pages ≡ count_below bm n
    behind : s.ipage ≤ n

  Seen-flat :
      (a n : ℕ) (s : Counter)
      → ((i : ℕ) → a ≤ i → i < a + n → bm i ≡ false)
      → Seen a s
      → Seen (a + n) s
  Seen-flat a n s h v = record {
    counted = v.counted ∙ sym (count_below-flat bm a n h);
    behind = omega (arith, v.behind);
  }

  any_bit-false :
      (q b r : ℕ)
      → any_bit bm q b r ≡ false
      → (i : ℕ) → 64 * q + b ≤ i
      → i < 64 * q + b + r
      → bm i ≡ false
  unfolding any_bit
  any_bit-false q b zero e i h k = absurd (omega arith)
  any_bit-false q b (suc r) e i h k = ground (arith, any_bit-false q (b + 1) r (ground arith) i)

  count_word-Seen :
      (q b r : ℕ) (s : Counter)
      → 64 * q + b + r ≤ 64 * limit
      → Seen (64 * q + b) s
      → Seen (64 * q + b + r) (count_word bm page_count q b r s)
  unfolding count_word
  count_word-Seen q b zero s h v = Seen-flat (64 * q + b) 0 s (λ i p k. absurd (omega arith)) v
  count_word-Seen q b (suc r) s h v = elim (Bool-cases (ltb s.ipage page_count)) [
    | inl more ↦
        rw (more, count_word)
          (subst (λ n. Seen n (count_word bm page_count q (b + 1) r next)) shift
            (count_word-Seen q (b + 1) r next (omega arith) moved))
    | inr done ↦
        rw (done, count_word)
          (Seen-flat (64 * q + b) (suc r) s
            (λ i p k. tail i (ground (arith, v.behind)) (omega arith)) v)
  ]
    where
      shift : 64 * q + (b + 1) + r ≡ 64 * q + b + suc r
      shift = omega arith

      next : Counter
      next = record {
        num_pages = s.num_pages + (if bm (64 * q + b) then 1 else 0);
        ipage = s.ipage + 1;
      }

      along : 64 * q + b + 1 ≡ 64 * q + (b + 1)
      along = omega arith

      moved : Seen (64 * q + (b + 1)) next
      moved =
          subst (λ n. Seen n next) along
            (record {
              counted = omega (arith, count_below-add_one bm (64 * q + b), v.counted);
              behind = omega (arith, v.behind);
            })

  count_words-Seen :
      (q r : ℕ) (s : Counter)
      → q + r ≤ limit
      → Seen (64 * q) s
      → Seen (64 * (q + r)) (count_words bm page_count q r s)
  unfolding count_words
  count_words-Seen q zero s h v = subst (λ n. Seen n s) (omega arith) v
  count_words-Seen q (suc r) s h v =
      subst (λ n. Seen n (count_words bm page_count q (suc r) s)) (omega arith)
        (count_words-Seen (q + 1) r _ (omega arith)
          (subst (λ n. Seen n one) (omega arith) (word (any_bit bm q 0 64) refl)))
    where
      one : Counter
      one = if any_bit bm q 0 64 then count_word bm page_count q 0 64 s else s

      start : Seen (64 * q + 0) s
      start = subst (λ n. Seen n s) (omega arith) v

      word :
          (t : Bool)
          → any_bit bm q 0 64 ≡ t
          → Seen (64 * q + 0 + 64) (if t then count_word bm page_count q 0 64 s else s)
      word true e = count_word-Seen q 0 64 s (omega arith) start
      word false e = Seen-flat (64 * q + 0) 64 s (any_bit-false q 0 64 e) start

  -- The loop counts the free pages exactly, though `ipage` lags behind after a zero word, if no bit
  -- past the last page is set.
  pub count_words_lem :
      page_count ≤ 64 * limit
      → (count_words bm page_count 0 limit (record { num_pages = 0; ipage = 0 })).num_pages
        ≡ count_below bm page_count
  unfolding count_below
  count_words_lem covers =
      let all =
        count_words-Seen 0 limit (record { num_pages = 0; ipage = 0 }) (omega arith)
          (record { counted = refl; behind = omega arith }) in
      all.counted
      ∙ ap (count_below bm) (omega arith)
      ∙ count_below-flat bm page_count (64 * limit - page_count) (λ i p k. tail i p (omega arith))
