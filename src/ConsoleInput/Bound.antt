-- ===== src/ConsoleInput/Bound.antt =====
-- The length of the pending line.
use os.Base.{
  ℕ, ◌+◌, ◌≤◌, ◌≡◌, refl, inl, inr, List, [], ◌∷◌, length, length-append, leb, ◌==◌, arith,
  Bool-cases,
}
use os.ConsoleInput.{
  ConsoleInput, commit_pending_line, handle_input_char, handle_normalized, normalized,
  console_input_completed_line_capacity, console_input_max_line_bytes, newline, backspace, isprint,
  drop_last,
}

length-drop_last : (xs : List ℕ) → length (drop_last xs) ≤ length xs
length-drop_last [] = omega arith
length-drop_last (x ∷ []) = omega arith
length-drop_last (x ∷ y ∷ ys) = omega (arith, length-drop_last (y ∷ ys))

commit_pending_line-clears : (c : ConsoleInput) → (commit_pending_line c).pending_line ≡ []
unfolding commit_pending_line
commit_pending_line-clears c =
    elim (Bool-cases (c.completed_count == console_input_completed_line_capacity)) [
      | inl e ↦ rw e refl
      | inr e ↦ rw e refl
    ]

-- If the pending line fits its buffer with a newline behind it, it does so after `handle_input_char`,
-- whatever the character is.
pub handle_input_char-bound :
    (c : ConsoleInput) (ascii : ℕ)
    → length c.pending_line + 1 ≤ console_input_max_line_bytes
    → length (handle_input_char c ascii).pending_line + 1 ≤ console_input_max_line_bytes
unfolding handle_input_char handle_normalized
handle_input_char-bound c ascii h = bound (normalized ascii)
  where
    bound : (n : ℕ) → length (handle_normalized c n).pending_line + 1 ≤ console_input_max_line_bytes
    bound n = elim (Bool-cases (n == backspace)) [
      | inl e ↦ rw (e, handle_normalized) (omega (arith, length-drop_last c.pending_line))
      | inr e ↦ elim (Bool-cases (n == newline)) [
        | inl k ↦ rw (e, k, commit_pending_line-clears, handle_normalized) (omega arith)
        | inr k ↦ elim (Bool-cases (isprint n)) [
          | inr p ↦ rw (e, k, p, handle_normalized) h
          | inl p ↦
              elim (Bool-cases (leb console_input_max_line_bytes (length c.pending_line + 1))) [
                | inl f ↦ rw (e, k, p, f, handle_normalized) h
                | inr f ↦
                    rw (e, k, p, f, handle_normalized)
                      (ground (arith, length-append c.pending_line (n ∷ [])))
              ]
        ]
      ]
    ]
