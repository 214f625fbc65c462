-- ===== src/ConsoleInput/Tests.antt =====
-- Two completed lines across the end of the ring, and a third being typed.
use os.Base.{
  ℕ, ◌+◌, ◌≤◌, ◌<◌, ◌≡◌, refl, ◌⊎◌, none, some, List, [], ◌∷◌, length, get_elem?, ◌%◌, arith, ◌==◌,
  if◌then◌else◌, zero, suc,
}
use os.ConsoleInput.{ConsoleInput, console_input_pop_line}
use os.ConsoleInput.Lines.{Holds, console_input_pop_line-Holds}

abbrev console : ConsoleInput
console = record {
  pending_line = 104 ∷ 105 ∷ [];
  completed_lines = λ slot. if slot == 7 then 97 ∷ 10 ∷ [] else if slot == 0 then 10 ∷ [] else [];
  completed_head = 7;
  completed_tail = 1;
  completed_count = 2;
}

abbrev lines : List (List ℕ)
lines = (97 ∷ 10 ∷ []) ∷ (10 ∷ []) ∷ []

console-Holds : Holds console lines
console-Holds = record {
  head_small = omega arith;
  counted = refl;
  room = omega arith;
  tail_next = refl;
  kept = kept;
}
  where
    kept : (i : ℕ) → i < 2 → get_elem? lines i ≡ some (console.completed_lines ((7 + i) % 8))
    kept zero h = refl
    kept (suc zero) h = refl
    kept (suc (suc i)) h = absurd (omega arith)

console_input_pop_line-Holds_example :
    let (c', result) = console_input_pop_line console 80 in
    ((lines ≡ []) × (result ≡ none) × (c' ≡ console))
    ⊎ ((line : List ℕ) × (rest : List (List ℕ)) × (lines ≡ line ∷ rest)
        × (((80 < length line) × (result ≡ none) × (c' ≡ console))
            ⊎ ((length line ≤ 80) × (result ≡ some line) × Holds c' rest)))
console_input_pop_line-Holds_example = console_input_pop_line-Holds 80 console-Holds (omega arith)
