-- ===== src/ConsoleInput.antt =====
-- Line input: src/kernel/console/console_input.cpp. A character is its code; the pending line is the
-- list of the first `g_pending_length` characters, and a slot of the queue of completed lines is the
-- list of the characters that its length covers. The echo to the terminal is left out. Each function
-- runs under `g_console_input_lock`.
pub mod Lines
pub mod Bound
pub mod Tests
use os.Base.{
  ℕ, ◌+◌, ◌-◌, ◌%◌, Bool, Option, none, some, List, [], ◌∷◌, ◌++◌, length, update, ◌&&◌, ◌||◌, not,
  leb, ltb, ◌==◌, if◌then◌else◌,
}

-- `kConsoleInputMaxLineBytes`
abbrev pub console_input_max_line_bytes : ℕ
console_input_max_line_bytes = 128

-- `kConsoleInputCompletedLineCapacity`
abbrev pub console_input_completed_line_capacity : ℕ
console_input_completed_line_capacity = 8

pub record ConsoleInput : Type 0 where
  pub pending_line : List ℕ
  pub completed_lines : ℕ → List ℕ
  pub completed_head : ℕ
  pub completed_tail : ℕ
  pub completed_count : ℕ

abbrev pub newline : ℕ
newline = 10

abbrev pub backspace : ℕ
backspace = 8

unfoldable pub commit_pending_line : ConsoleInput → ConsoleInput
commit_pending_line c =
    if c.completed_count == console_input_completed_line_capacity
    then record c { pending_line = [] }
    else record {
      pending_line = [];
      completed_lines = update c.completed_lines c.completed_tail (c.pending_line ++ newline ∷ []);
      completed_head = c.completed_head;
      completed_tail = (c.completed_tail + 1) % console_input_completed_line_capacity;
      completed_count = c.completed_count + 1;
    }

-- `isprint` of src/kernel/util/ctype.hpp, where `char` is signed: a code from 128 on is negative.
unfoldable pub isprint : ℕ → Bool
isprint c = leb 32 c && ltb c 128

-- `'\r'` is read as `'\n'`, and DEL as a backspace.
unfoldable pub normalized : ℕ → ℕ
normalized ascii =
    if ascii == 13
    then newline
    else if (ascii == 0x7F) || (ascii == backspace)
    then backspace
    else ascii

-- The line without its last character.
abbrev pub drop_last : List ℕ → List ℕ
drop_last [] = []
drop_last (x ∷ xs) = elim xs [ [] ↦ [] | y ∷ ys ↦ x ∷ drop_last xs ]

unfoldable pub handle_normalized : ConsoleInput → ℕ → ConsoleInput
handle_normalized c ascii =
    if ascii == backspace
    then record c { pending_line = drop_last c.pending_line }
    else if ascii == newline
    then commit_pending_line c
    else if not (isprint ascii)
    then c
    else if leb console_input_max_line_bytes (length c.pending_line + 1)
    then c
    else record c { pending_line = c.pending_line ++ ascii ∷ [] }

-- `handle_input_char(char ascii)`
unfoldable pub handle_input_char : ConsoleInput → ℕ → ConsoleInput
handle_input_char c ascii = handle_normalized c (normalized ascii)

-- `console_input_initialize()`
unfoldable pub console_input_initialize : ConsoleInput → ConsoleInput
console_input_initialize c = record {
  pending_line = [];
  completed_lines = λ slot. [];
  completed_head = 0;
  completed_tail = 0;
  completed_count = 0;
}

unfoldable pub console_input_has_line : ConsoleInput → Bool
console_input_has_line c = ltb 0 c.completed_count

-- `console_input_pop_line(buffer, buffer_size, line_length)` for a buffer that is not null; `none` is
-- false.
unfoldable pub console_input_pop_line : ConsoleInput → ℕ → ConsoleInput × Option (List ℕ)
console_input_pop_line c buffer_size =
    let line = c.completed_lines c.completed_head in
    if (buffer_size == 0) || (c.completed_count == 0)
    then (c, none)
    else if ltb buffer_size (length line)
    then (c, none)
    else (
      record c {
        completed_lines = update c.completed_lines c.completed_head [];
        completed_head = (c.completed_head + 1) % console_input_completed_line_capacity;
        completed_count = c.completed_count - 1;
      },
      some line,
    )
