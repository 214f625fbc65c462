-- ===== src/ConsoleInput/Lines.antt =====
-- The queue of completed lines as a list.
use os.Base.{
  ℕ, zero, suc, ◌+◌, ◌-◌, ◌%◌, ◌≤◌, ◌<◌, ◌≡◌, refl, ◌≢◌, ◌⊎◌, inl, inr, true, false, none, some,
  List, [], ◌∷◌, ◌++◌, length, get_elem?, length-append, update, update_self, update_ne, ◌||◌, ltb,
  ◌==◌, arith, ap, ◌∙◌, sym, subst, Bool-cases, ℕ_discrete, dec_lt, some_inj,
}
use os.ConsoleInput.{
  ConsoleInput, commit_pending_line, console_input_pop_line, console_input_completed_line_capacity,
  newline,
}

-- The lines that wait to be read, the first one first.
pub record Holds (c : ConsoleInput) (lines : List (List ℕ)) : Type 0 where
  pub head_small : c.completed_head < console_input_completed_line_capacity
  pub counted : c.completed_count ≡ length lines
  pub room : c.completed_count ≤ console_input_completed_line_capacity
  pub tail_next :
      c.completed_tail
      ≡ (c.completed_head + c.completed_count) % console_input_completed_line_capacity
  pub kept :
      (i : ℕ)
      → i < c.completed_count
      → get_elem? lines i
        ≡ some (c.completed_lines ((c.completed_head + i) % console_input_completed_line_capacity))

get_elem?-append_left :
    (xs : List (List ℕ)) (y : List ℕ) (i : ℕ)
    → i < length xs
    → get_elem? (xs ++ y ∷ []) i ≡ get_elem? xs i
get_elem?-append_left [] y i h = absurd (omega arith)
get_elem?-append_left (x ∷ xs) y zero h = refl
get_elem?-append_left (x ∷ xs) y (suc i) h = get_elem?-append_left xs y i (omega arith)

get_elem?-append_end :
    (xs : List (List ℕ)) (y : List ℕ) → get_elem? (xs ++ y ∷ []) (length xs) ≡ some y
get_elem?-append_end [] y = refl
get_elem?-append_end (x ∷ xs) y = get_elem?-append_end xs y

abbrev committed : ConsoleInput → List ℕ → ConsoleInput
committed c line = record {
  pending_line = [];
  completed_lines = update c.completed_lines c.completed_tail line;
  completed_head = c.completed_head;
  completed_tail = (c.completed_tail + 1) % console_input_completed_line_capacity;
  completed_count = c.completed_count + 1;
}

joined :
    {c : ConsoleInput} {lines : List (List ℕ)} (line : List ℕ)
    → Holds c lines
    → c.completed_count < 8
    → Holds (committed c line) (lines ++ line ∷ [])
joined {c} {lines} line h fewer = record {
  head_small = h.head_small;
  counted = ap (λ n. n + 1) h.counted ∙ sym (length-append lines (line ∷ []));
  room = omega arith;
  tail_next = let t = h.tail_next in omega arith;
  kept = keeps;
}
  where
    keeps :
        (i : ℕ)
        → i < c.completed_count + 1
        → get_elem? (lines ++ line ∷ []) i
          ≡ some (
              (committed c line).completed_lines
                ((c.completed_head + i) % console_input_completed_line_capacity))
    keeps i l = elim (ℕ_discrete i c.completed_count) [
      | yes e ↦
          rw (e, sym h.tail_next, update_self c.completed_lines c.completed_tail line)
            (ap (get_elem? (lines ++ line ∷ [])) h.counted ∙ get_elem?-append_end lines line)
      | no ne ↦
          let t = h.tail_next in
          let s = h.head_small in
          let k = h.counted in
          let other : c.completed_tail ≢ (c.completed_head + i) % 8 = λ e. omega (arith, ne, e) in
          rw (update_ne c.completed_lines c.completed_tail ((c.completed_head + i) % 8) line other)
            (get_elem?-append_left lines line i (omega (arith, ne)) ∙ h.kept i (omega (arith, ne)))
    ]

abbrev popped : ConsoleInput → ConsoleInput
popped c = record c {
  completed_lines = update c.completed_lines c.completed_head [];
  completed_head = (c.completed_head + 1) % console_input_completed_line_capacity;
  completed_count = c.completed_count - 1;
}

pops_none :
    (c : ConsoleInput) (buffer_size : ℕ)
    → c.completed_count ≡ 0
    → console_input_pop_line c buffer_size ≡ (c, none)
unfolding console_input_pop_line
pops_none c n e = let k : ((n == 0) || (c.completed_count == 0)) ≡ true = ground arith in rw k refl

module _ (c : ConsoleInput) (buffer_size : ℕ) (waits : 0 < c.completed_count)
    (buffer : 0 < buffer_size) where
  pops_short :
      buffer_size < length (c.completed_lines c.completed_head)
      → console_input_pop_line c buffer_size ≡ (c, none)
  unfolding console_input_pop_line
  pops_short s =
      let k : ((buffer_size == 0) || (c.completed_count == 0)) ≡ false = ground arith in
      let l : ltb buffer_size (length (c.completed_lines c.completed_head)) ≡ true = ground arith in
      rw (k, l) refl

  pops_line :
      length (c.completed_lines c.completed_head) ≤ buffer_size
      → console_input_pop_line c buffer_size ≡ (popped c, some (c.completed_lines c.completed_head))
  unfolding console_input_pop_line
  pops_line s =
      let k : ((buffer_size == 0) || (c.completed_count == 0)) ≡ false = ground arith in
      let l : ltb buffer_size (length (c.completed_lines c.completed_head)) ≡ false =
        ground arith in
      rw (k, l) refl

left_over :
    {c : ConsoleInput} {line : List ℕ} {rest : List (List ℕ)}
    → Holds c (line ∷ rest)
    → Holds (popped c) rest
left_over {c} {line} {rest} h = record {
  head_small = omega arith;
  counted = let k = h.counted in omega arith;
  room = let r = h.room in omega arith;
  tail_next = let t = h.tail_next in let k = h.counted in let s = h.head_small in omega arith;
  kept = keeps;
}
  where
    keeps :
        (i : ℕ)
        → i < c.completed_count - 1
        → get_elem? rest i
          ≡ some (
              (popped c).completed_lines
                (((popped c).completed_head + i) % console_input_completed_line_capacity))
    keeps i l =
        let s = h.head_small in
        let r = h.room in
        let at : ((c.completed_head + 1) % 8 + i) % 8 ≡ (c.completed_head + suc i) % 8 =
          omega arith in
        let other : c.completed_head ≢ (c.completed_head + suc i) % 8 = λ e. omega (arith, e) in
        rw
          (
            at,
            update_ne c.completed_lines c.completed_head ((c.completed_head + suc i) % 8) [] other,
          )
          (h.kept (suc i) (omega arith))

-- What the end of a line does to a queue that holds `lines`: where eight lines wait already it is dropped; else it waits behind the
-- others, its newline included. Either way the next line starts empty.
pub commit_pending_line-Holds :
    {c : ConsoleInput} {lines : List (List ℕ)}
    → Holds c lines
    → let c' = commit_pending_line c in
      (c'.pending_line ≡ [])
      × (((length lines ≡ 8) × Holds c' lines)
          ⊎ ((length lines < 8) × Holds c' (lines ++ (c.pending_line ++ newline ∷ []) ∷ [])))
unfolding commit_pending_line
commit_pending_line-Holds {c} {lines} h =
    elim (Bool-cases (c.completed_count == console_input_completed_line_capacity)) [
      | inl e ↦ rw e (
        refl,
        inl (
          let k = h.counted in ground arith,
          record {
            head_small = h.head_small;
            counted = h.counted;
            room = h.room;
            tail_next = h.tail_next;
            kept = h.kept;
          },
        ),
      )
      | inr e ↦
          let fewer : c.completed_count < 8 = let r = h.room in ground arith in
          rw e (
            refl,
            inr (let k = h.counted in omega arith, joined (c.pending_line ++ newline ∷ []) h fewer),
          )
    ]

-- On a queue that holds `lines` and for a buffer that is not empty, `console_input_pop_line` hands out
-- the first line and leaves the others in their order, exactly where a line waits and fits the buffer;
-- else it changes nothing.
pub console_input_pop_line-Holds :
    {c : ConsoleInput} {lines : List (List ℕ)} (buffer_size : ℕ)
    → Holds c lines
    → 0 < buffer_size
    → let (c', result) = console_input_pop_line c buffer_size in
      ((lines ≡ []) × (result ≡ none) × (c' ≡ c))
      ⊎ ((line : List ℕ) × (rest : List (List ℕ)) × (lines ≡ line ∷ rest)
          × (((buffer_size < length line) × (result ≡ none) × (c' ≡ c))
              ⊎ ((length line ≤ buffer_size) × (result ≡ some line) × Holds c' rest)))
console_input_pop_line-Holds {c} {lines = []} n h b =
    let e = pops_none c n h.counted in inl (refl, ap (λ x. x.1) e, ap (λ x. x.0) e)
console_input_pop_line-Holds {c} {lines = line ∷ rest} n h b = inr (
  line,
  rest,
  refl,
  elim (dec_lt n (length line)) [
    | yes s ↦
        let e = pops_short c n waits b (subst (λ x. n < length x) first s) in
        inl (s, ap (λ x. x.1) e, ap (λ x. x.0) e)
    | no s ↦
        let fits : length line ≤ n = omega (arith, s) in
        let e = pops_line c n waits b (subst (λ x. length x ≤ n) first fits) in
        inr (
          fits,
          ap (λ x. x.1) e ∙ ap some (sym first),
          subst (λ x. Holds x rest) (sym (ap (λ x. x.0) e)) (left_over h),
        )
  ],
)
  where
    waits : 0 < c.completed_count
    waits = let k = h.counted in omega arith

    first : line ≡ c.completed_lines c.completed_head
    first =
        let s = h.head_small in
        let at : (c.completed_head + 0) % 8 ≡ c.completed_head = omega arith in
        some_inj (h.kept 0 waits ∙ ap (λ j. some (c.completed_lines j)) at)
