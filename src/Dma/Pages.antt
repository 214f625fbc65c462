-- ===== src/Dma/Pages.antt =====
-- free_buffer_pages on a run of busy pages.
use os.Base.{
  ℕ, zero, suc, ◌+◌, ◌-◌, ◌*◌, ◌/◌, ◌%◌, ◌^◌, ◌≤◌, ◌<◌, ◌≡◌, true, false, arith, ap, ◌∙◌, sym,
  subst, update, update_ne, fun_ext, dec_lt,
}
use os.Bitmap.{Bitmap, fill, fill_in, fill_out, fill_above}
use os.PageFrame.{PageFrameContainer, page_size, free}
use os.PageFrame.Inv.{WellFormed}
use os.PageFrame.Run.{IsRun, IsFirstRun, taken_run}
use os.PageFrame.Release.{free_accepts, returned, returned-WellFormed}
use os.Dma.{free_buffer_pages}

-- The pages `s`, ..., `s + n - 1` are handed out.
abbrev pub IsBusyRun : Bitmap → ℕ → ℕ → Type 0
IsBusyRun bm s n = (j : ℕ) → s ≤ j → j < s + n → bm j ≡ false

-- The container after these pages came back.
abbrev pub given_back : PageFrameContainer → ℕ → ℕ → PageFrameContainer
given_back c s n = record c {
  bitmap = fill c.bitmap s n true;
  free_page_count = c.free_page_count + n;
}

given_back-step :
    (c : PageFrameContainer) (s n : ℕ)
    → given_back (returned c s) (s + 1) n ≡ given_back c s (suc n)
unfolding fill
given_back-step c s n =
    ap
      (λ k. record c { bitmap = fill (update c.bitmap s true) (s + 1) n true; free_page_count = k })
      (omega arith)

busy_next :
    (c : PageFrameContainer) (s n : ℕ)
    → IsBusyRun c.bitmap s (suc n)
    → IsBusyRun (update c.bitmap s true) (s + 1) n
busy_next c s n b j p q =
    update_ne c.bitmap s j true (omega (arith, p)) ∙ b j (omega (arith, p)) (omega (arith, q))

pub free_buffer_pages_lem :
    (c : PageFrameContainer) (start page r : ℕ)
    → c.initialized ≡ true
    → c.page_count * page_size < 2 ^ 64
    → start + page + r ≤ c.page_count
    → IsBusyRun c.bitmap (start + page) r
    → free_buffer_pages c (start * page_size) page r ≡ given_back c (start + page) r
unfolding free_buffer_pages fill
free_buffer_pages_lem c start page zero e small fits b =
    ap (λ k. record c { free_page_count = k }) (omega arith)
free_buffer_pages_lem c start page (suc r) e small fits b =
    let a : (start * page_size + page * page_size) % 2 ^ 64 ≡ (start + page) * page_size =
      omega (arith, small, fits) in
    let number : (start + page) * page_size / page_size ≡ start + page = omega arith in
    let step : (free c ((start * page_size + page * page_size) % 2 ^ 64)).0
        ≡ returned c (start + page) =
      ap (λ x. (free c x).0) a
      ∙ ap (λ x. x.0)
          (free_accepts c ((start + page) * page_size) e (
            omega arith,
            rw number (omega (arith, fits)),
            rw number (b (start + page) (omega arith) (omega arith)),
          ))
      ∙ ap (returned c) number in
    ap (λ x. free_buffer_pages x (start * page_size) (page + 1) r) step
    ∙ free_buffer_pages_lem (returned c (start + page)) start (page + 1) r e small
        (omega (arith, fits))
        (subst (λ x. IsBusyRun (update c.bitmap (start + page) true) x r) (omega arith)
          (busy_next c (start + page) r b))
    ∙ ap (λ x. given_back (returned c (start + page)) x r) (omega arith)
    ∙ given_back-step c (start + page) r

pub given_back-WellFormed :
    (c : PageFrameContainer) (s n : ℕ)
    → WellFormed c
    → s + n ≤ c.page_count
    → IsBusyRun c.bitmap s n
    → WellFormed (given_back c s n)
unfolding fill
given_back-WellFormed c s zero w h b =
    subst (λ k. WellFormed (record c { free_page_count = k })) (omega arith) w
given_back-WellFormed c s (suc n) w h b = subst WellFormed (given_back-step c s n) (
    given_back-WellFormed (returned c s) (s + 1) n
      (returned-WellFormed w (omega (arith, h)) (b s (omega arith) (omega arith)))
      (omega (arith, h)) (busy_next c s n b))

fill-fill : (bm : Bitmap) (s n : ℕ) → IsRun bm s n → fill (fill bm s n false) s n true ≡ bm
fill-fill bm s n free = fun_ext λ j. elim (dec_lt j s) [
  | yes l ↦ fill_out (fill bm s n false) s n true j l ∙ fill_out bm s n false j l
  | no l ↦ elim (dec_lt j (s + n)) [
    | yes k ↦ fill_in (fill bm s n false) s n true j (omega arith) k ∙ sym (free j (omega arith) k)
    | no k ↦
        fill_above (fill bm s n false) s n true j (omega arith)
        ∙ fill_above bm s n false j (omega arith)
  ]
]

-- Giving back the run that was handed out last gives back the container.
pub given_back-taken_run :
    (c : PageFrameContainer) (start count : ℕ)
    → IsFirstRun c count start
    → given_back (taken_run c start count) start count ≡ c
given_back-taken_run c start count l =
    ap (λ b. record c { bitmap = b; free_page_count = c.free_page_count - count + count })
      (fill-fill c.bitmap start count l.run_free)
    ∙ ap (λ k. record c { free_page_count = k }) (omega (arith, l.counted))

-- Freeing the pages of the run that was handed out last gives back the container.
pub free_buffer_pages-taken_run :
    (c : PageFrameContainer) (start count : ℕ)
    → c.initialized ≡ true
    → c.page_count * page_size < 2 ^ 64
    → IsFirstRun c count start
    → free_buffer_pages (taken_run c start count) (start * page_size) 0 count ≡ c
free_buffer_pages-taken_run c start count e small l =
    free_buffer_pages_lem (taken_run c start count) start 0 count e small
      (omega (arith, l.in_range))
      (λ j p q. fill_in c.bitmap start count false j (omega (arith, p)) (omega (arith, q)))
    ∙ ap (λ x. given_back (taken_run c start count) x count) (omega arith)
    ∙ given_back-taken_run c start count l
