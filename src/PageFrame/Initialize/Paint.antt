-- ===== src/PageFrame/Initialize/Paint.antt =====
-- The word-wise painting of a page range, against its bitwise meaning.
use os.Base.{
  ℕ, ◌+◌, ◌-◌, ◌/◌, ◌%◌, ◌<◌, ◌≡◌, inl, inr, true, false, arith, ◌||◌, ◌&&◌, ltb, leb, ◌==◌,
  Bool-cases, ℕ_discrete,
}
use os.Bitmap.{Bitmap}
use os.PageFrame.Initialize.{paint_one_word, paint_many_words, paint_pages}

paint_one_word_lem :
    (bm : Bitmap) (s e i : ℕ)
    → s < e
    → s / 64 ≡ (e - 1) / 64
    → paint_one_word bm s e i ≡ (bm i || (leb s i && ltb i e))
unfolding paint_one_word
paint_one_word_lem bm s e i h k = ground arith

paint_many_words_lem :
    (bm : Bitmap) (s e i : ℕ)
    → s < e
    → s / 64 < (e - 1) / 64
    → paint_many_words bm s e i ≡ (bm i || (leb s i && ltb i e))
unfolding paint_many_words
paint_many_words_lem bm s e i h k = elim (Bool-cases (ltb (s / 64 + 1) ((e - 1) / 64))) [
  | inl t ↦ elim (Bool-cases (0 == e % 64)) [
    | inl z ↦ rw (t, z) (ground arith)
    | inr z ↦ rw (t, z) (ground arith)
  ]
  | inr t ↦ elim (Bool-cases (0 == e % 64)) [
    | inl z ↦ rw (t, z) (ground arith)
    | inr z ↦ rw (t, z) (ground arith)
  ]
]

-- For a range that is not empty, painting by words sets exactly the bits of the range and keeps all
-- others: one mask where the range lies in one word, else a first mask, whole words and a last mask.
pub paint_pages_lem :
    (bm : Bitmap) (start_page end_page i : ℕ)
    → start_page < end_page
    → paint_pages bm start_page end_page i ≡ (bm i || (leb start_page i && ltb i end_page))
unfolding paint_pages
paint_pages_lem bm s e i h = elim (ℕ_discrete (s / 64) ((e - 1) / 64)) [
  | yes k ↦
      let t : (s / 64 == (e - 1) / 64) ≡ true = ground arith in
      rw t (paint_one_word_lem bm s e i h k)
  | no k ↦
      let t : (s / 64 == (e - 1) / 64) ≡ false = ground arith in
      rw t (paint_many_words_lem bm s e i h (omega arith))
]
