-- ===== src/VirtualMemory/Ranges/Teardown.antt =====
-- `destroy_table` and its callers.
use os.Base.{
  ℕ, ◌*◌, ◌/◌, ◌≤◌, ◌<◌, ◌≡◌, refl, ◌⊎◌, inl, inr, Bool, true, arith, ap, ◌∙◌, sym, subst,
  Bool-cases, update, update_self, ℕ_discrete, dec_lt,
}
use os.PageFrame.{PageFrameContainer, page_size, free}
use os.PageFrame.Inv.{WellFormed}
use os.PageFrame.Release.{free_lem, free-WellFormed, IsReleasable}
use os.VirtualMemory.{VirtualMemory, entry_page}
use os.VirtualMemory.Ensure.{write_self, write_table, write_index}
use os.VirtualMemory.Ranges.{free_word}

-- The allocator tracks page `q` and holds it free, or does not track it.
abbrev pub IsGone : VirtualMemory → ℕ → Type 0
IsGone v q = (v.frames.page_count ≤ q) ⊎ (v.frames.bitmap q ≡ true)

-- From `v` to `v'` pages come free and words become 0, and only words whose page is free.
pub record Frees (v v' : VirtualMemory) : Type 0 where
  pub frames : WellFormed v'.frames
  pub frames_ready : v'.frames.initialized ≡ true
  pub tracked : v'.frames.page_count ≡ v.frames.page_count
  pub stays_free : (q : ℕ) → v.frames.bitmap q ≡ true → v'.frames.bitmap q ≡ true
  pub words :
      (p i : ℕ)
      → (v'.table p i ≡ v.table p i) ⊎ ((v'.table p i ≡ 0) × IsGone v' (entry_page (v.table p i)))
  pub root : v'.root ≡ v.root
  pub initialized : v'.initialized ≡ v.initialized

gone_later : {v v' : VirtualMemory} → Frees v v' → (q : ℕ) → IsGone v q → IsGone v' q
gone_later f q (inl h) = inl (subst (λ n. n ≤ q) (sym f.tracked) h)
gone_later f q (inr e) = inr (f.stays_free q e)

pub Frees-refl : (v : VirtualMemory) → WellFormed v.frames → v.frames.initialized ≡ true → Frees v v
Frees-refl v w on = record {
  frames = w;
  frames_ready = on;
  tracked = refl;
  stays_free = λ q e. e;
  words = λ p i. inl refl;
  root = refl;
  initialized = refl;
}

pub Frees-trans : {v v' v'' : VirtualMemory} → Frees v v' → Frees v' v'' → Frees v v''
Frees-trans {v} {v'} {v''} f g = record {
  frames = g.frames;
  frames_ready = g.frames_ready;
  tracked = g.tracked ∙ f.tracked;
  stays_free = λ q e. g.stays_free q (f.stays_free q e);
  words = words;
  root = g.root ∙ f.root;
  initialized = g.initialized ∙ f.initialized;
}
  where
    words :
        (p i : ℕ)
        → (v''.table p i ≡ v.table p i)
          ⊎ ((v''.table p i ≡ 0) × IsGone v'' (entry_page (v.table p i)))
    words p i = elim (f.words p i) [
      | inl e ↦ elim (g.words p i) [
        | inl k ↦ inl (k ∙ e)
        | inr (z, h) ↦ inr (z, subst (λ x. IsGone v'' (entry_page x)) e h)
      ]
      | inr (z, h) ↦ elim (g.words p i) [
        | inl k ↦ inr (k ∙ z, gone_later g (entry_page (v.table p i)) h)
        | inr (z2, _) ↦ inr (z2, gone_later g (entry_page (v.table p i)) h)
      ]
    ]

module _ (v : VirtualMemory) (w : WellFormed v.frames) (on : v.frames.initialized ≡ true)
    (p i : ℕ) where
  abbrev named : ℕ
  named = entry_page (v.table p i)

  abbrev FreeResult : PageFrameContainer × Bool → Type 0
  FreeResult (c, _) =
      (c.initialized ≡ true)
      × (c.page_count ≡ v.frames.page_count)
      × ((q : ℕ) → v.frames.bitmap q ≡ true → c.bitmap q ≡ true)
      × ((v.frames.page_count ≤ named) ⊎ (c.bitmap named ≡ true))

  number : named * page_size / page_size ≡ named
  number = omega arith

  free_result : FreeResult (free v.frames (named * page_size))
  free_result = elim (free_lem v.frames (named * page_size) on) [
    | inl (h, e) ↦ rw e (
      on,
      refl,
      λ q k. ground (arith, k),
      inr (
          ap (update v.frames.bitmap (named * page_size / page_size) true) (sym number)
          ∙ update_self v.frames.bitmap (named * page_size / page_size) true),
    )
    | inr (h, e) ↦ rw e (on, refl, λ q k. k, refused h)
  ]
    where
      refused :
          ¬ IsReleasable v.frames (named * page_size)
          → (v.frames.page_count ≤ named) ⊎ (v.frames.bitmap named ≡ true)
      refused h = elim (dec_lt named v.frames.page_count) [
        | no k ↦ inl (omega (arith, k))
        | yes k ↦ elim (Bool-cases (v.frames.bitmap named)) [
          | inl e ↦ inr e
          | inr e ↦ absurd (
              h (
                omega arith,
                subst (λ q. q < v.frames.page_count) (sym number) k,
                ap v.frames.bitmap number ∙ e,
              ))
        ]
      ]

  pub free_word-Frees : Frees v (free_word v p i)
  free_word-Frees =
      let (ready, count, stays, gone) = free_result in
      record {
        frames = free-WellFormed (named * page_size) w on;
        frames_ready = ready;
        tracked = count;
        stays_free = stays;
        words = words (count, gone);
        root = refl;
        initialized = refl;
      }
    where
      words :
          ((free v.frames (named * page_size)).0.page_count ≡ v.frames.page_count)
            × ((v.frames.page_count ≤ named)
                ⊎ ((free v.frames (named * page_size)).0.bitmap named ≡ true))
          → (q j : ℕ)
          → ((free_word v p i).table q j ≡ v.table q j)
            ⊎ (((free_word v p i).table q j ≡ 0)
                × IsGone (free_word v p i) (entry_page (v.table q j)))
      words (count, gone) q j = elim (ℕ_discrete p q) [
        | no n ↦ inl (write_table v.table p i 0 q j n)
        | yes e ↦
            subst
              (λ r.
                ((free_word v p i).table r j ≡ v.table r j)
                ⊎ (((free_word v p i).table r j ≡ 0)
                    × IsGone (free_word v p i) (entry_page (v.table r j))))
              e
              (elim (ℕ_discrete i j) [
                | no n ↦ inl (write_index v.table p i 0 j n)
                | yes k ↦
                    subst
                      (λ r.
                        ((free_word v p i).table p r ≡ v.table p r)
                        ⊎ (((free_word v p i).table p r ≡ 0)
                            × IsGone (free_word v p i) (entry_page (v.table p r))))
                      k (inr (write_self v.table p i 0, gone_now gone count))
              ])
      ]
        where
          gone_now :
              ((v.frames.page_count ≤ named)
                ⊎ ((free v.frames (named * page_size)).0.bitmap named ≡ true))
              → ((free v.frames (named * page_size)).0.page_count ≡ v.frames.page_count)
              → IsGone (free_word v p i) named
          gone_now (inl h) count = inl (subst (λ n. n ≤ named) (sym count) h)
          gone_now (inr e) count = inr e
