-- ===== src/VirtualMemory/Ranges/Slots.antt =====
-- `destroy_user_slot`, and `destroy_table` at level 1.
use os.Base.{
  ℕ, ◌/◌, ◌<◌, ◌≡◌, refl, ◌≢◌, inl, inr, Bool, true, false, none, [], ◌∷◌, ◌==◌, arith, ap, ◌∙◌,
  sym, subst, Bool-cases, leb, not, ◌||◌,
}
use os.PageFrame.{page_size}
use os.PageFrame.Inv.{WellFormed}
use os.VirtualMemory.{VirtualMemory, entry_page, translate, page_index}
use os.VirtualMemory.Tree.{find_table-missing}
use os.VirtualMemory.Ranges.{free_word, each_word, destroy_table, destroy_user_slot}
use os.VirtualMemory.Ranges.Teardown.{Frees, IsGone, free_word-Frees}
use os.VirtualMemory.Ranges.Destroy.{
  destroy_table-Frees, destroy_table-Clears, each_word-Frees, each_word-Clears, free_word-IsFreeing,
  free_word-Clears, then_entry, was_named, stays_zero,
}

translate-slot :
    (v : VirtualMemory) (a : ℕ)
    → v.table (v.root / page_size) (page_index a 39) ≡ 0
    → translate v a ≡ none
unfolding translate
translate-slot v a z = elim (Bool-cases v.initialized) [
  | inl e ↦
      let no_table =
        find_table-missing v.table (v.root / page_size) (page_index a 39) (page_index a 30 ∷ [])
          z in
      rw (e, no_table) refl
  | inr e ↦ rw e refl
]

-- What `destroy_user_slot` leaves, and what it says.
abbrev pub SlotOutcome : VirtualMemory → ℕ → VirtualMemory × Bool → Type 0
SlotOutcome v slot (v', done) =
    Frees v v' × (v'.table (v.root / page_size) slot ≡ 0) × (done ≡ true)

-- On an initialized address space over a well-formed allocator, whatever its tables hold,
-- `destroy_user_slot` returns true, leaves the slot's entry 0 and the allocator well formed, makes no
-- page busy, and changes a word only to 0 and only when the page that the word named is not busy
-- afterwards.
pub destroy_user_slot_lem :
    (v : VirtualMemory) (slot : ℕ)
    → v.initialized ≡ true
    → slot < 512
    → WellFormed v.frames
    → v.frames.initialized ≡ true
    → SlotOutcome v slot (destroy_user_slot v slot)
unfolding destroy_user_slot
destroy_user_slot_lem v slot ready h w on =
    let valid : (not v.initialized || leb 512 slot) ≡ false = ground (arith, ready, h) in
    rw valid (
      destroy_table-Frees 4 true (v.root / page_size) v slot w on,
      destroy_table-Clears 4 true (v.root / page_size) v slot,
      refl,
    )

-- After `destroy_user_slot` no address of the slot is translated.
pub destroy_user_slot-translate :
    (v : VirtualMemory) (slot a : ℕ)
    → v.initialized ≡ true
    → slot < 512
    → WellFormed v.frames
    → v.frames.initialized ≡ true
    → page_index a 39 ≡ slot
    → translate (destroy_user_slot v slot).0 a ≡ none
destroy_user_slot-translate v slot a ready h w on at =
    let (f, z, _) = destroy_user_slot_lem v slot ready h w on in
    unmapped (destroy_user_slot v slot).0 f z
  where
    unmapped :
        (v' : VirtualMemory)
        → Frees v v'
        → v'.table (v.root / page_size) slot ≡ 0
        → translate v' a ≡ none
    unmapped v' f z = translate-slot v' a (
        ap (λ r. v'.table (r / page_size) (page_index a 39)) f.root
        ∙ ap (v'.table (v.root / page_size)) at
        ∙ z)

destroy_last-named :
    (v : VirtualMemory) (p i : ℕ)
    → v.table p i ≢ 0
    → destroy_table 1 true v p i
      ≡ free_word
          (each_word
            (λ x j. free_word x (entry_page (v.table p i)) j)
            v
            (entry_page (v.table p i))
            512
            0)
          p
          i
unfolding destroy_table
destroy_last-named v p i n =
    let e : (v.table p i == 0) ≡ false = ground (arith, n) in rw (e, destroy_table) refl

-- `destroy_table` at level 1 takes the words of the page `d` that the entry names for entries: for every word
-- of `d` that is not 0, the page that the word names is not busy afterwards.
pub destroy_table-data :
    (v : VirtualMemory) (p i j : ℕ)
    → WellFormed v.frames
    → v.frames.initialized ≡ true
    → v.table p i ≢ 0
    → j < 512
    → v.table (entry_page (v.table p i)) j ≢ 0
    → IsGone (destroy_table 1 true v p i) (entry_page (v.table (entry_page (v.table p i)) j))
destroy_table-data v p i j w on n h m =
    let d = entry_page (v.table p i) in
    let loop = each_word-Frees _ (free_word-IsFreeing d) v d 512 0 w on in
    let clear =
      each_word-Clears _ d (free_word-IsFreeing d) (λ x k. free_word-Clears x d k) v 512 0 j w on
        (omega arith) (omega (arith, h)) in
    let all = then_entry loop p i in
    let last =
      free_word-Frees (each_word (λ x k. free_word x d k) v d 512 0) loop.frames loop.frames_ready p
        i in
    subst (λ x. IsGone x (entry_page (v.table d j))) (sym (destroy_last-named v p i n))
      (was_named all d j m (stays_zero last d j clear))
