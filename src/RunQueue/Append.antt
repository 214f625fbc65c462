-- ===== src/RunQueue/Append.antt =====
-- `append_ready_thread_locked` on a well-formed queue.
use os.Base.{
  ℕ, ◌+◌, ◌%◌, ◌<◌, ◌^◌, inl, inr, snoc_view, All-last, Seg-split, Distinct-middle, All-append_left,
  All-append_right, some_inj, none-ne-some, subst, ◌≡◌, refl, ◌≢◌, Option, none, some, List, [],
  ◌∷◌, ◌++◌, length, length-append, arith, All, NotIn, last_node, Seg-frame, Seg-append, All-append,
  sym, ap, ◌∙◌, Distinct-append_one, last_node-append_one,
}
use os.Machine.{Machine, links}
use os.RunQueue.{append_ready_thread_locked}
use os.RunQueue.Inv.{Queued, Queued-frame, not_owned-NotIn}

module _ (m : Machine) (c t : ℕ) where
  after : Machine
  unfolding append_ready_thread_locked
  after = append_ready_thread_locked m (some c) (some t)

  runq_after :
      (last : Option ℕ)
      → (m.cpu c).runq.tail ≡ last
      → ((after.cpu c).runq.head ≡ elim last [ none ↦ some t | some _ ↦ (m.cpu c).runq.head ])
        × ((after.cpu c).runq.tail ≡ some t)
        × ((after.cpu c).runq.length ≡ ((m.cpu c).runq.length + 1) % 2 ^ 64)
  unfolding after
  runq_after none e = ground arith
  runq_after (some l) e = ground arith

  other_cpu : (d : ℕ) → d ≢ c → after.cpu d ≡ m.cpu d
  unfolding after
  other_cpu d h = ground arith

  thread_after :
      (last : Option ℕ)
      → (m.cpu c).runq.tail ≡ last
      → last ≢ some t
      → (links after t ≡ none) × ((after.thread t).run_queue_cpu ≡ some c)
  unfolding after
  thread_after none e h = ground arith
  thread_after (some l) e h = ground arith

  last_after : (l : ℕ) → (m.cpu c).runq.tail ≡ some l → l ≢ t → links after l ≡ some t
  unfolding after
  last_after l e h = ground arith

  other_thread :
      (last : Option ℕ)
      → (m.cpu c).runq.tail ≡ last
      → (x : ℕ) → x ≢ t
      → ((after.thread x).run_queue_cpu ≡ (m.thread x).run_queue_cpu)
        × (last ≢ some x → (after.thread x).next ≡ (m.thread x).next)
  unfolding after
  other_thread none e x h = ground arith
  other_thread (some l) e x h = (ground arith, λ k. ground (arith, k))

  Queued-after_empty : Queued m c [] → Queued after c (t ∷ [])
  Queued-after_empty q =
      let r = runq_after none q.tail_last in
      let h = thread_after none q.tail_last (λ e. none-ne-some e) in
      record {
        linked = (r.0, h.0);
        tail_last = r.1;
        counted = omega (arith, r.2, q.counted);
        distinct = (tt, tt);
        owned = (h.1, tt);
      }

  Queued-after_snoc :
      (ys : List ℕ) (l : ℕ)
      → Queued m c (ys ++ l ∷ [])
      → (m.thread t).run_queue_cpu ≡ none
      → length (ys ++ l ∷ []) + 1 < 2 ^ 64
      → Queued after c ((ys ++ l ∷ []) ++ t ∷ [])
  Queued-after_snoc ys l q free fits =
      let e : (m.cpu c).runq.tail ≡ some l = q.tail_last ∙ last_node-append_one ys l in
      let fresh = not_owned-NotIn t q (λ k. none-ne-some (sym free ∙ k)) in
      let l-ne-t = (All-append_right (λ x. x ≢ t) ys (l ∷ []) fresh).0 in
      let r = runq_after (some l) e in
      let h = thread_after (some l) e (λ k. l-ne-t (some_inj k)) in
      let split = Seg-split (links m) (m.cpu c).runq.head ys l [] none q.linked in
      let d = Distinct-middle ys l [] q.distinct in
      record {
        linked = rw r.0 (
            Seg-append (links after) (m.cpu c).runq.head (ys ++ l ∷ []) (some t) (t ∷ []) none
              (Seg-append (links after) (m.cpu c).runq.head ys (some l) (l ∷ []) (some t)
                (Seg-frame (links m) (links after) (m.cpu c).runq.head ys (some l)
                  (links_kept ys l e (All-append_left (λ x. x ≢ t) ys (l ∷ []) fresh) d.0) split.0)
                (refl, last_after l e l-ne-t))
              (refl, h.0));
        tail_last = r.1 ∙ sym (last_node-append_one (ys ++ l ∷ []) t);
        counted = omega (arith, r.2, q.counted, length-append (ys ++ l ∷ []) (t ∷ []));
        distinct = Distinct-append_one (ys ++ l ∷ []) t q.distinct fresh;
        owned =
            All-append (λ x. (after.thread x).run_queue_cpu ≡ some c) (ys ++ l ∷ []) (t ∷ [])
              (owners e (ys ++ l ∷ []) fresh q.owned) (h.1, tt);
      }
    where
      links_kept :
          (zs : List ℕ) (l : ℕ)
          → (m.cpu c).runq.tail ≡ some l
          → NotIn t zs
          → NotIn l zs
          → All (λ x. links after x ≡ links m x) zs
      links_kept [] l e n k = tt
      links_kept (z ∷ zs) l e n k = (
        (other_thread (some l) e z n.0).1 (λ p. k.0 (sym (some_inj p))),
        links_kept zs l e n.1 k.1,
      )

      owners :
          (m.cpu c).runq.tail ≡ some l
          → (zs : List ℕ) → NotIn t zs
          → All (λ x. (m.thread x).run_queue_cpu ≡ some c) zs
          → All (λ x. (after.thread x).run_queue_cpu ≡ some c) zs
      owners e [] n o = tt
      owners e (z ∷ zs) n o = ((other_thread (some l) e z n.0).0 ∙ o.0, owners e zs n.1 o.1)

-- Appending a thread that is in no queue puts it at the end of the queue, in order, where the
-- length of the queue does not wrap.
pub append-Queued :
    {m : Machine} {c : ℕ} {xs : List ℕ} (t : ℕ)
    → Queued m c xs
    → (m.thread t).run_queue_cpu ≡ none
    → length xs + 1 < 2 ^ 64
    → Queued (append_ready_thread_locked m (some c) (some t)) c (xs ++ t ∷ [])
unfolding after
append-Queued {m} {c} {xs} t q free fits = elim (snoc_view xs) [
  | inl e ↦
      subst (λ l. Queued (after m c t) c (l ++ t ∷ [])) (sym e)
        (Queued-after_empty m c t (subst (Queued m c) e q))
  | inr (ys, l, e) ↦
      subst (λ r. Queued (after m c t) c (r ++ t ∷ [])) (sym e)
        (Queued-after_snoc m c t ys l (subst (Queued m c) e q) free
          (subst (λ r. length r + 1 < 2 ^ 64) e fits))
]

-- The queues of the other CPUs stay as they are.
pub append-Queued_other :
    {m : Machine} {c d : ℕ} {xs ys : List ℕ} (t : ℕ)
    → Queued m c xs
    → Queued m d ys
    → d ≢ c
    → (m.thread t).run_queue_cpu ≡ none
    → Queued (append_ready_thread_locked m (some c) (some t)) d ys
unfolding after
append-Queued_other {m} {c} {d} {xs} {ys} t q r ne free =
    Queued-frame r (ap (λ x. x.runq) (other_cpu m c t d ne))
      (kept ys (not_owned-NotIn t r (λ k. none-ne-some (sym free ∙ k))) r.owned)
  where
    kept :
        (zs : List ℕ)
        → NotIn t zs
        → All (λ x. (m.thread x).run_queue_cpu ≡ some d) zs
        → All
            (λ x.
              (((after m c t).thread x).next ≡ (m.thread x).next)
              × (((after m c t).thread x).run_queue_cpu ≡ (m.thread x).run_queue_cpu))
            zs
    kept [] n o = tt
    kept (z ∷ zs) n o =
        let f = other_thread m c t (m.cpu c).runq.tail refl z n.0 in
        ((f.1 (λ k. foreign z (sym q.tail_last ∙ k) o.0), f.0), kept zs n.1 o.1)
      where
        foreign : (z : ℕ) → last_node xs ≡ some z → (m.thread z).run_queue_cpu ≡ some d → ⊥
        foreign z k o =
            ne (
              some_inj (sym o ∙ All-last (λ x. (m.thread x).run_queue_cpu ≡ some c) xs z q.owned k))
