-- ===== src/RunQueue/Remove.antt =====
-- `unlink` on a well-formed queue.
use os.Base.{
  ℕ, ◌≡◌, refl, ◌≢◌, inl, inr, Option, none, some, List, [], ◌∷◌, ◌++◌, length, arith, Seg, All,
  NotIn, Distinct, last_node, Seg-frame, Seg-append, Seg-split, All-map, All-append,
  All-append_left, All-append_right, sym, ap, ◌∙◌, subst, none-ne-some, some_inj, Distinct-remove,
  Distinct-middle, last_node-append_one, last_node-append_cons, length-remove, snoc_view,
  if◌then◌else◌, All-last, append-nil, append_assoc,
}
use os.Machine.{Machine, links, pointer_eq, decrement}
use os.RunQueue.{unlink}
use os.RunQueue.Inv.{Queued, Queued-frame, not_owned-NotIn}

module _ (m : Machine) (c : ℕ) (previous : Option ℕ) (t : ℕ) where
  unlinked : Machine
  unfolding unlink
  unlinked = unlink m c previous t

module _ (m : Machine) (c t : ℕ) where
  head_none : ((unlinked m c none t).cpu c).runq.head ≡ (m.thread t).next
  unfolding unlinked
  head_none = ground arith

  head_some : (p : ℕ) → ((unlinked m c (some p) t).cpu c).runq.head ≡ (m.cpu c).runq.head
  unfolding unlinked
  head_some p = ground arith

  tail_length :
      (previous : Option ℕ)
      → (((unlinked m c previous t).cpu c).runq.tail
          ≡ (if pointer_eq (m.cpu c).runq.tail t then previous else (m.cpu c).runq.tail))
        × (((unlinked m c previous t).cpu c).runq.length ≡ decrement (m.cpu c).runq.length)
  unfolding unlinked
  tail_length none = ground arith
  tail_length (some p) = ground arith

  other_cpu_unlinked :
      (previous : Option ℕ) (d : ℕ) → d ≢ c → (unlinked m c previous t).cpu d ≡ m.cpu d
  unfolding unlinked
  other_cpu_unlinked none d h = ground arith
  other_cpu_unlinked (some p) d h = ground arith

  thread_unlinked :
      (previous : Option ℕ)
      → (((unlinked m c previous t).thread t).next ≡ none)
        × (((unlinked m c previous t).thread t).run_queue_cpu ≡ none)
  unfolding unlinked
  thread_unlinked none = ground arith
  thread_unlinked (some p) = ground arith

  previous_unlinked :
      (p : ℕ) → p ≢ t → ((unlinked m c (some p) t).thread p).next ≡ (m.thread t).next
  unfolding unlinked
  previous_unlinked p h = ground arith

  other_unlinked :
      (previous : Option ℕ) (x : ℕ)
      → x ≢ t
      → (((unlinked m c previous t).thread x).run_queue_cpu ≡ (m.thread x).run_queue_cpu)
        × (previous ≢ some x → ((unlinked m c previous t).thread x).next ≡ (m.thread x).next)
  unfolding unlinked
  other_unlinked none x h = ground arith
  other_unlinked (some p) x h = (ground arith, λ k. ground (arith, k))

  links_kept :
      (previous : Option ℕ) (zs : List ℕ)
      → NotIn t zs
      → All (λ x. previous ≢ some x) zs
      → All (λ x. links (unlinked m c previous t) x ≡ links m x) zs
  links_kept previous [] n k = tt
  links_kept previous (z ∷ zs) n k =
      ((other_unlinked previous z n.0).1 k.0, links_kept previous zs n.1 k.1)

  owners_kept :
      (previous : Option ℕ) (d : ℕ) (zs : List ℕ)
      → NotIn t zs
      → All (λ x. (m.thread x).run_queue_cpu ≡ some d) zs
      → All (λ x. ((unlinked m c previous t).thread x).run_queue_cpu ≡ some d) zs
  owners_kept previous d [] n o = tt
  owners_kept previous d (z ∷ zs) n o =
      ((other_unlinked previous z n.0).0 ∙ o.0, owners_kept previous d zs n.1 o.1)

  new_tail :
      (xs ys : List ℕ)
      → NotIn t ys
      → (m.cpu c).runq.tail ≡ last_node (xs ++ t ∷ ys)
      → ((unlinked m c (last_node xs) t).cpu c).runq.tail ≡ last_node (xs ++ ys)
  new_tail xs [] n e =
      let k : (m.cpu c).runq.tail ≡ some t = e ∙ last_node-append_one xs t in
      (tail_length (last_node xs)).0 ∙ rw append-nil (ground arith)
  new_tail xs (y ∷ ys) n e =
      let k : (m.cpu c).runq.tail ≡ last_node (y ∷ ys) =
        e ∙ last_node-append_cons xs t (y ∷ ys) ∙ ground arith in
      (tail_length (last_node xs)).0
      ∙ not_last (last_node (y ∷ ys)) refl k
      ∙ k
      ∙ sym (last_node-append_cons xs y ys)
    where
      not_last :
          (o : Option ℕ)
          → last_node (y ∷ ys) ≡ o
          → (m.cpu c).runq.tail ≡ o
          → (if pointer_eq (m.cpu c).runq.tail t then last_node xs else (m.cpu c).runq.tail)
            ≡ (m.cpu c).runq.tail
      not_last none l k = ground arith
      not_last (some z) l k = let h : z ≢ t = All-last (λ x. x ≢ t) (y ∷ ys) z n l in ground arith

  new_length :
      (xs ys : List ℕ)
      → (m.cpu c).runq.length ≡ length (xs ++ t ∷ ys)
      → decrement (m.cpu c).runq.length ≡ length (xs ++ ys)
  new_length xs ys e = ground (arith, length-remove xs t ys)

  new_linked :
      (xs ys : List ℕ)
      → Distinct (xs ++ t ∷ ys)
      → Seg (links m) (m.cpu c).runq.head (xs ++ t ∷ ys) none
      → Seg
          (links (unlinked m c (last_node xs) t))
          ((unlinked m c (last_node xs) t).cpu c).runq.head
          (xs ++ ys)
          none
  new_linked xs ys d s = elim (snoc_view xs) [
    | inl e ↦
        subst Linked (sym e) (at_head (subst (λ l. Distinct (l ++ t ∷ ys)) e d) (subst Old e s))
    | inr (zs, p, e) ↦
        subst Linked (sym e) (behind zs p (subst (λ l. Distinct (l ++ t ∷ ys)) e d) (subst Old e s))
  ]
    where
      Old : List ℕ → Type 0
      Old l = Seg (links m) (m.cpu c).runq.head (l ++ t ∷ ys) none

      Linked : List ℕ → Type 0
      Linked l =
          Seg (links (unlinked m c (last_node l) t))
            ((unlinked m c (last_node l) t).cpu c).runq.head (l ++ ys) none

      at_head : Distinct (t ∷ ys) → Old [] → Linked []
      at_head d s = rw head_none (
          Seg-frame (links m) (links (unlinked m c none t)) (m.thread t).next ys none
            (links_kept none ys d.0
              (All-map (λ x. x ≢ t) (λ x. none ≢ some x) ys (λ x h k. none-ne-some k) d.0))
            s.1)

      behind :
          (zs : List ℕ) (p : ℕ)
          → Distinct ((zs ++ p ∷ []) ++ t ∷ ys)
          → Old (zs ++ p ∷ [])
          → Linked (zs ++ p ∷ [])
      behind zs p d s =
          subst
            (λ o.
              Seg (links (unlinked m c o t)) ((unlinked m c o t).cpu c).runq.head
                ((zs ++ p ∷ []) ++ ys) none)
            (sym (last_node-append_one zs p))
            (rw head_some (
              Seg-append next' (m.cpu c).runq.head (zs ++ p ∷ []) (m.thread t).next ys none
                (Seg-append next' (m.cpu c).runq.head zs (some p) (p ∷ []) (m.thread t).next
                  (Seg-frame (links m) next' (m.cpu c).runq.head zs (some p)
                    (links_kept (some p) zs (All-append_left (λ x. x ≢ t) zs (p ∷ []) n.0)
                      (not_p zs around.0))
                    (Seg-split (links m) (m.cpu c).runq.head zs p [] (some t) first.0).0)
                  (refl, previous_unlinked p p-ne-t))
                (Seg-frame (links m) next' (m.thread t).next ys none
                  (links_kept (some p) ys n.1
                    (not_p ys (All-append_right (λ x. x ≢ p) (t ∷ []) ys around.1)))
                  first.1)))
        where
          next' : ℕ → Option ℕ
          next' = links (unlinked m c (some p) t)

          n : NotIn t (zs ++ p ∷ []) × NotIn t ys
          n = Distinct-middle (zs ++ p ∷ []) t ys d

          p-ne-t : p ≢ t
          p-ne-t = (All-append_right (λ x. x ≢ t) zs (p ∷ []) n.0).0

          first :
              Seg (links m) (m.cpu c).runq.head (zs ++ p ∷ []) (some t)
              × Seg (links m) (m.thread t).next ys none
          first = Seg-split (links m) (m.cpu c).runq.head (zs ++ p ∷ []) t ys none s

          around : NotIn p zs × NotIn p (t ∷ ys)
          around =
              Distinct-middle zs p (t ∷ ys) (subst Distinct (append_assoc zs (p ∷ []) (t ∷ ys)) d)

          not_p : (l : List ℕ) → NotIn p l → All (λ x. some p ≢ some x) l
          not_p l h =
              All-map (λ x. x ≢ p) (λ x. some p ≢ some x) l (λ x k e. k (sym (some_inj e))) h

-- Taking `t` out leaves the threads before and behind it queued, in their order.
pub unlink-Queued :
    {m : Machine} {c : ℕ} (xs : List ℕ) (t : ℕ) (ys : List ℕ)
    → Queued m c (xs ++ t ∷ ys)
    → Queued (unlink m c (last_node xs) t) c (xs ++ ys)
unfolding unlinked
unlink-Queued {m} {c} xs t ys q =
    let n = Distinct-middle xs t ys q.distinct in
    record {
      linked = new_linked m c t xs ys q.distinct q.linked;
      tail_last = new_tail m c t xs ys n.1 q.tail_last;
      counted = (tail_length m c t (last_node xs)).1 ∙ new_length m c t xs ys q.counted;
      distinct = Distinct-remove xs t ys q.distinct;
      owned =
          owners_kept m c t (last_node xs) c (xs ++ ys) (All-append (λ x. x ≢ t) xs ys n.0 n.1) (
            All-append (λ x. (m.thread x).run_queue_cpu ≡ some c) xs ys
              (All-append_left _ xs (t ∷ ys) q.owned)
              (All-append_right (λ x. (m.thread x).run_queue_cpu ≡ some c) xs (t ∷ ys) q.owned).1);
    }

-- The queues of the other CPUs stay as they are.
pub unlink-Queued_other :
    {m : Machine} {c d : ℕ} (xs : List ℕ) (t : ℕ) (ys : List ℕ) {zs : List ℕ}
    → Queued m c (xs ++ t ∷ ys)
    → Queued m d zs
    → d ≢ c
    → Queued (unlink m c (last_node xs) t) d zs
unfolding unlinked
unlink-Queued_other {m} {c} {d} xs t ys {zs} q r ne =
    Queued-frame r (ap (λ x. x.runq) (other_cpu_unlinked m c t (last_node xs) d ne))
      (kept zs (not_owned-NotIn t r foreign) r.owned)
  where
    mine : (m.thread t).run_queue_cpu ≡ some c
    mine = (All-append_right (λ x. (m.thread x).run_queue_cpu ≡ some c) xs (t ∷ ys) q.owned).0

    foreign : (m.thread t).run_queue_cpu ≡ some d → ⊥
    foreign k = ne (some_inj (sym k ∙ mine))

    not_previous : (z : ℕ) → (m.thread z).run_queue_cpu ≡ some d → last_node xs ≢ some z
    not_previous z o k = ne (
        some_inj (
          sym o
          ∙ All-last (λ x. (m.thread x).run_queue_cpu ≡ some c) xs z
              (All-append_left _ xs (t ∷ ys) q.owned) k))

    kept :
        (l : List ℕ)
        → NotIn t l
        → All (λ x. (m.thread x).run_queue_cpu ≡ some d) l
        → All
            (λ x.
              (((unlinked m c (last_node xs) t).thread x).next ≡ (m.thread x).next)
              × (((unlinked m c (last_node xs) t).thread x).run_queue_cpu
                  ≡ (m.thread x).run_queue_cpu))
            l
    kept [] n o = tt
    kept (z ∷ l) n o =
        let f = other_unlinked m c t (last_node xs) z n.0 in
        ((f.1 (not_previous z o.0), f.0), kept l n.1 o.1)

-- The thread that was taken out belongs to no queue.
pub unlink-free :
    (m : Machine) (c : ℕ) (previous : Option ℕ) (t : ℕ)
    → (((unlink m c previous t).thread t).next ≡ none)
      × (((unlink m c previous t).thread t).run_queue_cpu ≡ none)
unfolding unlinked
unlink-free m c previous t = thread_unlinked m c t previous
