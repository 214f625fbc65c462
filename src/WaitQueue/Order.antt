-- ===== src/WaitQueue/Order.antt =====
-- The order of the threads that wait in a queue.
use os.Base.{
  ℕ, ◌≤◌, ◌≡◌, refl, ◌≢◌, ◌⊎◌, inl, inr, Option, none, some, List, [], ◌∷◌, ◌++◌, length, walk,
  walk_lem, Seg, Seg-frame, Seg-append, Seg-split, All, NotIn, Distinct, Distinct-append_one,
  Distinct-middle, All-append_right, All-append_left, last_node, last_node-append_one, snoc_view,
  or_else, arith, false, Option-cases, ap, ◌∙◌, sym, subst, some_inj, none-ne-some, ◌==◌,
}
use os.Machine.{Machine, wait_links, set_thread}
use os.WaitQueue.{
  WaitQueue, wait_queue_enqueue_locked, wait_queue_dequeue_locked, wait_queue_count, find_tail,
  link_behind,
}

-- The threads `xs` wait in `queue`, in this order.
pub record Waiting (m : Machine) (queue : WaitQueue) (xs : List ℕ) : Type 0 where
  pub linked : Seg (wait_links m) queue.head xs none
  pub distinct : Distinct xs

find_tail_lem :
    (t h : ℕ) (xs : List ℕ) → NotIn t xs → find_tail t h xs ≡ or_else (last_node xs) (some h)
unfolding find_tail
find_tail_lem t h [] n = refl
find_tail_lem t h (x ∷ xs) n =
    let e : (x == t) ≡ false = let k = n.0 in ground (arith, k) in
    rw e (find_tail_lem t x xs n.1 ∙ ground arith)

find_tail-met : (t h : ℕ) (xs ys : List ℕ) → find_tail t h (xs ++ t ∷ ys) ≡ none
unfolding find_tail
find_tail-met t h [] ys = ground arith
find_tail-met t h (x ∷ xs) ys = ground (arith, find_tail-met t x xs ys)

links-other :
    (m : Machine) (tail t x : ℕ)
    → x ≢ tail
    → x ≢ t
    → wait_links (link_behind m (some tail) t) x ≡ wait_links m x
links-other m tail t x a b = ground (arith, a, b)

links-tail : (m : Machine) (tail t : ℕ) → wait_links (link_behind m (some tail) t) tail ≡ some t
links-tail m tail t = ground arith

links-new :
    (m : Machine) (tail t : ℕ) → t ≢ tail → wait_links (link_behind m (some tail) t) t ≡ none
links-new m tail t a = ground (arith, a)

links_kept :
    (m : Machine) (tail t : ℕ) (zs : List ℕ)
    → NotIn tail zs
    → NotIn t zs
    → All (λ x. wait_links (link_behind m (some tail) t) x ≡ wait_links m x) zs
links_kept m tail t [] a b = tt
links_kept m tail t (z ∷ zs) a b = (links-other m tail t z a.0 b.0, links_kept m tail t zs a.1 b.1)

-- `t` linked behind the last node `l`.
linked_behind :
    (m : Machine) (p : Option ℕ) (zs : List ℕ) (l t : ℕ)
    → Distinct (zs ++ l ∷ [])
    → NotIn t (zs ++ l ∷ [])
    → Seg (wait_links m) p (zs ++ l ∷ []) none
    → Seg (wait_links (link_behind m (some l) t)) p ((zs ++ l ∷ []) ++ t ∷ []) none
linked_behind m p zs l t d n s =
    let first = Seg-split (wait_links m) p zs l [] none s in
    let apart = Distinct-middle zs l [] d in
    let t-ne-l : t ≢ l = λ e. (All-append_right (λ x. x ≢ t) zs (l ∷ []) n).0 (sym e) in
    Seg-append (wait_links (link_behind m (some l) t)) p (zs ++ l ∷ []) (some t) (t ∷ []) none
      (Seg-append (wait_links (link_behind m (some l) t)) p zs (some l) (l ∷ []) (some t)
        (Seg-frame (wait_links m) (wait_links (link_behind m (some l) t)) p zs (some l)
          (links_kept m l t zs apart.0 (All-append_left (λ x. x ≢ t) zs (l ∷ []) n)) first.0)
        (refl, links-tail m l t))
      (refl, links-new m l t t-ne-l)

enqueue_empty :
    (fuel : ℕ) (m : Machine) (queue : WaitQueue) (t : ℕ)
    → queue.head ≡ none
    → wait_queue_enqueue_locked fuel m queue (some t)
      ≡ (set_thread m t (record (m.thread t) { wait_link = none }), record { head = some t })
unfolding wait_queue_enqueue_locked
enqueue_empty fuel m queue t e = rw e refl

enqueue_behind :
    (fuel : ℕ) (m : Machine) (queue : WaitQueue) (h t : ℕ) (o : Option ℕ)
    → queue.head ≡ some h
    → find_tail t h (walk (wait_links m) fuel (some h)) ≡ o
    → wait_queue_enqueue_locked fuel m queue (some t) ≡ (link_behind m o t, queue)
unfolding wait_queue_enqueue_locked
enqueue_behind fuel m queue h t o e k = rw (e, k) refl

joined :
    {m : Machine} {queue : WaitQueue} (t : ℕ) (xs : List ℕ) (l : ℕ)
    → last_node xs ≡ some l
    → Waiting m queue xs
    → NotIn t xs
    → Waiting (link_behind m (some l) t) queue (xs ++ t ∷ [])
joined {m} {queue} t xs l e w n = elim (snoc_view xs) [
  | inl k ↦ absurd (none-ne-some (sym (ap last_node k) ∙ e))
  | inr (zs, y, k) ↦
      let same : y ≡ l = some_inj (sym (last_node-append_one zs y) ∙ sym (ap last_node k) ∙ e) in
      let shape : xs ≡ zs ++ l ∷ [] = k ∙ ap (λ v. zs ++ v ∷ []) same in
      record {
        linked =
            subst (λ v. Seg (wait_links (link_behind m (some l) t)) queue.head (v ++ t ∷ []) none)
              (sym shape)
              (linked_behind m queue.head zs l t (subst Distinct shape w.distinct)
                (subst (NotIn t) shape n)
                (subst (λ v. Seg (wait_links m) queue.head v none) shape w.linked));
        distinct = Distinct-append_one xs t w.distinct n;
      }
]

no_last : (x : ℕ) (xs : List ℕ) → last_node (x ∷ xs) ≡ none → ⊥
no_last x xs e = elim (Option-cases (last_node xs)) [
  | inl k ↦ none-ne-some (sym e ∙ last_of k)
  | inr (y, k) ↦ none-ne-some (sym e ∙ last_of_some y k)
]
  where
    last_of : last_node xs ≡ none → last_node (x ∷ xs) ≡ some x
    last_of k = rw k refl

    last_of_some : (y : ℕ) → last_node xs ≡ some y → last_node (x ∷ xs) ≡ some y
    last_of_some y k = rw k refl

-- With fuel for the threads that wait, entering a queue that the thread is not in puts it behind
-- them.
pub wait_queue_enqueue-Waiting :
    {m : Machine} {queue : WaitQueue} (fuel t : ℕ) (xs : List ℕ)
    → Waiting m queue xs
    → NotIn t xs
    → length xs ≤ fuel
    → let (m', queue') = wait_queue_enqueue_locked fuel m queue (some t) in
      Waiting m' queue' (xs ++ t ∷ [])
wait_queue_enqueue-Waiting {m} {queue} fuel t [] w n enough =
    rw (enqueue_empty fuel m queue t w.linked)
      (record { linked = (refl, ground arith); distinct = (tt, tt) })
wait_queue_enqueue-Waiting {m} {queue} fuel t (x ∷ xs) w n enough =
    elim (Option-cases (last_node (x ∷ xs))) [
      | inl e ↦ absurd (no_last x xs e)
      | inr (l, e) ↦
          rw
            (enqueue_behind fuel m queue x t (some l) w.linked.0 (
              ap (find_tail t x) (
                ap (walk (wait_links m) fuel) (sym w.linked.0)
                ∙ walk_lem (wait_links m) fuel queue.head (x ∷ xs) enough w.linked)
              ∙ find_tail_lem t x (x ∷ xs) n
              ∙ ap (λ o. or_else o (some x)) e))
            (joined t (x ∷ xs) l e w n)
    ]

-- With fuel for the threads that wait, a thread that waits in the queue already keeps its place,
-- and nothing changes.
pub wait_queue_enqueue-again :
    {m : Machine} {queue : WaitQueue} (fuel t : ℕ) (xs ys : List ℕ)
    → Waiting m queue (xs ++ t ∷ ys)
    → length (xs ++ t ∷ ys) ≤ fuel
    → wait_queue_enqueue_locked fuel m queue (some t) ≡ (m, queue)
wait_queue_enqueue-again {m} {queue} fuel t xs ys w enough = elim (Option-cases queue.head) [
  | inl e ↦ absurd (nonempty xs (subst (λ p. Seg (wait_links m) p (xs ++ t ∷ ys) none) e w.linked))
  | inr (h, e) ↦ enqueue_behind fuel m queue h t none e (
      ap (find_tail t h) (
        ap (walk (wait_links m) fuel) (sym e)
        ∙ walk_lem (wait_links m) fuel queue.head (xs ++ t ∷ ys) enough w.linked)
      ∙ find_tail-met t h xs ys)
]
  where
    nonempty : (zs : List ℕ) → Seg (wait_links m) none (zs ++ t ∷ ys) none → ⊥
    nonempty [] s = none-ne-some s.0
    nonempty (z ∷ zs) s = none-ne-some s.0

-- On a queue where the threads `xs` wait, `wait_queue_dequeue_locked` returns the first of them,
-- takes its link away and leaves the rest in order; where none waits it returns null and nothing
-- changes.
pub wait_queue_dequeue-Waiting :
    {m : Machine} {queue : WaitQueue} (xs : List ℕ)
    → Waiting m queue xs
    → let (left, taken) = wait_queue_dequeue_locked m queue in
      ((xs ≡ []) × (taken ≡ none) × (left ≡ (m, queue)))
      ⊎ ((t : ℕ) × (ys : List ℕ) × (xs ≡ t ∷ ys)
          × (taken ≡ some t)
          × Waiting left.0 left.1 ys
          × (wait_links left.0 t ≡ none))
unfolding wait_queue_dequeue_locked
wait_queue_dequeue-Waiting {m} {queue} [] w = let e = w.linked in inl (refl, rw e refl, rw e refl)
wait_queue_dequeue-Waiting {m} {queue} (t ∷ ys) w =
    let e = w.linked.0 in
    inr (
      t,
      ys,
      refl,
      rw e refl,
      rw e (record { linked = rest; distinct = w.distinct.1 }),
      rw e (ground arith),
    )
  where
    m' : Machine
    m' = set_thread m t (record (m.thread t) { wait_link = none })

    kept : (zs : List ℕ) → NotIn t zs → All (λ x. wait_links m' x ≡ wait_links m x) zs
    kept [] n = tt
    kept (z ∷ zs) n = (let k = n.0 in ground (arith, k), kept zs n.1)

    rest : Seg (wait_links m') (m.thread t).wait_link ys none
    rest =
        Seg-frame (wait_links m) (wait_links m') (m.thread t).wait_link ys none
          (kept ys w.distinct.0) w.linked.1

-- `wait_queue_count` is the number of threads that wait.
pub wait_queue_count_lem :
    {m : Machine} {queue : WaitQueue} (fuel : ℕ) (xs : List ℕ)
    → Waiting m queue xs
    → length xs ≤ fuel
    → wait_queue_count fuel m queue ≡ length xs
unfolding wait_queue_count
wait_queue_count_lem {m} {queue} fuel xs w enough =
    ap length (walk_lem (wait_links m) fuel queue.head xs enough w.linked)
