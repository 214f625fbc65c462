-- ===== src/RunQueue/Dequeue.antt =====
-- `dequeue_ready_thread` on a well-formed queue.
use os.Base.{
  ℕ, ◌+◌, ◌≡◌, refl, ◌≢◌, Option, none, some, List, [], ◌∷◌, arith, Seg, All, NotIn, last_node,
  Seg-frame, All-map, sym, ap, ◌∙◌, some_inj,
}
use os.Machine.{Machine, links}
use os.RunQueue.{dequeue_ready_thread, pop_head}
use os.RunQueue.Inv.{Queued, Queued-frame, not_owned-NotIn, others-unchanged}

module _ (m : Machine) (c t : ℕ) where
  popped : Machine
  unfolding pop_head
  popped = pop_head m c t

  runq_popped :
      (h : Option ℕ)
      → (m.thread t).next ≡ h
      → ((popped.cpu c).runq.head ≡ h)
        × ((popped.cpu c).runq.tail ≡ elim h [ none ↦ none | some _ ↦ (m.cpu c).runq.tail ])
        × ((m.cpu c).runq.length ≢ 0 → (popped.cpu c).runq.length + 1 ≡ (m.cpu c).runq.length)
  unfolding popped
  runq_popped none e = (ground arith, ground arith, λ k. ground arith)
  runq_popped (some l) e = (ground arith, ground arith, λ k. ground arith)

  other_cpu_popped : (d : ℕ) → d ≢ c → popped.cpu d ≡ m.cpu d
  unfolding popped
  other_cpu_popped d h = ground arith

  thread_popped : (links popped t ≡ none) × ((popped.thread t).run_queue_cpu ≡ none)
  unfolding popped
  thread_popped = ground arith

  other_thread_popped :
      (x : ℕ)
      → x ≢ t
      → ((popped.thread x).next ≡ (m.thread x).next)
        × ((popped.thread x).run_queue_cpu ≡ (m.thread x).run_queue_cpu)
  unfolding popped
  other_thread_popped x h = ground arith

  Queued-popped : (ts : List ℕ) → Queued m c (t ∷ ts) → Queued popped c ts
  Queued-popped ts q =
      let n = q.distinct.0 in
      let r = runq_popped (m.thread t).next refl in
      record {
        linked = rw r.0 (
            Seg-frame (links m) (links popped) (m.thread t).next ts none
              (All-map (λ x. x ≢ t) (λ x. links popped x ≡ links m x) ts
                (λ x h. (other_thread_popped x h).0) n)
              q.linked.1);
        tail_last = tail_popped ts q.linked.1 q.tail_last;
        counted = omega (arith, r.2 (omega (arith, q.counted)), q.counted);
        distinct = q.distinct.1;
        owned = owners ts n q.owned.1;
      }
    where
      tail_popped :
          (zs : List ℕ)
          → Seg (links m) (m.thread t).next zs none
          → (m.cpu c).runq.tail ≡ last_node (t ∷ zs)
          → (popped.cpu c).runq.tail ≡ last_node zs
      tail_popped [] s e = (runq_popped none s).1
      tail_popped (z ∷ zs) s e = (runq_popped (some z) s.0).1 ∙ e ∙ ground arith

      owners :
          (zs : List ℕ)
          → NotIn t zs
          → All (λ x. (m.thread x).run_queue_cpu ≡ some c) zs
          → All (λ x. (popped.thread x).run_queue_cpu ≡ some c) zs
      owners [] n o = tt
      owners (z ∷ zs) n o = ((other_thread_popped z n.0).1 ∙ o.0, owners zs n.1 o.1)

dequeue_some :
    (m : Machine) (c t : ℕ)
    → (m.cpu c).runq.head ≡ some t
    → dequeue_ready_thread m (some c) ≡ (popped m c t, some t)
unfolding dequeue_ready_thread popped
dequeue_some m c t e = ap (λ (h : Option ℕ). at_head h) e
  where
    at_head : Option ℕ → Machine × Option ℕ
    at_head h = elim h [ none ↦ (m, none) | some u ↦ (pop_head m c u, some u) ]

dequeue_none :
    (m : Machine) (c : ℕ) → (m.cpu c).runq.head ≡ none → dequeue_ready_thread m (some c) ≡ (m, none)
unfolding dequeue_ready_thread
dequeue_none m c e = ap (λ (h : Option ℕ). at_head h) e
  where
    at_head : Option ℕ → Machine × Option ℕ
    at_head h = elim h [ none ↦ (m, none) | some u ↦ (pop_head m c u, some u) ]

-- A queue is served in order: `dequeue_ready_thread` returns its first thread, which then belongs to
-- no queue, the rest stays queued in the same order, and every other CPU's queue is as before.
pub dequeue-Queued :
    {m : Machine} {c t : ℕ} {ts : List ℕ}
    → Queued m c (t ∷ ts)
    → let (m', taken) = dequeue_ready_thread m (some c) in
      (taken ≡ some t)
      × Queued m' c ts
      × ((m'.thread t).next ≡ none)
      × ((m'.thread t).run_queue_cpu ≡ none)
      × ((d : ℕ) (ys : List ℕ) → d ≢ c → Queued m d ys → Queued m' d ys)
dequeue-Queued {m} {c} {t} {ts} q = rw (dequeue_some m c t q.linked.0) (
  refl,
  Queued-popped m c t ts q,
  (thread_popped m c t).0,
  (thread_popped m c t).1,
  λ d ys ne r. Queued-frame r (ap (λ x. x.runq) (other_cpu_popped m c t d ne)) (
      others-unchanged m (popped m c t) ys (other_thread_popped m c t)
        (not_owned-NotIn t r (λ k. ne (some_inj (sym k ∙ q.owned.0))))),
)

-- An empty queue yields no thread, and nothing changes.
pub dequeue-empty :
    {m : Machine} {c : ℕ} → Queued m c [] → dequeue_ready_thread m (some c) ≡ (m, none)
dequeue-empty {m} {c} q = dequeue_none m c q.linked
