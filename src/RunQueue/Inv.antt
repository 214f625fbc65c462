-- ===== src/RunQueue/Inv.antt =====
-- When the run queue of a CPU holds the threads `xs`, in this order.
use os.Base.{
  ℕ, ◌≡◌, ◌≢◌, none, some, List, [], ◌∷◌, length, Seg, All, NotIn, Distinct, last_node, Seg-frame,
  All-map, sym, ap, ◌∙◌,
}
use os.Machine.{Machine, links}

pub record Queued (m : Machine) (c : ℕ) (xs : List ℕ) : Type 0 where
  pub linked : Seg (links m) (m.cpu c).runq.head xs none
  pub tail_last : (m.cpu c).runq.tail ≡ last_node xs
  pub counted : (m.cpu c).runq.length ≡ length xs
  pub distinct : Distinct xs
  pub owned : All (λ t. (m.thread t).run_queue_cpu ≡ some c) xs

-- A thread that another CPU's queue, or none, owns is not in this queue.
pub not_owned-NotIn :
    {m : Machine} {c : ℕ} {xs : List ℕ} (t : ℕ)
    → Queued m c xs
    → (m.thread t).run_queue_cpu ≢ some c
    → NotIn t xs
not_owned-NotIn {m} {c} {xs} t q h =
    All-map (λ x. (m.thread x).run_queue_cpu ≡ some c) (λ x. x ≢ t) xs
      (λ x e k. h (ap (λ y. (m.thread y).run_queue_cpu) (sym k) ∙ e)) q.owned

-- What a queue sees of a change of the machine that leaves its CPU's record of it and the links of
-- its threads alone.
pub Queued-frame :
    {m m' : Machine} {c : ℕ} {xs : List ℕ}
    → Queued m c xs
    → (m'.cpu c).runq ≡ (m.cpu c).runq
    → All
        (λ x.
          ((m'.thread x).next ≡ (m.thread x).next)
          × ((m'.thread x).run_queue_cpu ≡ (m.thread x).run_queue_cpu))
        xs
    → Queued m' c xs
Queued-frame {m} {m'} {c} {xs} q r a = record {
  linked = rw r (
      Seg-frame (links m) (links m') (m.cpu c).runq.head xs none
        (All-map _ (λ x. links m' x ≡ links m x) xs (λ x p. p.0) a) q.linked);
  tail_last = ap (λ x. x.tail) r ∙ q.tail_last;
  counted = ap (λ x. x.length) r ∙ q.counted;
  distinct = q.distinct;
  owned = owners xs a q.owned;
}
  where
    owners :
        (ys : List ℕ)
        → All
            (λ x.
              ((m'.thread x).next ≡ (m.thread x).next)
              × ((m'.thread x).run_queue_cpu ≡ (m.thread x).run_queue_cpu))
            ys
        → All (λ t. (m.thread t).run_queue_cpu ≡ some c) ys
        → All (λ t. (m'.thread t).run_queue_cpu ≡ some c) ys
    owners [] a o = tt
    owners (y ∷ ys) a o = (a.0.1 ∙ o.0, owners ys a.1 o.1)

-- Only the thread `t` changed its link and its owner.
pub others-unchanged :
    (m m' : Machine) {t : ℕ} (xs : List ℕ)
    → ((x : ℕ)
        → x ≢ t
        → ((m'.thread x).next ≡ (m.thread x).next)
          × ((m'.thread x).run_queue_cpu ≡ (m.thread x).run_queue_cpu))
    → NotIn t xs
    → All
        (λ x.
          ((m'.thread x).next ≡ (m.thread x).next)
          × ((m'.thread x).run_queue_cpu ≡ (m.thread x).run_queue_cpu))
        xs
others-unchanged m m' {t} xs f n = All-map (λ x. x ≢ t) _ xs f n
