-- ===== src/RunQueue/Enqueue.antt =====
-- The queue functions that src/kernel/proc/thread.cpp calls: `run_queue_remove_locked`,
-- `dequeue_thread_if_queued`, `run_queue_append_locked` and `enqueue_thread_on_cpu`.
use os.Base.{
  ℕ, ◌+◌, ◌≤◌, ◌<◌, ◌^◌, ◌≡◌, refl, ◌≢◌, Option, none, some, List, [], ◌∷◌, ◌++◌, length, arith,
  All, NotIn, last_node, ap, ◌∙◌, true, walk, walk_lem, Distinct-middle, or_else, or_else-none,
}
use os.Machine.{Machine, links, set_thread}
use os.RunQueue.{
  unlink, find_previous, run_queue_remove_locked, append_ready_thread_locked,
  run_queue_append_locked, enqueue_thread_on_cpu,
}
use os.RunQueue.Inv.{Queued, Queued-frame}
use os.RunQueue.Append.{append-Queued, append-Queued_other}
use os.RunQueue.Remove.{unlink-Queued, unlink-Queued_other}

find_previous_lem :
    (t : ℕ) (p : Option ℕ) (xs ys : List ℕ)
    → NotIn t xs
    → find_previous t p (xs ++ t ∷ ys) ≡ some (or_else (last_node xs) p)
unfolding find_previous
find_previous_lem t p [] ys n = ground arith
find_previous_lem t p (x ∷ xs) ys n = ground (arith, find_previous_lem t (some x) xs ys n.1)

find_previous-none : (t : ℕ) (p : Option ℕ) (xs : List ℕ) → NotIn t xs → find_previous t p xs ≡ none
unfolding find_previous
find_previous-none t p [] n = refl
find_previous-none t p (x ∷ xs) n = ground (arith, find_previous-none t (some x) xs n.1)

-- `run_queue_remove_locked` finds a queued thread and unlinks it behind the node before it.
pub remove-unlink :
    {m : Machine} {c : ℕ} (fuel : ℕ) (xs : List ℕ) (t : ℕ) (ys : List ℕ)
    → Queued m c (xs ++ t ∷ ys)
    → NotIn t xs
    → length (xs ++ t ∷ ys) ≤ fuel
    → run_queue_remove_locked fuel m (some c) (some t) ≡ unlink m c (last_node xs) t
unfolding run_queue_remove_locked
remove-unlink {m} {c} fuel xs t ys q n enough =
    let found : find_previous t none (walk (links m) fuel (m.cpu c).runq.head)
        ≡ some (last_node xs) =
      ap (find_previous t none)
        (walk_lem (links m) fuel (m.cpu c).runq.head (xs ++ t ∷ ys) enough q.linked)
      ∙ find_previous_lem t none xs ys n
      ∙ ap some (or_else-none (last_node xs)) in
    rw (found, run_queue_remove_locked)

-- With fuel for the queue, removing a thread that is queued leaves the others queued in their
-- order, and every other CPU's queue as it was.
pub remove-Queued :
    {m : Machine} {c : ℕ} (fuel : ℕ) (xs : List ℕ) (t : ℕ) (ys : List ℕ)
    → Queued m c (xs ++ t ∷ ys)
    → length (xs ++ t ∷ ys) ≤ fuel
    → let m' = run_queue_remove_locked fuel m (some c) (some t) in
      Queued m' c (xs ++ ys) × ((d : ℕ) (zs : List ℕ) → d ≢ c → Queued m d zs → Queued m' d zs)
remove-Queued {m} {c} fuel xs t ys q enough =
    rw (remove-unlink fuel xs t ys q (Distinct-middle xs t ys q.distinct).0 enough)
      (unlink-Queued xs t ys q, λ d zs ne r. unlink-Queued_other xs t ys q r ne)

-- Removing a thread that is not in the queue changes nothing.
pub remove-absent :
    {m : Machine} {c : ℕ} (fuel t : ℕ) {xs : List ℕ}
    → Queued m c xs
    → NotIn t xs
    → length xs ≤ fuel
    → run_queue_remove_locked fuel m (some c) (some t) ≡ m
unfolding run_queue_remove_locked
remove-absent {m} {c} fuel t {xs} q n enough =
    let missed : find_previous t none (walk (links m) fuel (m.cpu c).runq.head) ≡ none =
      ap (find_previous t none) (walk_lem (links m) fuel (m.cpu c).runq.head xs enough q.linked)
      ∙ find_previous-none t none xs n in
    rw (missed, run_queue_remove_locked)

abbrev pub assigned : Machine → ℕ → ℕ → Machine
assigned m c t = set_thread m t (record (m.thread t) { scheduler_cpu = some c })

pub enqueue_joins :
    (m : Machine) (c t : ℕ)
    → (m.thread t).run_queue_cpu ≡ none
    → (m.cpu c).idle_thread ≢ some t
    → enqueue_thread_on_cpu m (some t) (some c)
      ≡ (append_ready_thread_locked (assigned m c t) (some c) (some t), true)
unfolding enqueue_thread_on_cpu run_queue_append_locked
enqueue_joins m c t free idle = go (m.cpu c).idle_thread refl
  where
    go :
        (o : Option ℕ)
        → (m.cpu c).idle_thread ≡ o
        → enqueue_thread_on_cpu m (some t) (some c)
          ≡ (append_ready_thread_locked (assigned m c t) (some c) (some t), true)
    go none e = ground arith
    go (some i) e = ground arith

append-scheduler_cpu :
    (m : Machine) (c t x : ℕ)
    → ((append_ready_thread_locked m (some c) (some t)).thread x).scheduler_cpu
      ≡ (m.thread x).scheduler_cpu
unfolding append_ready_thread_locked
append-scheduler_cpu m c t x = go (m.cpu c).runq.tail refl
  where
    go :
        (o : Option ℕ)
        → (m.cpu c).runq.tail ≡ o
        → ((append_ready_thread_locked m (some c) (some t)).thread x).scheduler_cpu
          ≡ (m.thread x).scheduler_cpu
    go none e = ground arith
    go (some l) e = ground arith

-- What `enqueue_thread_on_cpu` does with a thread that is in no queue and is not the CPU's idle
-- thread, where the length of the queue does not wrap: it joins the end of that CPU's queue, the
-- CPU is recorded in it, the result is true, and every other CPU's queue is as it was.
pub enqueue-Queued :
    {m : Machine} {c : ℕ} {xs : List ℕ} (t : ℕ)
    → Queued m c xs
    → (m.thread t).run_queue_cpu ≡ none
    → (m.cpu c).idle_thread ≢ some t
    → length xs + 1 < 2 ^ 64
    → let (m', queued) = enqueue_thread_on_cpu m (some t) (some c) in
      (queued ≡ true)
      × Queued m' c (xs ++ t ∷ [])
      × ((m'.thread t).scheduler_cpu ≡ some c)
      × ((d : ℕ) (ys : List ℕ) → d ≢ c → Queued m d ys → Queued m' d ys)
enqueue-Queued {m} {c} {xs} t q free idle fits = rw (enqueue_joins m c t free idle) (
  refl,
  append-Queued t (same c xs q) free1 fits,
  append-scheduler_cpu m1 c t t ∙ update_scheduler,
  λ d ys ne r. append-Queued_other t (same c xs q) (same d ys r) ne free1,
)
  where
    m1 : Machine
    m1 = assigned m c t

    update_scheduler : (m1.thread t).scheduler_cpu ≡ some c
    update_scheduler = ground arith

    free1 : (m1.thread t).run_queue_cpu ≡ none
    free1 = ground arith

    same : (d : ℕ) (ys : List ℕ) → Queued m d ys → Queued m1 d ys
    same d ys r = Queued-frame r refl (unchanged ys)
      where
        unchanged :
            (zs : List ℕ)
            → All
                (λ x.
                  ((m1.thread x).next ≡ (m.thread x).next)
                  × ((m1.thread x).run_queue_cpu ≡ (m.thread x).run_queue_cpu))
                zs
        unchanged [] = tt
        unchanged (z ∷ zs) = ((ground arith, ground arith), unchanged zs)
