-- ===== src/Wake/Queue.antt =====
-- Waking the threads of a queue: `wait_queue_wake_all` and `completion_signal`.
use os.Base.{
  ℕ, zero, suc, ◌+◌, ◌≤◌, ◌≡◌, refl, ◌≢◌, Bool, true, false, not, Option, none, some, List, [], ◌∷◌,
  length, arith, ap, ◌∙◌, sym, subst, update_self, update_ne, All, NotIn, Distinct, Seg, Seg-frame,
}
use os.Machine.{Machine, wait_links}
use os.WaitQueue.{WaitQueue, Completion, is_dying_or_free, wait_queue_dequeue_all_locked}
use os.WaitQueue.Order.{Waiting}
use os.Wake.{
  Dispatch, wake_blocked_thread, unlinked, wake_chain, wait_queue_wake_all, completion_signal,
}
use os.Wake.Frame.{Unmoved, Unmoved-refl, Unmoved-trans}
use os.Wake.Ready.{IsWoken, IsWoken-later, wake-other, wake-IsWoken}

-- A thread that may be woken.
abbrev pub IsAlive : Machine → ℕ → Type 0
IsAlive m t = is_dying_or_free (m.thread t).state ≡ false

-- From `m` to `m'` the threads `xs` have been woken.
pub record ChainWoken (m m' : Machine) (xs : List ℕ) : Type 0 where
  pub woken : All (λ x. IsWoken (m'.thread x)) xs
  pub others : (x : ℕ) → NotIn x xs → Unmoved (m.thread x) (m'.thread x)

-- One round of the loop.
abbrev pub once : Dispatch → ℕ → Option ℕ → ℕ → Dispatch
once s local target t = wake_blocked_thread (unlinked s t) local (some t) target

module _ (s : Dispatch) (local : ℕ) (target : Option ℕ) (t : ℕ) (alive : IsAlive s.machine t) where
  abbrev woken_once : Dispatch
  woken_once = once s local target t

  pub once-IsAlive : IsAlive (unlinked s t).machine t
  once-IsAlive = ap (λ a. is_dying_or_free a.state) (update_self s.machine.thread t _) ∙ alive

  once-IsWoken : IsWoken (woken_once.machine.thread t)
  once-IsWoken =
      wake-IsWoken (unlinked s t) local t target once-IsAlive
        (ap (λ a. a.wait_link) (update_self s.machine.thread t _))

  once-other : (x : ℕ) → t ≢ x → Unmoved (s.machine.thread x) (woken_once.machine.thread x)
  once-other x n =
      subst (λ a. Unmoved a (woken_once.machine.thread x)) (update_ne s.machine.thread t x _ n)
        (wake-other (unlinked s t) local t target once-IsAlive x n)

abbrev pub ChainResult : Dispatch → List ℕ → Dispatch × ℕ → Type 0
ChainResult s xs (s', count) = ChainWoken s.machine s'.machine xs × (count ≡ length xs)

-- The threads behind `t` after `t` has been woken.
pub later-IsAlive :
    (s : Dispatch) (local : ℕ) (target : Option ℕ) (t : ℕ)
    → IsAlive s.machine t
    → (xs : List ℕ) → NotIn t xs
    → All (IsAlive s.machine) xs
    → All (IsAlive (once s local target t).machine) xs
later-IsAlive s local target t alive [] n a = tt
later-IsAlive s local target t alive (x ∷ xs) n a =
    let u = once-other s local target t alive x (λ e. n.0 (sym e)) in
    (ap (λ y. is_dying_or_free y) u.state ∙ a.0, later-IsAlive s local target t alive xs n.1 a.1)

pub later_links :
    (s : Dispatch) (local : ℕ) (target : Option ℕ) (t : ℕ)
    → IsAlive s.machine t
    → (xs : List ℕ) → NotIn t xs
    → All (λ x. wait_links (once s local target t).machine x ≡ wait_links s.machine x) xs
later_links s local target t alive [] n = tt
later_links s local target t alive (x ∷ xs) n =
    let u = once-other s local target t alive x (λ e. n.0 (sym e)) in
    (u.wait_link, later_links s local target t alive xs n.1)

ChainWoken-cons :
    (s : Dispatch) (local : ℕ) (target : Option ℕ) (t : ℕ)
    → IsAlive s.machine t
    → (m' : Machine) (xs : List ℕ) → NotIn t xs
    → ChainWoken (once s local target t).machine m' xs
    → ChainWoken s.machine m' (t ∷ xs)
ChainWoken-cons s local target t alive m' xs n w = record {
  woken = (IsWoken-later (once-IsWoken s local target t alive) (w.others t n), w.woken);
  others = λ x h. Unmoved-trans (once-other s local target t alive x h.0) (w.others x h.1);
}

wake_chain_lem :
    (fuel : ℕ) (s : Dispatch) (local : ℕ) (target first : Option ℕ) (xs : List ℕ)
    → Seg (wait_links s.machine) first xs none
    → Distinct xs
    → All (IsAlive s.machine) xs
    → length xs ≤ fuel
    → ChainResult s xs (wake_chain fuel s local target first)
unfolding wake_chain
wake_chain_lem fuel s local target first [] seg d a l =
    subst (λ p. ChainResult s [] (wake_chain fuel s local target p)) (sym seg)
      (record { woken = tt; others = λ x h. Unmoved-refl (s.machine.thread x) }, refl)
wake_chain_lem zero s local target first (t ∷ xs) seg d a l = absurd (omega (arith, l))
wake_chain_lem (suc fuel) s local target first (t ∷ xs) seg d a l =
    let rest =
      wake_chain_lem fuel (once s local target t) local target (s.machine.thread t).wait_link xs
        (Seg-frame (wait_links s.machine) (wait_links (once s local target t).machine)
          (s.machine.thread t).wait_link xs none (later_links s local target t a.0 xs d.0) seg.1)
        d.1 (later-IsAlive s local target t a.0 xs d.0 a.1) (omega (arith, l)) in
    subst (λ p. ChainResult s (t ∷ xs) (wake_chain (suc fuel) s local target p)) (sym seg.0)
      (ChainWoken-cons s local target t a.0 _ xs d.0 rest.0, ap (λ n. n + 1) rest.1 ∙ omega arith)

-- What `wait_queue_wake_all` leaves of a queue of the threads `xs`.
abbrev pub WakeAllResult : Dispatch → List ℕ → (Dispatch × WaitQueue) × ℕ → Type 0
WakeAllResult s xs ((s', queue'), count) =
    ChainWoken s.machine s'.machine xs × (queue'.head ≡ none) × (count ≡ length xs)

-- Where the threads `xs` wait in a queue, none of them dying or free, and the fuel covers them,
-- `wait_queue_wake_all` makes each of them ready, or running if it is the current one, clears its
-- wait and its link, leaves the state and the wait of every other thread as they were and the queue
-- empty, and returns how many there were.
pub wait_queue_wake_all_lem :
    (fuel : ℕ) (s : Dispatch) (local : ℕ) (queue : WaitQueue) (target : Option ℕ) (xs : List ℕ)
    → Waiting s.machine queue xs
    → All (IsAlive s.machine) xs
    → length xs ≤ fuel
    → WakeAllResult s xs (wait_queue_wake_all fuel s local queue target)
unfolding wait_queue_wake_all wait_queue_dequeue_all_locked
wait_queue_wake_all_lem fuel s local queue target xs w a l =
    let (woken, count) = wake_chain_lem fuel s local target queue.head xs w.linked w.distinct a l in
    (woken, refl, count)

abbrev pub SignalResult : Dispatch → Completion → List ℕ → (Dispatch × Completion) × Bool → Type 0
SignalResult s completion xs ((s', completion'), first) =
    ChainWoken s.machine s'.machine xs
    × (completion'.done ≡ true)
    × (completion'.waiters.head ≡ none)
    × (first ≡ not completion.done)

-- Where the threads `xs` wait for a completion, none of them dying or free, and the fuel covers them,
-- `completion_signal` sets it done, leaves no thread in its queue, wakes each of them, and returns
-- true exactly if the completion was not done before.
pub completion_signal_lem :
    (fuel : ℕ) (s : Dispatch) (local : ℕ) (completion : Completion) (xs : List ℕ)
    → Waiting s.machine completion.waiters xs
    → All (IsAlive s.machine) xs
    → length xs ≤ fuel
    → SignalResult s completion xs (completion_signal fuel s local completion)
unfolding completion_signal
completion_signal_lem fuel s local completion xs w a l =
    let (woken, empty, _) = wait_queue_wake_all_lem fuel s local completion.waiters none xs w a l in
    (woken, refl, empty, refl)
