-- ===== src/Schedule/Round.antt =====
-- `schedule_next` and the order of a run queue.
use os.Base.{
  ℕ, ◌+◌, ◌^◌, ◌<◌, ◌≡◌, refl, ◌≢◌, inl, inr, true, false, not, ◌&&◌, Option, none, some, List, [],
  ◌∷◌, ◌++◌, length, arith, ap, ◌∙◌, sym, subst, Bool-cases, All,
}
use os.Machine.{Machine, ThreadState, ProcessState, pointer_eq}
use os.RunQueue.{dequeue_ready_thread}
use os.RunQueue.Inv.{Queued, Queued-frame}
use os.RunQueue.Dequeue.{dequeue-Queued}
use os.WaitQueue.{is_dying_or_free}
use os.Wake.{Dispatch, select_target_cpu, mark_thread_ready, made_running}
use os.Wake.Frame.{made_running_self}
use os.Wake.Join.{mark_thread_ready-Queued, states-Queued}
use os.Schedule.{
  schedule_next, switched, not_pending, record_transition, same_thread, keeps_current, is_running,
}

all_same :
    (m : Machine) (xs : List ℕ)
    → All
        (λ x.
          ((m.thread x).next ≡ (m.thread x).next)
          × ((m.thread x).run_queue_cpu ≡ (m.thread x).run_queue_cpu))
        xs
all_same m [] = tt
all_same m (x ∷ xs) = ((refl, refl), all_same m xs)

pub not_pending-Queued :
    (m : Machine) (local c : ℕ) (xs : List ℕ) → Queued m c xs → Queued (not_pending m local) c xs
not_pending-Queued m local c xs q = Queued-frame q (ground arith) (all_same m xs)

pub transition-Queued :
    (m : Machine) (current next : Option ℕ) (c : ℕ) (xs : List ℕ)
    → Queued m c xs
    → Queued (record_transition m current next) c xs
transition-Queued m current next c xs q = elim (Bool-cases (same_thread next current)) [
  | inl b ↦ rw b q
  | inr b ↦ rw b (Queued-frame q refl (all_same m xs))
]

pub transition-threads :
    (m : Machine) (current next : Option ℕ) → (record_transition m current next).thread ≡ m.thread
transition-threads m current next = elim (Bool-cases (same_thread next current)) [
  | inl b ↦ rw b refl
  | inr b ↦ rw b refl
]

-- What a switch to the first thread of a queue leaves.
abbrev pub SwitchResult : Machine → ℕ → ℕ → List ℕ → Machine × Option ℕ → Type 0
SwitchResult m local n rest (m', next) =
    (next ≡ some n)
    × Queued m' local rest
    × ((m'.thread n).state ≡ ThreadState.running)
    × ((d : ℕ) (ys : List ℕ) → d ≢ local → Queued m d ys → Queued m' d ys)

switched-result :
    (m m1 : Machine) (local n : ℕ) (rest : List ℕ) (current : Option ℕ)
    → Queued m1 local rest
    → ((d : ℕ) (ys : List ℕ) → d ≢ local → Queued m d ys → Queued m1 d ys)
    → SwitchResult m local n rest (switched (m1, some n) local current)
switched-result m m1 local n rest current q others = (
  refl,
  transition-Queued (made_running m1 n) current (some n) local rest
      (states-Queued m1 n ThreadState.running ProcessState.running local rest q),
  ap (λ f. (f n).state) (transition-threads (made_running m1 n) current (some n))
      ∙ ap (λ a. a.state) (made_running_self m1 n),
  λ d ys ne r.
      transition-Queued (made_running m1 n) current (some n) d ys
        (states-Queued m1 n ThreadState.running ProcessState.running d ys (others d ys ne r)),
)

-- The first thread of the queue is taken.
taken_next :
    (m : Machine) (local n : ℕ) (rest : List ℕ) (current : Option ℕ)
    → Queued m local (n ∷ rest)
    → SwitchResult m local n rest
        (switched (dequeue_ready_thread (not_pending m local) (some local)) local current)
taken_next m local n rest current q =
    let r = dequeue-Queued (not_pending-Queued m local local (n ∷ rest) q) in
    go (dequeue_ready_thread (not_pending m local) (some local)) r.0 r.1
      (λ d ys ne k. r.4 d ys ne (not_pending-Queued m local d ys k))
  where
    go :
        (x : Machine × Option ℕ)
        → x.1 ≡ some n
        → Queued x.0 local rest
        → ((d : ℕ) (ys : List ℕ) → d ≢ local → Queued m d ys → Queued x.0 d ys)
        → SwitchResult m local n rest (switched x local current)
    go (m1, taken) e k others =
        subst (λ o. SwitchResult m local n rest (switched (m1, o) local current)) (sym e)
          (switched-result m m1 local n rest current k others)

not_idle : (o : Option ℕ) (t : ℕ) → o ≢ some t → pointer_eq o t ≡ false
not_idle none t h = refl
not_idle (some i) t h = let k : i ≢ t = λ e. h (ap some e) in ground (arith, k)

kept :
    (m : Machine) (local t : ℕ)
    → (m.cpu local).idle_thread ≢ some t
    → (m.thread t).state ≡ ThreadState.running
    → keeps_current m local true (some t) ≡ true
kept m local t idle state =
    ap (λ b. true && not b && is_running (m.thread t).state)
      (not_idle (m.cpu local).idle_thread t idle)
    ∙ ap (λ x. true && not false && is_running x) state

-- The dispatcher with the machine that `schedule_next` leaves, and the thread.
abbrev pub ScheduleResult : Dispatch → ℕ → ℕ → List ℕ → Dispatch × Option ℕ → Type 0
ScheduleResult s local n rest (s', next) = SwitchResult s.machine local n rest (s'.machine, next)

SwitchResult-from :
    (m m1 : Machine) (local n : ℕ) (rest : List ℕ)
    → ((d : ℕ) (ys : List ℕ) → d ≢ local → Queued m d ys → Queued m1 d ys)
    → (r : Machine × Option ℕ) → SwitchResult m1 local n rest r
    → SwitchResult m local n rest r
SwitchResult-from m m1 local n rest others (m', next) (a, b, c, d) =
    (a, b, c, λ e ys ne q. d e ys ne (others e ys ne q))

-- Where `xs` is the queue of a CPU, the running thread `t` is not its idle thread and is in no queue,
-- and the length of the queue does not wrap, `schedule_next` with `keep_current` serves the threads
-- in turn: `t` joins the end of the queue, the first thread of the queue then leaves it, is running and is
-- the one returned, and every other CPU's queue is as it was.
pub schedule_next-Queued :
    (s : Dispatch) (local t n : ℕ) (xs rest : List ℕ)
    → Queued s.machine local xs
    → (s.machine.cpu local).current_thread ≡ some t
    → (s.machine.thread t).state ≡ ThreadState.running
    → (s.machine.thread t).run_queue_cpu ≡ none
    → (s.machine.cpu local).idle_thread ≢ some t
    → length xs + 1 < 2 ^ 64
    → xs ++ t ∷ [] ≡ n ∷ rest
    → ScheduleResult s local n rest (schedule_next s local true)
unfolding schedule_next select_target_cpu
schedule_next-Queued s local t n xs rest q current state free idle fits order =
    let keeps : keeps_current s.machine local true (some t) ≡ true =
      kept s.machine local t idle state in
    let s1 = mark_thread_ready s local (some t) (some local) in
    let ready =
      mark_thread_ready-Queued s local t local (some local) refl q (ap is_dying_or_free state) free
        idle fits in
    rw (current, keeps)
      (SwitchResult-from s.machine s1.machine local n rest ready.3
        (switched (dequeue_ready_thread (not_pending s1.machine local) (some local)) local (some t))
        (taken_next s1.machine local n rest (some t)
          (subst (Queued s1.machine local) order ready.0)))
