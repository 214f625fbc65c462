-- ===== src/Schedule/Switch.antt =====
-- The choice of the next thread, from run queues in order.
use os.Base.{
  ℕ, ◌+◌, ◌^◌, ◌<◌, ◌≡◌, refl, inl, inr, Bool, false, not, Option, none, some, List, [], ◌∷◌, All,
  arith, ap, ◌∙◌, sym, subst, Bool-cases, ◌&&◌, if◌then◌else◌, false≢true,
}
use os.Machine.{Machine, ThreadState, ProcessState, pointer_eq}
use os.RunQueue.{dequeue_ready_thread}
use os.RunQueue.Inv.{Queued}
use os.RunQueue.Dequeue.{dequeue-Queued, dequeue-empty}
use os.Wake.{Dispatch, mark_thread_ready, select_target_cpu}
use os.Schedule.{schedule_next, switched, not_pending, keeps_current, is_running, or_idle, run_next}
use os.Schedule.Round.{transition-Queued, not_pending-Queued}
use os.Schedule.Sound.{Sound, with_queue, with_queue-IsSound}
use os.Schedule.Change.{states-Sound, mark_thread_ready-Sound}

module _ {limit : ℕ} (small : limit + 1 < 2 ^ 64) where
  dequeue-Sound :
      (m : Machine) (c : ℕ) → Sound limit m → Sound limit (dequeue_ready_thread m (some c)).0
  dequeue-Sound m c (q, s) = go (q c) (s.queued c) (s.below c)
    where
      go :
          (xs : List ℕ)
          → Queued m c xs
          → All (λ t. t < limit) xs
          → Sound limit (dequeue_ready_thread m (some c)).0
      go [] k b = subst (λ r. Sound limit r.0) (sym (dequeue-empty k)) (q, s)
      go (n ∷ rest) k b =
          let r = dequeue-Queued k in
          (
            with_queue q c rest,
            with_queue-IsSound c rest s r.1 b.1 (λ d ne. r.4 d (q d) ne (s.queued d)),
          )

  switched-Sound :
      (r : Machine × Option ℕ) (local : ℕ) (current : Option ℕ)
      → Sound limit r.0
      → Sound limit (switched r local current).0
  switched-Sound (m, taken) local current k =
      let next = or_idle m local taken in
      let (q, s) = run-Sound next k in
      (
        q,
        record {
          queued = λ c. transition-Queued (run_next m next) current next c (q c) (s.queued c);
          below = s.below;
        },
      )
    where
      run-Sound : (next : Option ℕ) → Sound limit m → Sound limit (run_next m next)
      run-Sound none k = k
      run-Sound (some t) k = states-Sound small m t ThreadState.running ProcessState.running k

  -- The current thread goes back into the queue, or stays out of it.
  kept-Sound :
      (s : Dispatch) (local : ℕ) (keep_current : Bool) (current : Option ℕ)
      → ((t : ℕ) → current ≡ some t → t < limit)
      → Sound limit s.machine
      → Sound limit
          (if keeps_current s.machine local keep_current current
            then mark_thread_ready s local current (some local)
            else s).machine
  unfolding select_target_cpu
  kept-Sound s local keep_current none known k = k
  kept-Sound s local keep_current (some t) known k =
      elim (Bool-cases (keeps_current s.machine local keep_current (some t))) [
        | inr e ↦ rw e k
        | inl e ↦ rw e (
            mark_thread_ready-Sound small s local t (some local) (known t refl)
              (λ i. false≢true (sym (not_idle i) ∙ e)) k)
      ]
    where
      not_idle :
          (s.machine.cpu local).idle_thread ≡ some t
          → keeps_current s.machine local keep_current (some t) ≡ false
      not_idle i =
          ap (λ o. keep_current && not (pointer_eq o t) && is_running (s.machine.thread t).state) i
          ∙ ground arith

  pub schedule_next-Sound :
      (s : Dispatch) (local : ℕ) (keep_current : Bool)
      → ((t : ℕ) → (s.machine.cpu local).current_thread ≡ some t → t < limit)
      → Sound limit s.machine
      → Sound limit (schedule_next s local keep_current).0.machine
  unfolding schedule_next
  schedule_next-Sound s local keep_current known k =
      go
        (if keeps_current s.machine local keep_current (s.machine.cpu local).current_thread
          then mark_thread_ready s local (s.machine.cpu local).current_thread (some local)
          else s)
        (kept-Sound s local keep_current (s.machine.cpu local).current_thread known k)
    where
      go :
          (s1 : Dispatch)
          → Sound limit s1.machine
          → Sound limit
              (switched
                (dequeue_ready_thread (not_pending s1.machine local) (some local))
                local
                (s.machine.cpu local).current_thread).0
      go s1 (q, k1) =
          switched-Sound (dequeue_ready_thread (not_pending s1.machine local) (some local)) local
            (s.machine.cpu local).current_thread
            (dequeue-Sound (not_pending s1.machine local) local (
              q,
              record {
                queued = λ c. not_pending-Queued s1.machine local c (q c) (k1.queued c);
                below = k1.below;
              },
            ))
