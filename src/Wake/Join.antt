-- ===== src/Wake/Join.antt =====
-- The run queue that a thread made ready joins.
use os.Base.{
  ℕ, ◌+◌, ◌^◌, ◌<◌, ◌≡◌, refl, ◌≢◌, inl, inr, true, false, Option, none, some, List, [], ◌∷◌, ◌++◌,
  length, arith, ap, ◌∙◌, sym, subst, Bool-cases, Option-cases, All,
}
use os.Machine.{Machine, ThreadState, ProcessState, set_thread}
use os.RunQueue.{enqueue_thread_on_cpu}
use os.RunQueue.Inv.{Queued, Queued-frame}
use os.RunQueue.Enqueue.{enqueue-Queued}
use os.WaitQueue.{set_process_state, is_dying_or_free, is_dying_process}
use os.Wake.{Dispatch, made_ready, mark_thread_ready}
use os.Wake.Frame.{process_state-threads, made_ready_self}
use os.Wake.Ready.{target_cpu, mark-machine}

pub process_state-cpus :
    (m : Machine) (t : ℕ) (p : ProcessState) → (set_process_state m t p).cpu ≡ m.cpu
unfolding set_process_state
process_state-cpus m t p = elim (Option-cases (m.thread t).process) [
  | inl e ↦ rw (e, set_process_state) refl
  | inr (q, e) ↦ elim (Bool-cases (is_dying_process (m.process q).state)) [
    | inl d ↦ rw (e, d, set_process_state) refl
    | inr d ↦ rw (e, d, set_process_state) refl
  ]
]

-- The queues do not see the states of a thread and of its process.
module _ (m : Machine) (t : ℕ) (state : ThreadState) (process : ProcessState) where
  abbrev pub with_state : Machine
  with_state = set_thread m t (record (m.thread t) { state = state })

  abbrev pub with_states : Machine
  with_states = set_process_state with_state t process

  next_kept : (x : ℕ) → (with_states.thread x).next ≡ (m.thread x).next
  next_kept x = ap (λ f. (f x).next) (process_state-threads with_state t process) ∙ ground arith

  pub owner_kept : (x : ℕ) → (with_states.thread x).run_queue_cpu ≡ (m.thread x).run_queue_cpu
  owner_kept x =
      ap (λ f. (f x).run_queue_cpu) (process_state-threads with_state t process) ∙ ground arith

  all_kept :
      (xs : List ℕ)
      → All
          (λ x.
            ((with_states.thread x).next ≡ (m.thread x).next)
            × ((with_states.thread x).run_queue_cpu ≡ (m.thread x).run_queue_cpu))
          xs
  all_kept [] = tt
  all_kept (x ∷ xs) = ((next_kept x, owner_kept x), all_kept xs)

  pub states-Queued : (c : ℕ) (xs : List ℕ) → Queued m c xs → Queued with_states c xs
  states-Queued c xs q =
      Queued-frame q (ap (λ f. (f c).runq) (process_state-cpus with_state t process)) (all_kept xs)

-- The machine that `mark_thread_ready` enqueues the thread in.
abbrev prepared : Machine → ℕ → Machine
prepared m t = with_states m t ThreadState.ready ProcessState.ready

-- On CPU `c`, which is the target or the one chosen, a thread that is neither dying nor free, is in no run
-- queue and is not the idle thread of `c` becomes ready with `mark_thread_ready` and joins the end of
-- the queue of `c`, if the queue's length does not wrap; every other CPU's queue is as it was.
pub mark_thread_ready-Queued :
    {xs : List ℕ} (s : Dispatch) (local t c : ℕ) (target : Option ℕ)
    → target_cpu s local t target ≡ c
    → Queued s.machine c xs
    → is_dying_or_free (s.machine.thread t).state ≡ false
    → (s.machine.thread t).run_queue_cpu ≡ none
    → (s.machine.cpu c).idle_thread ≢ some t
    → length xs + 1 < 2 ^ 64
    → let m' = (mark_thread_ready s local (some t) target).machine in
      Queued m' c (xs ++ t ∷ [])
      × ((m'.thread t).state ≡ ThreadState.ready)
      × ((m'.thread t).scheduler_cpu ≡ some c)
      × ((d : ℕ) (ys : List ℕ) → d ≢ c → Queued s.machine d ys → Queued m' d ys)
mark_thread_ready-Queued {xs} s local t c target chosen q alive free idle fits =
    subst
      (λ m'.
        Queued m' c (xs ++ t ∷ [])
        × ((m'.thread t).state ≡ ThreadState.ready)
        × ((m'.thread t).scheduler_cpu ≡ some c)
        × ((d : ℕ) (ys : List ℕ) → d ≢ c → Queued s.machine d ys → Queued m' d ys))
      (sym (mark-machine s local t target alive ∙ ap (made_ready s.machine t) chosen))
      (
        joined.1,
        (made_ready_self s.machine t c).state,
        joined.2,
        λ d ys n r.
            joined.3 d ys n (states-Queued s.machine t ThreadState.ready ProcessState.ready d ys r),
      )
  where
    joined :
        let (m', queued) = enqueue_thread_on_cpu (prepared s.machine t) (some t) (some c) in
        (queued ≡ true)
        × Queued m' c (xs ++ t ∷ [])
        × ((m'.thread t).scheduler_cpu ≡ some c)
        × ((d : ℕ) (ys : List ℕ) → d ≢ c → Queued (prepared s.machine t) d ys → Queued m' d ys)
    joined =
        enqueue-Queued t (states-Queued s.machine t ThreadState.ready ProcessState.ready c xs q)
          (owner_kept s.machine t ThreadState.ready ProcessState.ready t ∙ free)
          (λ e. idle (
            sym (
              ap (λ f. (f c).idle_thread)
                (process_state-cpus (with_state s.machine t ThreadState.ready ProcessState.ready) t
                  ProcessState.ready))
            ∙ e))
          fits
