-- ===== src/Schedule/Change.antt =====
-- Making threads ready and waking them, from run queues in order.
use os.Base.{
  ℕ, ◌+◌, ◌^◌, ◌<◌, ◌≡◌, ◌≢◌, refl, inl, inr, Bool, true, false, Option, none, some, [], ◌∷◌, ◌++◌,
  All-append, arith, ap, ◌∙◌, sym, subst, Bool-cases, Option-cases, false≢true,
}
use os.Machine.{Machine, ThreadState, ProcessState, pointer_eq, set_thread}
use os.RunQueue.{enqueue_thread_on_cpu, run_queue_append_locked}
use os.RunQueue.Enqueue.{enqueue-Queued, assigned}
use os.WaitQueue.{clear_thread_wait, is_dying_or_free}
use os.Wake.{Dispatch, set_machine, made_ready, mark_thread_ready, wake_blocked_thread}
use os.Wake.Join.{process_state-cpus, states-Queued, with_states}
use os.Wake.Ready.{target_cpu, mark-machine}
use os.Schedule.Sound.{Sound, Sound-frame, with_queue, with_queue-IsSound, length-IsSound}

enqueue-assigned :
    (m : Machine) (t c d : ℕ)
    → (m.thread t).run_queue_cpu ≡ some d
    → (m.cpu c).idle_thread ≢ some t
    → (enqueue_thread_on_cpu m (some t) (some c)).0 ≡ assigned m c t
unfolding enqueue_thread_on_cpu
enqueue-assigned m t c d e idle = elim (Bool-cases (pointer_eq (m.cpu c).idle_thread t)) [
  | inl i ↦ absurd (idle (named (m.cpu c).idle_thread i))
  | inr i ↦ rw (i, enqueue_thread_on_cpu) (ap (λ (o : Option ℕ). at_owner o) e)
]
  where
    at_owner : Option ℕ → Machine
    at_owner o =
        let r : Machine × Bool = elim o [
          | none ↦ (run_queue_append_locked (assigned m c t) (some c) (some t), true)
          | some _ ↦ (assigned m c t, false)
        ] in
        r.0

    named : (o : Option ℕ) → pointer_eq o t ≡ true → o ≡ some t
    named none i = absurd (false≢true i)
    named (some x) i = ap some (ground (arith, i))

module _ {limit : ℕ} (small : limit + 1 < 2 ^ 64) where
  pub states-Sound :
      (m : Machine) (t : ℕ) (state : ThreadState) (process : ProcessState)
      → Sound limit m
      → Sound limit (with_states m t state process)
  states-Sound m t state process (q, s) = (
    q,
    record { queued = λ c. states-Queued m t state process c (q c) (s.queued c); below = s.below },
  )

  pub clear_thread_wait-Sound :
      (m : Machine) (t : ℕ) → Sound limit m → Sound limit (clear_thread_wait m (some t))
  unfolding clear_thread_wait
  clear_thread_wait-Sound m t =
      Sound-frame m (clear_thread_wait m (some t)) (λ c. refl) (λ x. (ground arith, ground arith))

  enqueue-Sound :
      (m : Machine) (t c : ℕ)
      → t < limit
      → (m.cpu c).idle_thread ≢ some t
      → Sound limit m
      → Sound limit (enqueue_thread_on_cpu m (some t) (some c)).0
  enqueue-Sound m t c low idle (q, s) = elim (Option-cases (m.thread t).run_queue_cpu) [
    | inr (d, e) ↦
        subst (Sound limit) (sym (enqueue-assigned m t c d e idle))
          (Sound-frame m (assigned m c t) (λ x. refl) (λ x. (ground arith, ground arith)) (q, s))
    | inl e ↦
        let r = enqueue-Queued t (s.queued c) e idle (omega (arith, small, length-IsSound c s)) in
        (
          with_queue q c (q c ++ t ∷ []),
          with_queue-IsSound c (q c ++ t ∷ []) s r.1
              (All-append (λ x. x < limit) (q c) (t ∷ []) (s.below c) (low, tt))
              (λ d ne. r.3 d (q d) ne (s.queued d)),
        )
  ]

  pub made_ready-Sound :
      (m : Machine) (t c : ℕ)
      → t < limit
      → (m.cpu c).idle_thread ≢ some t
      → Sound limit m
      → Sound limit (made_ready m t c)
  made_ready-Sound m t c low idle s =
      enqueue-Sound (with_states m t ThreadState.ready ProcessState.ready) t c low
        (λ e. idle (
          sym (
            ap (λ f. (f c).idle_thread)
              (process_state-cpus
                (set_thread m t (record (m.thread t) { state = ThreadState.ready })) t
                ProcessState.ready))
          ∙ e))
        (states-Sound m t ThreadState.ready ProcessState.ready s)

  -- Whatever the state of the thread.
  pub mark_thread_ready-Sound :
      (s : Dispatch) (local t : ℕ) (target : Option ℕ)
      → t < limit
      → (s.machine.cpu (target_cpu s local t target)).idle_thread ≢ some t
      → Sound limit s.machine
      → Sound limit (mark_thread_ready s local (some t) target).machine
  mark_thread_ready-Sound s local t target low idle k =
      elim (Bool-cases (is_dying_or_free (s.machine.thread t).state)) [
        | inl e ↦ unfold mark_thread_ready in rw e k
        | inr e ↦
            subst (Sound limit) (sym (mark-machine s local t target e))
              (made_ready-Sound s.machine t (target_cpu s local t target) low idle k)
      ]

  pub wake_blocked_thread-Sound :
      (s : Dispatch) (local t : ℕ) (target : Option ℕ)
      → t < limit
      → ((c : ℕ) → (s.machine.cpu c).idle_thread ≢ some t)
      → Sound limit s.machine
      → Sound limit (wake_blocked_thread s local (some t) target).machine
  unfolding wake_blocked_thread clear_thread_wait
  wake_blocked_thread-Sound s local t target low idle k =
      let m1 = clear_thread_wait s.machine (some t) in
      let s1 = set_machine s m1 in
      let k1 : Sound limit m1 = clear_thread_wait-Sound s.machine t k in
      elim (Bool-cases (pointer_eq (s.machine.cpu local).current_thread t)) [
        | inl e ↦ rw e (states-Sound m1 t ThreadState.running ProcessState.running k1)
        | inr e ↦
            rw e (
              mark_thread_ready-Sound s1 local t target low (idle (target_cpu s1 local t target))
                k1)
      ]
