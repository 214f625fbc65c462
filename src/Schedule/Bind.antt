-- ===== src/Schedule/Bind.antt =====
-- Taking a thread out of its run queue and binding it to a CPU, from run queues in order.
use os.Base.{
  ℕ, ◌<◌, ◌≤◌, ◌≡◌, ◌≢◌, refl, inl, inr, Option, none, some, List, ◌∷◌, ◌++◌, length, All, NotIn,
  All-append, All-append_left, All-append_right, arith, ap, ◌∙◌, sym, subst, Bool-cases,
  Option-cases, ◌==◌, Distinct-middle, some_inj, none-ne-some,
}
use os.Machine.{Machine, ThreadState, ProcessState, set_thread, set_cpu}
use os.RunQueue.{dequeue_thread_if_queued, run_queue_remove_locked}
use os.RunQueue.Inv.{Queued, not_owned-NotIn}
use os.RunQueue.Enqueue.{remove-Queued, remove-absent}
use os.Wake.Join.{process_state-cpus}
use os.Wake.Frame.{process_state-threads}
use os.Schedule.{set_current_thread, bound_to}
use os.Schedule.Sound.{
  position, Sound, IsSound, Sound-frame, Sound-outside, with_queue, with_queue-IsSound,
  length-IsSound,
}

module _ {limit : ℕ} where
  -- A thread that leaves its queue, if it is in one, is in none.
  pub leaves :
      (fuel : ℕ) (m : Machine) (t : ℕ)
      → limit ≤ fuel
      → Sound limit m
      → (q : ℕ → List ℕ) × IsSound limit (dequeue_thread_if_queued fuel m (some t)) q
        × ((c : ℕ) → NotIn t (q c))
  unfolding dequeue_thread_if_queued
  leaves fuel m t enough (q, s) = elim (Option-cases (m.thread t).run_queue_cpu) [
    | inl e ↦
        let unqueued : dequeue_thread_if_queued fuel m (some t) ≡ m =
          ap (λ (o : Option ℕ). from_owner o) e in
        (
          q,
          subst (λ x. IsSound limit x q) (sym unqueued) s,
          λ c. not_owned-NotIn t (s.queued c) (λ k. none-ne-some (sym e ∙ k)),
        )
    | inr (c, e) ↦
        let removed : dequeue_thread_if_queued fuel m (some t)
            ≡ run_queue_remove_locked fuel m (some c) (some t) =
          ap (λ (o : Option ℕ). from_owner o) e in
        let elsewhere : (d : ℕ) → d ≢ c → NotIn t (q d) =
          λ d ne. not_owned-NotIn t (s.queued d) (λ k. ne (some_inj (sym k ∙ e))) in
        elim (position t (q c)) [
          | inl n ↦ (
            q,
            subst (λ x. IsSound limit x q)
                (sym (
                  removed
                  ∙ remove-absent fuel t (s.queued c) n
                      (omega (arith, length-IsSound c s, enough))))
                s,
            λ d. elim (Bool-cases (d == c)) [
              | inl k ↦ subst (λ x. NotIn t (q x)) (ground (arith, k)) n
              | inr k ↦ elsewhere d (ground (arith, k))
            ],
          )
          | inr (ys, zs, w) ↦
              let at : Queued m c (ys ++ t ∷ zs) = subst (Queued m c) w (s.queued c) in
              let r =
                remove-Queued fuel ys t zs at
                  (omega (arith, length-IsSound c s, enough, ap length w)) in
              let below : All (λ x. x < limit) (ys ++ t ∷ zs) =
                subst (All (λ x. x < limit)) w (s.below c) in
              let apart = Distinct-middle ys t zs at.distinct in
              (
                with_queue q c (ys ++ zs),
                subst (λ x. IsSound limit x (with_queue q c (ys ++ zs))) (sym removed)
                    (with_queue-IsSound c (ys ++ zs) s r.0
                      (All-append (λ x. x < limit) ys zs
                        (All-append_left (λ x. x < limit) ys (t ∷ zs) below)
                        (All-append_right (λ x. x < limit) ys (t ∷ zs) below).1)
                      (λ d ne. r.1 d (q d) ne (s.queued d))),
                λ d. elim (Bool-cases (d == c)) [
                  | inl k ↦ rw k (All-append (λ x. x ≢ t) ys zs apart.0 apart.1)
                  | inr k ↦ rw k (elsewhere d (ground (arith, k)))
                ],
              )
        ]
  ]
    where
      from_owner : Option ℕ → Machine
      from_owner o = elim o [ none ↦ m | some c ↦ run_queue_remove_locked fuel m (some c) (some t) ]

  bound-IsSound :
      (m : Machine) (local t : ℕ) (q : ℕ → List ℕ)
      → IsSound limit m q
      → ((c : ℕ) → NotIn t (q c))
      → IsSound limit
          (bound_to
            (set_cpu m local (record (m.cpu local) { current_thread = some t }))
            local
            (some t))
          q
  bound-IsSound m local t q s free =
      let m1 = set_cpu m local (record (m.cpu local) { current_thread = some t }) in
      let m2 = set_thread m1 t (record (m1.thread t) {
        scheduler_cpu = some local;
        run_queue_cpu = none;
        state = ThreadState.running;
      }) in
      let threads = process_state-threads m2 t ProcessState.running in
      Sound-outside m (bound_to m1 local (some t)) t
        (λ c. ap (λ f. (f c).runq) (process_state-cpus m2 t ProcessState.running) ∙ ground arith)
        (λ x ne. (
          ap (λ f. (f x).next) threads ∙ ground (arith, ne),
          ap (λ f. (f x).run_queue_cpu) threads ∙ ground (arith, ne),
        ))
        q free s

  -- With fuel for the table of threads, and from run queues in order, binding a thread makes it
  -- the current thread of the CPU, running and at home there, and takes it out of whatever queue
  -- it stood in: the run queues are in order still, and none of them holds it.
  pub set_current_thread-IsSound :
      (fuel : ℕ) (m : Machine) (local t : ℕ)
      → limit ≤ fuel
      → Sound limit m
      → let m' = set_current_thread fuel m local (some t) in
        ((m'.cpu local).current_thread ≡ some t)
        × ((m'.thread t).state ≡ ThreadState.running)
        × ((m'.thread t).scheduler_cpu ≡ some local)
        × ((q : ℕ → List ℕ) × IsSound limit m' q × ((c : ℕ) → NotIn t (q c)))
  unfolding set_current_thread
  set_current_thread-IsSound fuel m local t enough k =
      let (q, s, free) = leaves fuel m t enough k in
      let m1 = dequeue_thread_if_queued fuel m (some t) in
      let m2 = set_cpu m1 local (record (m1.cpu local) { current_thread = some t }) in
      let m3 = set_thread m2 t (record (m2.thread t) {
        scheduler_cpu = some local;
        run_queue_cpu = none;
        state = ThreadState.running;
      }) in
      let threads = process_state-threads m3 t ProcessState.running in
      (
        ap (λ f. (f local).current_thread) (process_state-cpus m3 t ProcessState.running)
            ∙ ground arith,
        ap (λ f. (f t).state) threads ∙ ground arith,
        ap (λ f. (f t).scheduler_cpu) threads ∙ ground arith,
        (q, bound-IsSound m1 local t q s free, free),
      )

  pub set_current_thread-Sound :
      (fuel : ℕ) (m : Machine) (local : ℕ) (thread : Option ℕ)
      → limit ≤ fuel
      → Sound limit m
      → Sound limit (set_current_thread fuel m local thread)
  unfolding set_current_thread dequeue_thread_if_queued
  set_current_thread-Sound fuel m local none enough k =
      Sound-frame m (set_cpu m local (record (m.cpu local) { current_thread = none }))
        (λ c. ground arith) (λ x. (refl, refl)) k
  set_current_thread-Sound fuel m local (some t) enough k =
      let (_, _, _, (q, s, _)) = set_current_thread-IsSound fuel m local t enough k in (q, s)
