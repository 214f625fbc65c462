-- ===== src/Schedule/Handoff.antt =====
-- A thread that is preempted on one CPU and stolen by another before the switch is over.
use os.Base.{
  ℕ, ◌+◌, ◌^◌, ◌<◌, ◌≤◌, ◌≡◌, ◌≢◌, inl, inr, Bool, true, false, none, some, List, [], ◌∷◌, ◌++◌,
  length, All, All-last, last_node, last_node-append_one, last_node-append_cons, length-append,
  arith, ap, ◌∙◌, sym, subst, Bool-cases, ◌==◌, false≢true, some_inj,
}
use os.Machine.{Machine, ThreadState}
use os.RunQueue.Inv.{Queued}
use os.Wake.{Dispatch}
use os.Balance.{balance_locked, thread_is_migratable}
use os.Balance.Migrate.{Queues, balance_locked_lem, balance_locked_moves}
use os.Schedule.{schedule_next}
use os.Schedule.Round.{schedule_next-Queued, ScheduleResult}
use os.Schedule.Sound.{with_queue}
use os.Schedule.Current.{balance_locked-SameCurrent, schedule_next-SameCurrent}

-- The last element of a list, if it passes a test that all elements behind `u` fail, is `u`.
last-passing :
    (test : ℕ → Bool) (xs : List ℕ) (t : ℕ) (ys : List ℕ) (u : ℕ) (zs : List ℕ)
    → xs ++ t ∷ [] ≡ ys ++ u ∷ zs
    → test t ≡ true
    → All (λ x. test x ≡ false) zs
    → u ≡ t
last-passing test xs t ys u [] e passes fail =
    some_inj (sym (last_node-append_one ys u) ∙ sym (ap last_node e) ∙ last_node-append_one xs t)
last-passing test xs t ys u (z ∷ zs) e passes fail =
    absurd (false≢true (sym (All-last (λ x. test x ≡ false) (z ∷ zs) t fail last) ∙ passes))
  where
    last : last_node (z ∷ zs) ≡ some t
    last = ground (
      arith,
      sym (last_node-append_cons ys u (z ∷ zs)) ∙ sym (ap last_node e) ∙ last_node-append_one xs t,
    )

-- The run queues behind a switch from `t` to `n`, the first thread of the queue.
preempted-Queues :
    (s : Dispatch) (q : ℕ → List ℕ) (local t n : ℕ) (xs : List ℕ)
    → Queues s.machine q
    → ScheduleResult s local n (xs ++ t ∷ []) (schedule_next s local true)
    → Queues (schedule_next s local true).0.machine (with_queue q local (xs ++ t ∷ []))
preempted-Queues s q local t n xs qs r d = elim (Bool-cases (d == local)) [
  | inl e ↦ rw e (
      subst (λ c. Queued (schedule_next s local true).0.machine c (xs ++ t ∷ []))
        (ground (arith, e)) r.1)
  | inr e ↦ rw e (r.3 d (q d) (ground (arith, e)) (qs d))
]

-- The one thread that a forced round takes from a queue that ends in a thread it may take.
takes_last :
    {m : Machine} {q : ℕ → List ℕ} (fuel target donor now target_depth : ℕ) (xs : List ℕ) (t : ℕ)
    → Queues m q
    → ((c : ℕ) → length (q c) + 1 < 2 ^ 64)
    → length (q donor) ≤ fuel
    → donor ≢ target
    → length (q target) + 1 < length (q donor)
    → q donor ≡ xs ++ t ∷ []
    → thread_is_migratable m now target t ≡ true
    → Queued
        (balance_locked fuel m target donor target_depth true now).0
        target
        (q target ++ t ∷ [])
takes_last {m} {q} fuel target donor now target_depth xs t qs fits enough ne longer was may =
    elim (balance_locked_lem fuel target donor now target_depth true qs fits enough ne) [
      | inl (f, _) ↦ absurd (false≢true (sym f ∙ moves))
      | inr (_, r) ↦
          let same : r.thread ≡ t =
            last-passing (thread_is_migratable m now target) xs t r.ahead r.thread r.behind
              (sym was ∙ r.donor_was) may r.last in
          subst
            (λ u.
              Queued (balance_locked fuel m target donor target_depth true now).0 target
                (q target ++ u ∷ []))
            same r.target_is
    ]
  where
    moves : (balance_locked fuel m target donor target_depth true now).1 ≡ true
    moves =
        balance_locked_moves fuel target donor now target_depth xs t [] qs (fits donor) enough
          longer was may

-- From run queues in order whose lengths do not wrap and which the fuel covers: where a CPU
-- preempts its running thread, which is in no queue and is not its idle thread, in favour of
-- the first thread of its queue, and where, before that switch is over, a CPU whose queue is
-- shorter by two balances by force and may take the preempted thread, that thread ends up last in
-- the other CPU's queue while it is still the current thread of the first.
pub preempted_lem :
    (s : Dispatch) (q : ℕ → List ℕ) (fuel local target t n : ℕ) (xs : List ℕ) (target_depth now : ℕ)
    → Queues s.machine q
    → ((c : ℕ) → length (q c) + 1 < 2 ^ 64)
    → length (q local) ≤ fuel
    → q local ≡ n ∷ xs
    → (s.machine.cpu local).current_thread ≡ some t
    → (s.machine.thread t).state ≡ ThreadState.running
    → (s.machine.thread t).run_queue_cpu ≡ none
    → (s.machine.cpu local).idle_thread ≢ some t
    → local ≢ target
    → length (q target) + 1 < length (q local)
    → thread_is_migratable (schedule_next s local true).0.machine now target t ≡ true
    → let m1 = (schedule_next s local true).0.machine in
      let m2 = (balance_locked fuel m1 target local target_depth true now).0 in
      Queued m2 target (q target ++ t ∷ []) × ((m2.cpu local).current_thread ≡ some t)
preempted_lem s q fuel local target t n xs target_depth now qs fits enough order current state free
      idle ne longer may =
    (
      subst (λ l. Queued m2 target (l ++ t ∷ [])) at_target
          (takes_last fuel target local now target_depth xs t
            (preempted-Queues s q local t n xs qs r) fits1
            (omega (arith, ap length at_local, same_length, enough)) ne
            (omega (arith, ap length at_local, ap length at_target, same_length, longer)) at_local
            may),
      balance_locked-SameCurrent fuel m1 target local target_depth now true local
          ∙ schedule_next-SameCurrent s local true local
          ∙ current,
    )
  where
    m1 : Machine
    m1 = (schedule_next s local true).0.machine

    m2 : Machine
    m2 = (balance_locked fuel m1 target local target_depth true now).0

    q1 : ℕ → List ℕ
    q1 = with_queue q local (xs ++ t ∷ [])

    at_local : q1 local ≡ xs ++ t ∷ []
    at_local = ground arith

    at_target : q1 target ≡ q target
    at_target = ground (arith, ne)

    same_length : length (xs ++ t ∷ []) ≡ length (q local)
    same_length = omega (arith, length-append xs (t ∷ []), ap length order)

    r : ScheduleResult s local n (xs ++ t ∷ []) (schedule_next s local true)
    r =
        schedule_next-Queued s local t n (q local) (xs ++ t ∷ []) (qs local) current state free idle
          (fits local) (ap (λ l. l ++ t ∷ []) order)

    fits1 : (c : ℕ) → length (q1 c) + 1 < 2 ^ 64
    fits1 c = elim (Bool-cases (c == local)) [
      | inl e ↦ rw e (omega (arith, same_length, fits local))
      | inr e ↦ rw e (fits c)
    ]
