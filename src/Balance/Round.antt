-- ===== src/Balance/Round.antt =====
-- One call of `scheduler_balance_cpu`, with what the other CPUs do in the middle of it.
use os.Base.{
  ℕ, ◌+◌, ◌-◌, ◌/◌, ◌≤◌, ◌<◌, ◌^◌, ◌≡◌, refl, ◌≢◌, ◌⊎◌, inl, inr, Bool, true, false, Option, none,
  some, List, [], ◌∷◌, All, length, arith, ap, Bool-cases, ltb, none-ne-some,
}
use os.Machine.{Machine}
use os.RunQueue.Inv.{Queued-frame}
use os.Balance.{
  balance_with, scheduler_balance_cpu, record_run_queue_depth, measure_depths,
  schedulable_cpu_count, cpu_is_schedulable, Depths, stays_put,
}
use os.Balance.Pick.{measure_depths-ne}
use os.Balance.Migrate.{Queues, Stolen, balance_locked_lem}

pub record_depth-Queues :
    {m : Machine} {q : ℕ → List ℕ} (owner depth : ℕ)
    → Queues m q
    → Queues (record_run_queue_depth m owner depth) q
unfolding record_run_queue_depth
record_depth-Queues {m} {q} owner depth qs d = Queued-frame (qs d) (ground arith) (same (q d))
  where
    same :
        (zs : List ℕ)
        → All
            (λ x.
              (((record_run_queue_depth m owner depth).thread x).next ≡ (m.thread x).next)
              × (((record_run_queue_depth m owner depth).thread x).run_queue_cpu
                  ≡ (m.thread x).run_queue_cpu))
            zs
    same [] = tt
    same (z ∷ zs) = ((ground arith, ground arith), same zs)

module _ (fuel : ℕ) (m : Machine) (meanwhile : Machine → Machine) (q q' : ℕ → List ℕ)
    (target now : ℕ) (force : Bool) where
  -- The machine once the target's queue length is on record.
  abbrev pub recorded : Machine
  recorded =
      record_run_queue_depth m target
        (measure_depths m target
          (record { total_depth = 0; local_depth = 0; donor_depth = 0; donor = none })
          m.cpus).local_depth

  -- Nothing moved: the call stopped before, after the record was made, or with the locks held.
  abbrev pub IsIdle : Machine → Type 0
  IsIdle m' = (m' ≡ m) ⊎ (m' ≡ recorded) ⊎ (m' ≡ meanwhile recorded)

  abbrev Outcome : Machine × Bool → Type 0
  Outcome r =
      ((r.1 ≡ false) × IsIdle r.0)
      ⊎ ((r.1 ≡ true) × (donor : ℕ) × Stolen (meanwhile recorded) q' target donor now r.0)

  balance_with-Outcome :
      (d : Depths)
      → (o : Option ℕ) → o ≢ some target
      → Queues (meanwhile recorded) q'
      → ((c : ℕ) → length (q' c) + 1 < 2 ^ 64)
      → ((c : ℕ) → length (q' c) ≤ fuel)
      → Outcome (balance_with fuel recorded meanwhile target now force d o)
  balance_with-Outcome d none ne qs fits enough = inl (refl, inr (inl refl))
  balance_with-Outcome d (some donor) ne qs fits enough =
      let count = schedulable_cpu_count recorded in
      elim (Bool-cases
        (stays_put d.local_depth d.donor_depth ((d.total_depth + count - 1) / count) force)) [
          | inl e ↦ rw e (inl (refl, inr (inl refl)))
          | inr e ↦
              rw e
                (elim (balance_locked_lem fuel target donor now
                  ((d.total_depth + count - 1) / count) force qs fits (enough donor)
                  (λ k. ne (ap some k))) [
                    | inl (f, k) ↦ inl (f, inr (inr k))
                    | inr (f, s) ↦ inr (f, donor, s)
                  ])
        ]

  -- From well-formed queues, and whatever the other CPUs do in between, as long as they leave
  -- well-formed queues `q'` whose lengths the fuel covers and do not wrap,
  -- `scheduler_balance_cpu` returns false and moved nothing, or it returns true and moved
  -- exactly one thread: the last one in the queue of another CPU, longer by two or more, that
  -- may run on the target; it is now at the end of the target's queue, is recorded as the
  -- target's with the time of its move, and every other queue is the same.
  pub balance_lem :
      Queues m q
      → (Queues recorded q → Queues (meanwhile recorded) q')
      → ((c : ℕ) → length (q' c) + 1 < 2 ^ 64)
      → ((c : ℕ) → length (q' c) ≤ fuel)
      → let (m', moved_one) = scheduler_balance_cpu fuel m meanwhile (some target) now force in
        ((moved_one ≡ false) × IsIdle m')
        ⊎ ((moved_one ≡ true) × (donor : ℕ) × Stolen (meanwhile recorded) q' target donor now m')
  unfolding scheduler_balance_cpu
  balance_lem qs keeps fits enough = elim (Bool-cases (cpu_is_schedulable m target)) [
    | inr e ↦ rw e (inl (refl, inl refl))
    | inl e ↦ elim (Bool-cases (ltb (schedulable_cpu_count m) 2)) [
      | inl k ↦ rw (e, k) (inl (refl, inl refl))
      | inr k ↦
          let start : Depths = record {
            total_depth = 0;
            local_depth = 0;
            donor_depth = 0;
            donor = none;
          } in
          let d = measure_depths m target start m.cpus in
          rw (e, k)
            (balance_with-Outcome d d.donor
              (measure_depths-ne m target start m.cpus (λ x. none-ne-some x))
              (keeps (record_depth-Queues target d.local_depth qs)) fits enough)
    ]
  ]
