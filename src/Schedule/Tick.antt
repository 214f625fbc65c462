-- ===== src/Schedule/Tick.antt =====
-- The timer tick, from run queues in order.
use os.Base.{
  ℕ, ◌+◌, ◌^◌, ◌<◌, ◌≤◌, refl, inl, inr, Bool, none, some, List, [], ◌∷◌, ◌++◌, All, All-append,
  All-append_left, All-append_right, arith, sym, subst, Bool-cases, ◌||◌, ◌==◌,
}
use os.Machine.{Machine}
use os.RunQueue.Inv.{Queued}
use os.Balance.{scheduler_balance_cpu, record_run_queue_depth, measure_depths}
use os.Balance.Migrate.{Stolen}
use os.Balance.Round.{balance_lem, recorded, record_depth-Queues}
use os.Schedule.{
  scheduler_handle_timer_tick, idle_tick_counted, idle_without_work, idle_check, periodic_check,
}
use os.Schedule.Sound.{Sound, IsSound, Sound-frame, with_queue, length-IsSound}

-- The machine in which `scheduler_balance_cpu`, called by the tick, lets go of the first lock.
abbrev pub depth_known : Machine → ℕ → Machine
depth_known m local =
    let m1 = idle_tick_counted m local in
    record_run_queue_depth m1 local
      (measure_depths m1 local
        (record { total_depth = 0; local_depth = 0; donor_depth = 0; donor = none })
        m1.cpus).local_depth

-- After a thread is stolen, the queues of both CPUs are in order, and so are the others.
Stolen-Sound :
    {limit : ℕ} {m m' : Machine} {q : ℕ → List ℕ} (target donor now : ℕ)
    → IsSound limit m q
    → Stolen m q target donor now m'
    → Sound limit m'
Stolen-Sound {limit} {m} {m'} {q} target donor now s r = (
  with_queue (with_queue q donor left) target joined,
  record {
    queued = λ d. elim (Bool-cases (d == target)) [
      | inl e ↦ rw e (subst (λ x. Queued m' x joined) (ground (arith, e)) r.target_is)
      | inr e ↦ elim (Bool-cases (d == donor)) [
        | inl k ↦ rw (e, k) (subst (λ x. Queued m' x left) (ground (arith, k)) r.donor_is)
        | inr k ↦ rw (e, k) (r.others d (ground (arith, k)) (ground (arith, e)))
      ]
    ];
    below = λ d. elim (Bool-cases (d == target)) [
      | inl e ↦ rw e (
          All-append low (q target) (r.thread ∷ []) (s.below target)
            ((All-append_right low r.ahead (r.thread ∷ r.behind) was).0, tt))
      | inr e ↦ elim (Bool-cases (d == donor)) [
        | inl k ↦
            rw (e, k)
              (All-append low r.ahead r.behind
                (All-append_left low r.ahead (r.thread ∷ r.behind) was)
                (All-append_right low r.ahead (r.thread ∷ r.behind) was).1)
        | inr k ↦ rw (e, k) (s.below d)
      ]
    ];
  },
)
  where
    low : ℕ → Type 0
    low x = x < limit

    left : List ℕ
    left = r.ahead ++ r.behind

    joined : List ℕ
    joined = q target ++ r.thread ∷ []

    was : All low (r.ahead ++ r.thread ∷ r.behind)
    was = subst (All low) r.donor_was (s.below donor)

counted-Sound :
    {limit : ℕ} (m : Machine) (local : ℕ) → Sound limit m → Sound limit (idle_tick_counted m local)
counted-Sound m local =
    Sound-frame m (idle_tick_counted m local) (λ c. ground arith) (λ x. (refl, refl))

pub depth_known-Sound :
    {limit : ℕ} (m : Machine) (local : ℕ) → Sound limit m → Sound limit (depth_known m local)
depth_known-Sound m local k =
    let (q, s) = counted-Sound m local k in
    (q, record { queued = record_depth-Queues local _ s.queued; below = s.below })

module _ {limit : ℕ} (small : limit + 1 < 2 ^ 64) (fuel : ℕ) (enough : limit ≤ fuel) where
  balance-Sound :
      (m : Machine) (meanwhile : Machine → Machine) (target now : ℕ) (force : Bool)
      → ((n : Machine) → Sound limit n → Sound limit (meanwhile n))
      → Sound limit m
      → Sound limit (scheduler_balance_cpu fuel m meanwhile (some target) now force).0
  balance-Sound m meanwhile target now force keeps (q, s) =
      elim (balance_lem fuel m meanwhile q q' target now force s.queued (λ _. s'.queued)
        (λ c. omega (arith, small, length-IsSound c s'))
        (λ c. omega (arith, enough, length-IsSound c s'))) [
          | inl (_, same) ↦ elim same [
            | inl e ↦ subst (Sound limit) (sym e) (q, s)
            | inr e ↦ elim e [
              | inl e ↦ subst (Sound limit) (sym e) (q, s1)
              | inr e ↦ subst (Sound limit) (sym e) (q', s')
            ]
          ]
          | inr (_, donor, r) ↦ Stolen-Sound target donor now s' r
        ]
    where
      depth_known : Machine
      depth_known = recorded fuel m meanwhile q q target now force

      s1 : IsSound limit depth_known q
      s1 = record { queued = record_depth-Queues target _ s.queued; below = s.below }

      q' : ℕ → List ℕ
      q' = (keeps depth_known (q, s1)).0

      s' : IsSound limit (meanwhile depth_known) q'
      s' = (keeps depth_known (q, s1)).1

  pub timer_tick-Sound :
      (m : Machine) (meanwhile : Machine → Machine) (local : ℕ)
      → ((n : Machine) → Sound limit n → Sound limit (meanwhile n))
      → Sound limit m
      → Sound limit (scheduler_handle_timer_tick fuel m meanwhile local)
  unfolding scheduler_handle_timer_tick
  timer_tick-Sound m meanwhile local keeps k =
      let m1 = idle_tick_counted m local in
      let force = idle_check m1 local (idle_without_work m local) in
      let k1 : Sound limit m1 = counted-Sound m local k in
      elim (Bool-cases (periodic_check m1 local || force)) [
        | inl e ↦ rw e (balance-Sound m1 meanwhile local (m1.cpu local).timer_ticks force keeps k1)
        | inr e ↦ rw e k1
      ]
