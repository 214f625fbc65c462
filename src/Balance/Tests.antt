-- ===== src/Balance/Tests.antt =====
-- A balancing round on the machine of RunQueue/Tests.antt: CPU 2 takes a thread from CPU 1.
use os.Base.{
  ℕ, ◌+◌, ◌≤◌, ◌<◌, ◌^◌, ◌≡◌, refl, ◌⊎◌, true, false, [], ◌∷◌, ◌==◌, arith, length, Bool-cases, inl,
  inr, subst, sym, some,
}
use os.RunQueue.Inv.{Queued}
use os.RunQueue.Tests.{two_cpus, waiting, first-Queued}
use os.Balance.{scheduler_balance_cpu, balance_locked, thread_is_migratable, thread_allows_cpu}
use os.Balance.Migrate.{Queues, Stolen, balance_locked_moves}
use os.Balance.Round.{balance_lem, recorded, IsIdle}

pub two_cpus-Queues : Queues two_cpus waiting
two_cpus-Queues d = elim (Bool-cases (d == 1)) [
  | inl e ↦
      let k : d ≡ 1 = ground arith in
      subst (λ c. Queued two_cpus c (waiting c)) (sym k) first-Queued
  | inr e ↦
      let k : waiting d ≡ [] = rw e refl in
      subst (Queued two_cpus d) (sym k) (record {
        linked = rw e refl;
        tail_last = rw e refl;
        counted = rw e refl;
        distinct = tt;
        owned = tt;
      })
]

pub short : (c : ℕ) → length (waiting c) + 1 < 2 ^ 64
short c = ground arith

pub few : (c : ℕ) → length (waiting c) ≤ 3
few c = ground arith

balance_lem_example :
    let (m', moved_one) = scheduler_balance_cpu 3 two_cpus (λ n. n) (some 2) 100 true in
    ((moved_one ≡ false) × IsIdle 3 two_cpus (λ n. n) waiting waiting 2 100 true m')
    ⊎ ((moved_one ≡ true)
        × (donor : ℕ) × Stolen
            (recorded 3 two_cpus (λ n. n) waiting waiting 2 100 true)
            waiting
            2
            donor
            100
            m')
balance_lem_example =
    balance_lem 3 two_cpus (λ n. n) waiting waiting 2 100 true two_cpus-Queues (λ h. h) short few

balance_locked_moves_example : (balance_locked 3 two_cpus 2 1 2 true 100).1 ≡ true
unfolding thread_is_migratable thread_allows_cpu
balance_locked_moves_example =
    balance_locked_moves 3 2 1 100 2 (10 ∷ 11 ∷ []) 12 [] two_cpus-Queues (omega arith)
      (omega arith) (omega arith) refl refl
