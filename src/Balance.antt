-- ===== src/Balance.antt =====
-- Work stealing between run queues: `scheduler_balance_cpu` of src/kernel/sched/scheduler.cpp.
-- `g_smp_balancer_enabled` is true, since nothing assigns it. Between the pass that reads the queue
-- lengths and the moment both queue locks are held the other CPUs go on: `meanwhile` is what they do
-- to the machine.
pub mod Pick
pub mod Detach
pub mod Migrate
pub mod Round
pub mod Tests
use os.Base.{
  ℕ, ◌+◌, ◌-◌, ◌/◌, ◌%◌, ◌^◌, Bool, true, false, Option, none, some, List, [], ◌∷◌, ◌&&◌, ◌||◌, not,
  walk, if◌then◌else◌, ltb, leb, ◌==◌,
}
use os.Machine.{
  Machine, ThreadState, runq_depth, thread_migrate, set_thread, set_cpu, links, increment,
  record_event,
}
use os.RunQueue.{unlink, append_ready_thread_locked}

abbrev pub migration_cooldown_ticks : ℕ
migration_cooldown_ticks = 64

-- `g_cpu_boot`
abbrev pub boot_cpu : List ℕ → Option ℕ
boot_cpu [] = none
boot_cpu (c ∷ cs) = some c

abbrev pub is_boot : List ℕ → ℕ → Bool
is_boot [] c = false
is_boot (b ∷ bs) c = c == b

unfoldable pub cpu_is_schedulable : Machine → ℕ → Bool
cpu_is_schedulable m owner = is_boot m.cpus owner || not ((m.cpu owner).booted == 0)

unfoldable pub count_schedulable : Machine → List ℕ → ℕ
count_schedulable m [] = 0
count_schedulable m (owner ∷ rest) =
    (if cpu_is_schedulable m owner then 1 else 0) + count_schedulable m rest

-- `schedulable_cpu_count()`
unfoldable pub schedulable_cpu_count : Machine → ℕ
schedulable_cpu_count m = count_schedulable m m.cpus

-- `thread->affinity_mask & (1ull << owner->id)`
unfoldable pub thread_allows_cpu : Machine → ℕ → ℕ → Bool
thread_allows_cpu m thread owner =
    if leb 64 (m.cpu owner).id
    then true
    else not ((m.thread thread).affinity_mask / 2 ^ (m.cpu owner).id % 2 == 0)

abbrev pub is_ready : ThreadState → Bool
is_ready s = elim s [ ThreadState.ready ↦ true | _ ↦ false ]

-- `now - thread->last_migration_tick` in 64 bits
unfoldable pub thread_is_migratable : Machine → ℕ → ℕ → ℕ → Bool
thread_is_migratable m now owner thread =
    if not (is_ready (m.thread thread).state) || not (thread_allows_cpu m thread owner)
    then false
    else if (m.thread thread).last_migration_tick == 0
    then true
    else leb migration_cooldown_ticks
        ((now + 2 ^ 64 - (m.thread thread).last_migration_tick) % 2 ^ 64)

-- The loop of `detach_last_migratable_thread_locked`: the last thread that `test` accepts, with the
-- node before it.
unfoldable pub last_candidate :
    (ℕ → Bool) → Option ℕ → Option (Option ℕ × ℕ) → List ℕ → Option (Option ℕ × ℕ)
last_candidate test previous best [] = best
last_candidate test previous best (thread ∷ rest) =
    last_candidate test (some thread) (if test thread then some (previous, thread) else best) rest

abbrev pub detach_at : Machine → ℕ → Option (Option ℕ × ℕ) → Machine × Option ℕ
detach_at m donor none = (m, none)
detach_at m donor (some (previous, thread)) = (unlink m donor previous thread, some thread)

module _ (fuel : ℕ) where
  unfoldable pub detach_last_migratable_thread_locked : Machine → ℕ → ℕ → ℕ → Machine × Option ℕ
  detach_last_migratable_thread_locked m donor receiver now = detach_at m donor (
      last_candidate (thread_is_migratable m now receiver) none none
        (walk (links m) fuel (m.cpu donor).runq.head))

pub record Depths : Type 0 where
  pub total_depth : ℕ
  pub local_depth : ℕ
  pub donor_depth : ℕ
  pub donor : Option ℕ

-- One round of the pass over the CPUs that looks for the longest queue but the target's own.
unfoldable pub measure_step : Machine → ℕ → Depths → ℕ → Depths
measure_step m target d owner =
    let depth = (m.cpu owner).runq.length in
    let total = (d.total_depth + depth) % 2 ^ 64 in
    if not (cpu_is_schedulable m owner)
    then d
    else if owner == target
    then record d { total_depth = total; local_depth = depth }
    else if ltb d.donor_depth depth
    then record d { total_depth = total; donor = some owner; donor_depth = depth }
    else record d { total_depth = total }

unfoldable pub measure_depths : Machine → ℕ → Depths → List ℕ → Depths
measure_depths m target d [] = d
measure_depths m target d (owner ∷ rest) =
    measure_depths m target (measure_step m target d owner) rest

-- `record_run_queue_depth(cpu* owner, size_t depth)`
unfoldable pub record_run_queue_depth : Machine → ℕ → ℕ → Machine
record_run_queue_depth m owner depth =
    if (m.cpu owner).last_recorded_runq_depth == depth
    then m
    else record_event (set_cpu m owner (record (m.cpu owner) { last_recorded_runq_depth = depth }))
        (record { type = runq_depth; arg0 = (m.cpu owner).id; arg1 = depth; arg2 = 0; arg3 = 0 })

-- The queues differ by less than two threads, or the target has its share.
unfoldable pub stays_put : ℕ → ℕ → ℕ → Bool → Bool
stays_put local_depth donor_depth target_depth force =
    (donor_depth == 0)
    || leb donor_depth (increment local_depth)
    || (not force && leb target_depth (increment local_depth))

-- What follows the detached thread's arrival in the target's queue.
unfoldable pub migrated : Machine → ℕ → ℕ → ℕ → ℕ → Machine
migrated m target donor thread now =
    let m1 = append_ready_thread_locked m (some target) (some thread) in
    let m2 =
      set_thread m1 thread
        (record (m1.thread thread) { scheduler_cpu = some target; last_migration_tick = now }) in
    let m3 =
      set_cpu m2 target
        (record (m2.cpu target) { migrate_in = increment (m2.cpu target).migrate_in }) in
    let m4 =
      set_cpu m3 donor
        (record (m3.cpu donor) { migrate_out = increment (m3.cpu donor).migrate_out }) in
    record_event m4 (record {
      type = thread_migrate;
      arg0 = (m4.cpu donor).id;
      arg1 = (m4.cpu target).id;
      arg2 = (m4.thread thread).tid;
      arg3 = 0;
    })

abbrev pub migrate_detached : Machine × Option ℕ → ℕ → ℕ → ℕ → Machine × Bool
migrate_detached (m, none) target donor now = (m, false)
migrate_detached (m, some thread) target donor now = (migrated m target donor thread now, true)

module _ (fuel : ℕ) where
  -- Both queue locks are held.
  unfoldable pub balance_locked : Machine → ℕ → ℕ → ℕ → Bool → ℕ → Machine × Bool
  balance_locked m target donor target_depth force now =
      if stays_put (m.cpu target).runq.length (m.cpu donor).runq.length target_depth force
      then (m, false)
      else migrate_detached (detach_last_migratable_thread_locked fuel m donor target now) target
          donor now

  abbrev pub balance_with :
      Machine → (Machine → Machine) → ℕ → ℕ → Bool → Depths → Option ℕ → Machine × Bool
  balance_with m meanwhile target now force d none = (m, false)
  balance_with m meanwhile target now force d (some donor) =
      let cpu_count = schedulable_cpu_count m in
      let target_depth = (d.total_depth + cpu_count - 1) / cpu_count in
      if stays_put d.local_depth d.donor_depth target_depth force
      then (m, false)
      else balance_locked (meanwhile m) target donor target_depth force now

  -- `scheduler_balance_cpu(cpu* target_cpu, uint64_t now, bool force)`
  unfoldable pub scheduler_balance_cpu :
      Machine → (Machine → Machine) → Option ℕ → ℕ → Bool → Machine × Bool
  scheduler_balance_cpu m meanwhile none now force = (m, false)
  scheduler_balance_cpu m meanwhile (some target) now force =
      if not (cpu_is_schedulable m target)
      then (m, false)
      else if ltb (schedulable_cpu_count m) 2
      then (m, false)
      else let d =
          measure_depths m target
            (record { total_depth = 0; local_depth = 0; donor_depth = 0; donor = none }) m.cpus in
        balance_with (record_run_queue_depth m target d.local_depth) meanwhile target now force d
          d.donor
