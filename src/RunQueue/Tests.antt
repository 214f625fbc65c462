-- ===== src/RunQueue/Tests.antt =====
-- The run-queue theorems at a machine of two CPUs.
use os.Base.{ℕ, refl, true, Option, none, some, List, [], ◌∷◌, ◌==◌, if◌then◌else◌, arith}
use os.Machine.{Machine, Thread, ThreadState, ProcessState, ThreadWaitReason, Cpu}
use os.RunQueue.Inv.{Queued}

abbrev thread_with : ℕ → Option ℕ → Option ℕ → Thread
thread_with tid next owner = record {
  next = next;
  tid = tid;
  process = none;
  state = ThreadState.ready;
  user_mode = true;
  exit_status = 0;
  wait = record { reason = ThreadWaitReason.no_wait; first = 0; second = 0 };
  wait_link = none;
  scheduler_cpu = owner;
  run_queue_cpu = owner;
  affinity_mask = 3;
  last_migration_tick = 0;
}

abbrev cpu_with : ℕ → Option ℕ → Option ℕ → ℕ → Cpu
cpu_with id head tail length = record {
  current_thread = none;
  idle_thread = none;
  runq = record { head = head; tail = tail; length = length };
  last_recorded_runq_depth = 0;
  timer_ticks = 0;
  reschedule_pending = 0;
  enqueue_count = 0;
  dequeue_count = 0;
  migrate_in = 0;
  migrate_out = 0;
  balance_idle_ticks = 0;
  id = id;
  booted = 1;
}

-- The threads 10, 11 and 12 wait on CPU 1; thread 13 is in no queue; CPU 2 is idle.
abbrev pub two_cpus : Machine
two_cpus = record {
  thread = λ t.
      if t == 10
      then thread_with 10 (some 11) (some 1)
      else if t == 11
      then thread_with 11 (some 12) (some 1)
      else if t == 12
      then thread_with 12 none (some 1)
      else thread_with t none none;
  cpu = λ c. if c == 1 then cpu_with 0 (some 10) (some 12) 3 else cpu_with 1 none none 0;
  process = λ p. record { pid = p; state = ProcessState.ready; exit_status = 0; parent = none };
  cpus = 1 ∷ 2 ∷ [];
  events = [];
}

abbrev pub waiting : ℕ → List ℕ
waiting c = if c == 1 then 10 ∷ 11 ∷ 12 ∷ [] else []

pub first-Queued : Queued two_cpus 1 (10 ∷ 11 ∷ 12 ∷ [])
first-Queued = record {
  linked = (refl, (refl, (refl, refl)));
  tail_last = refl;
  counted = refl;
  distinct = omega arith;
  owned = (refl, (refl, (refl, tt)));
}

pub second-Queued : Queued two_cpus 2 []
second-Queued = record {
  linked = refl;
  tail_last = refl;
  counted = refl;
  distinct = tt;
  owned = tt;
}
