-- ===== src/Machine.antt =====
-- The records of src/kernel/proc/thread.hpp, src/kernel/proc/process.hpp and
-- src/kernel/arch/x86_64/cpu/cpu.hpp that the scheduler reads and writes, in one store. A pointer to a
-- record is its address, `none` the null pointer.
use os.Base.{
  ℕ, ◌+◌, ◌-◌, ◌%◌, ◌^◌, Bool, false, Option, none, some, List, ◌∷◌, update, Links, if◌then◌else◌,
  ◌==◌,
}

pub data ThreadState : Type 0 where
  free ready running blocked dying : ThreadState

pub data ProcessState : Type 0 where
  free ready running dying zombie : ProcessState

pub data ThreadWaitReason : Type 0 where
  no_wait console_read child_exit block_io : ThreadWaitReason

-- The union of `ThreadWaitState` holds two words, or a completion pointer.
pub record ThreadWaitState : Type 0 where
  pub reason : ThreadWaitReason
  pub first : ℕ
  pub second : ℕ

pub record Thread : Type 0 where
  pub next : Option ℕ
  pub tid : ℕ
  pub process : Option ℕ
  pub state : ThreadState
  pub user_mode : Bool
  pub exit_status : ℕ
  pub wait : ThreadWaitState
  pub wait_link : Option ℕ
  pub scheduler_cpu : Option ℕ
  pub run_queue_cpu : Option ℕ
  pub affinity_mask : ℕ
  pub last_migration_tick : ℕ

pub record RunQueue : Type 0 where
  pub head : Option ℕ
  pub tail : Option ℕ
  pub length : ℕ

pub record Cpu : Type 0 where
  pub current_thread : Option ℕ
  pub idle_thread : Option ℕ
  pub runq : RunQueue
  pub last_recorded_runq_depth : ℕ
  pub timer_ticks : ℕ
  pub reschedule_pending : ℕ
  pub enqueue_count : ℕ
  pub dequeue_count : ℕ
  pub migrate_in : ℕ
  pub migrate_out : ℕ
  pub balance_idle_ticks : ℕ
  pub id : ℕ
  pub booted : ℕ

pub record Process : Type 0 where
  pub pid : ℕ
  pub state : ProcessState
  pub exit_status : ℕ
  pub parent : Option ℕ

-- The kinds of event that the scheduler records; `KernelEventRing` keeps them.
pub data KernelEventType : Type 0 where
  runq_depth thread_migrate sched_transition : KernelEventType

pub record KernelEvent : Type 0 where
  pub type : KernelEventType
  pub arg0 : ℕ
  pub arg1 : ℕ
  pub arg2 : ℕ
  pub arg3 : ℕ

-- `cpus` is the chain from `g_cpu_boot` along `cpu::next`, which no scheduler function changes.
-- `events` are the events recorded so far, the latest first.
pub record Machine : Type 0 where
  pub thread : ℕ → Thread
  pub cpu : ℕ → Cpu
  pub process : ℕ → Process
  pub cpus : List ℕ
  pub events : List KernelEvent

abbrev pub set_thread : Machine → ℕ → Thread → Machine
set_thread m t v = record m { thread = update m.thread t v }

abbrev pub set_cpu : Machine → ℕ → Cpu → Machine
set_cpu m c v = record m { cpu = update m.cpu c v }

abbrev pub set_process : Machine → ℕ → Process → Machine
set_process m p v = record m { process = update m.process p v }

abbrev pub record_event : Machine → KernelEvent → Machine
record_event m e = record m { events = e ∷ m.events }

-- The links of the run queues.
abbrev pub links : Machine → Links
links m t = (m.thread t).next

-- The links of the wait queues.
abbrev pub wait_links : Machine → Links
wait_links m t = (m.thread t).wait_link

-- `++counter` of a 64-bit counter.
abbrev pub increment : ℕ → ℕ
increment n = (n + 1) % 2 ^ 64

-- `if(0u != length) { --length; }`
abbrev pub decrement : ℕ → ℕ
decrement n = if n == 0 then n else n - 1

abbrev pub pointer_eq : Option ℕ → ℕ → Bool
pointer_eq none b = false
pointer_eq (some a) b = a == b
