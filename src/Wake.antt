-- ===== src/Wake.antt =====
-- Making threads ready: the choice of a CPU, `mark_thread_ready` and `wake_blocked_thread` of
-- src/kernel/proc/thread.cpp, and the functions of src/kernel/sync/wait_queue.cpp that wake the threads
-- of a queue. The reschedule interrupt to another CPU acts on hardware and is left out.
pub mod Frame
pub mod Ready
pub mod Queue
pub mod Join
pub mod Tests
use os.Base.{
  ℕ, zero, suc, ◌+◌, ◌*◌, Bool, true, Option, none, some, List, [], ◌∷◌, ◌++◌, length,
  if◌then◌else◌, ◌==◌, ◌||◌, ◌&&◌, not, ltb,
}
use os.Machine.{Machine, ThreadState, ProcessState, set_thread, pointer_eq}
use os.RunQueue.{enqueue_thread_on_cpu}
use os.WaitQueue.{
  WaitQueue, Completion, clear_thread_wait, set_process_state, is_dying_or_free,
  wait_queue_dequeue_locked, wait_queue_dequeue_all_locked,
}

-- The machine with `g_last_user_thread_cpu`.
pub record Dispatch : Type 0 where
  pub machine : Machine
  pub last_user_thread_cpu : Option ℕ

abbrev pub first_cpu : List ℕ → Option ℕ
first_cpu [] = none
first_cpu (c ∷ cs) = some c

-- `cpu_is_schedulable(owner)`; `g_cpu_boot` is the first CPU of the chain.
abbrev pub cpu_is_schedulable : Machine → ℕ → Bool
cpu_is_schedulable m c = pointer_eq (first_cpu m.cpus) c || not ((m.cpu c).booted == 0)

-- The CPUs behind `c` in the chain and then those from the boot CPU up to `c`; `before` has been passed.
abbrev pub cpus_after : ℕ → List ℕ → List ℕ → List ℕ
cpus_after c before [] = before
cpus_after c before (d ∷ ds) =
    if d == c then ds ++ (before ++ d ∷ []) else cpus_after c (before ++ d ∷ []) ds

abbrev pub first_schedulable : Machine → ℕ → List ℕ → ℕ
first_schedulable m local [] = local
first_schedulable m local (c ∷ cs) =
    if cpu_is_schedulable m c then c else first_schedulable m local cs

-- `next_schedulable_cpu_after(after)` on the CPU `local`, for null or a CPU of the chain.
unfoldable pub next_schedulable_cpu_after : Machine → ℕ → Option ℕ → ℕ
next_schedulable_cpu_after m local none = first_schedulable m local m.cpus
next_schedulable_cpu_after m local (some after) =
    first_schedulable m local (cpus_after after [] m.cpus)

-- The loop of `select_least_loaded_cpu`: at most `fuel` candidates are looked at.
unfoldable pub least_loaded_from : ℕ → Machine → ℕ → ℕ → ℕ → ℕ
least_loaded_from zero m local best candidate = best
least_loaded_from (suc fuel) m local best candidate =
    let next = next_schedulable_cpu_after m local (some candidate) in
    let smaller = ltb (m.cpu candidate).runq.length (m.cpu best).runq.length in
    let rest = least_loaded_from fuel m local (if smaller then candidate else best) next in
    if candidate == best
    then best
    else if smaller && ((m.cpu candidate).runq.length == 0)
    then candidate
    else rest

-- `select_least_loaded_cpu(start_after)`; a second round of the CPUs ends the loop.
unfoldable pub select_least_loaded_cpu : Machine → ℕ → Option ℕ → ℕ
select_least_loaded_cpu m local start_after =
    let best = next_schedulable_cpu_after m local start_after in
    if (m.cpu best).runq.length == 0
    then best
    else least_loaded_from (2 * length m.cpus) m local best
        (next_schedulable_cpu_after m local (some best))

abbrev pub select_user_target_cpu : Dispatch → ℕ → Dispatch × ℕ
select_user_target_cpu s local =
    let best = select_least_loaded_cpu s.machine local s.last_user_thread_cpu in
    (record s { last_user_thread_cpu = some best }, best)

-- `select_target_cpu(thread, target)` for a thread that is not null
unfoldable pub select_target_cpu : Dispatch → ℕ → ℕ → Option ℕ → Dispatch × ℕ
select_target_cpu s local t (some target) = (s, target)
select_target_cpu s local t none =
    if (s.machine.thread t).user_mode
    then select_user_target_cpu s local
    else (s, elim (s.machine.thread t).scheduler_cpu [ none ↦ local | some c ↦ c ])

abbrev pub set_machine : Dispatch → Machine → Dispatch
set_machine s m = record s { machine = m }

-- The statements of `mark_thread_ready` behind the choice of the CPU.
abbrev pub made_ready : Machine → ℕ → ℕ → Machine
made_ready m t c =
    (enqueue_thread_on_cpu
      (set_process_state (set_thread m t (record (m.thread t) { state = ThreadState.ready })) t
        ProcessState.ready)
      (some t) (some c)).0

abbrev pub ready_on : Dispatch × ℕ → ℕ → Dispatch
ready_on (s, c) t = set_machine s (made_ready s.machine t c)

-- `mark_thread_ready(thread, target)`
unfoldable pub mark_thread_ready : Dispatch → ℕ → Option ℕ → Option ℕ → Dispatch
mark_thread_ready s local none target = s
mark_thread_ready s local (some t) target =
    if is_dying_or_free (s.machine.thread t).state
    then s
    else ready_on (select_target_cpu s local t target) t

abbrev pub made_running : Machine → ℕ → Machine
made_running m t =
    set_process_state (set_thread m t (record (m.thread t) { state = ThreadState.running })) t
      ProcessState.running

-- `wake_blocked_thread(thread, target)`
unfoldable pub wake_blocked_thread : Dispatch → ℕ → Option ℕ → Option ℕ → Dispatch
wake_blocked_thread s local none target = s
wake_blocked_thread s local (some t) target =
    let s1 = set_machine s (clear_thread_wait s.machine (some t)) in
    if pointer_eq (s.machine.cpu local).current_thread t
    then set_machine s1 (made_running s1.machine t)
    else mark_thread_ready s1 local (some t) target

-- `wait_queue_wake_one(queue, target)`
unfoldable pub wait_queue_wake_one :
    Dispatch → ℕ → WaitQueue → Option ℕ → (Dispatch × WaitQueue) × ℕ
wait_queue_wake_one s local queue target =
    let ((m, queue1), thread) = wait_queue_dequeue_locked s.machine queue in
    elim thread [
      | none ↦ ((s, queue), 0)
      | some t ↦ ((wake_blocked_thread (set_machine s m) local (some t) target, queue1), 1)
    ]

-- `thread->wait_link = nullptr`
abbrev pub unlinked : Dispatch → ℕ → Dispatch
unlinked s t =
    set_machine s (set_thread s.machine t (record (s.machine.thread t) { wait_link = none }))

-- The loop of `wait_queue_wake_all`, and how often it goes round.
unfoldable pub wake_chain : ℕ → Dispatch → ℕ → Option ℕ → Option ℕ → Dispatch × ℕ
wake_chain fuel s local target none = (s, 0)
wake_chain zero s local target (some t) = (s, 0)
wake_chain (suc fuel) s local target (some t) =
    let next = (s.machine.thread t).wait_link in
    let (s1, count) =
      wake_chain fuel (wake_blocked_thread (unlinked s t) local (some t) target) local target
        next in
    (s1, count + 1)

-- `wait_queue_wake_all(queue, target)`
unfoldable pub wait_queue_wake_all :
    ℕ → Dispatch → ℕ → WaitQueue → Option ℕ → (Dispatch × WaitQueue) × ℕ
wait_queue_wake_all fuel s local queue target =
    let (queue1, first) = wait_queue_dequeue_all_locked queue in
    let (s1, count) = wake_chain fuel s local target first in ((s1, queue1), count)

-- `completion_signal(completion)`
unfoldable pub completion_signal : ℕ → Dispatch → ℕ → Completion → (Dispatch × Completion) × Bool
completion_signal fuel s local completion =
    let ((s1, waiters), _) = wait_queue_wake_all fuel s local completion.waiters none in
    ((s1, record { waiters = waiters; done = true }), not completion.done)
