-- ===== src/Schedule.antt =====
-- What runs on a CPU: `schedule_next` of src/kernel/sched/scheduler.cpp behind `reap_dead_threads`, with
-- `next_runnable_thread` of src/kernel/sched/thread_queue.cpp, the timer tick of the balancer, and
-- `set_current_thread` and `mark_current_thread_dying` of src/kernel/proc/thread.cpp. Setting the
-- kernel stack of a CPU acts on hardware and is left out.
pub mod Round
pub mod Sound
pub mod Change
pub mod Switch
pub mod Bind
pub mod Leave
pub mod Tick
pub mod Current
pub mod Handoff
pub mod Woken
pub mod Steps
pub mod Tests
use os.Base.{
  ℕ, Bool, true, false, Option, none, some, if◌then◌else◌, ◌&&◌, ◌||◌, not, ◌==◌, ◌%◌, leb,
}
use os.Machine.{
  Machine, ThreadState, KernelEventType, ProcessState, set_cpu, set_thread, set_process, increment,
  record_event, pointer_eq,
}
use os.RunQueue.{dequeue_ready_thread, dequeue_thread_if_queued}
use os.WaitQueue.{set_process_state, clear_thread_wait}
use os.Balance.{scheduler_balance_cpu}
use os.Wake.{Dispatch, set_machine, mark_thread_ready, made_running}

abbrev pub is_running : ThreadState → Bool
is_running s = elim s [ ThreadState.running ↦ true | _ ↦ false ]

-- `thread_pid(thread)` and `thread_tid(thread)`
abbrev pub thread_pid : Machine → Option ℕ → ℕ
thread_pid m none = 0
thread_pid m (some t) = elim (m.thread t).process [ none ↦ 0 | some p ↦ (m.process p).pid ]

abbrev pub thread_tid : Machine → Option ℕ → ℕ
thread_tid m none = 0
thread_tid m (some t) = (m.thread t).tid

-- The condition under which the current thread goes back into the queue.
abbrev pub keeps_current : Machine → ℕ → Bool → Option ℕ → Bool
keeps_current m local keep_current none = false
keeps_current m local keep_current (some t) =
    keep_current && not (pointer_eq (m.cpu local).idle_thread t) && is_running (m.thread t).state

abbrev pub or_idle : Machine → ℕ → Option ℕ → Option ℕ
or_idle m local none = (m.cpu local).idle_thread
or_idle m local (some t) = some t

abbrev pub run_next : Machine → Option ℕ → Machine
run_next m none = m
run_next m (some t) = made_running m t

abbrev pub same_thread : Option ℕ → Option ℕ → Bool
same_thread none none = true
same_thread none (some b) = false
same_thread (some a) b = pointer_eq b a

-- The event of a change of thread.
abbrev pub record_transition : Machine → Option ℕ → Option ℕ → Machine
record_transition m current next =
    if same_thread next current
    then m
    else record_event m (record {
      type = KernelEventType.sched_transition;
      arg0 = thread_pid m current;
      arg1 = thread_tid m current;
      arg2 = thread_pid m next;
      arg3 = thread_tid m next;
    })

-- The statements behind `reschedule_pending = 0`, with what `next_runnable_thread` returned.
abbrev pub switched : Machine × Option ℕ → ℕ → Option ℕ → Machine × Option ℕ
switched (m, taken) local current =
    let next = or_idle m local taken in (record_transition (run_next m next) current next, next)

abbrev pub not_pending : Machine → ℕ → Machine
not_pending m local = set_cpu m local (record (m.cpu local) { reschedule_pending = 0 })

-- `schedule_next(keep_current)` on the CPU `local`
unfoldable pub schedule_next : Dispatch → ℕ → Bool → Dispatch × Option ℕ
schedule_next s local keep_current =
    let current = (s.machine.cpu local).current_thread in
    let s1 =
      if keeps_current s.machine local keep_current current
      then mark_thread_ready s local current (some local)
      else s in
    let (m, next) =
      switched (dequeue_ready_thread (not_pending s1.machine local) (some local)) local current in
    (set_machine s1 m, next)

-- What `set_current_thread` does to the thread.
abbrev pub bound_to : Machine → ℕ → Option ℕ → Machine
bound_to m local none = m
bound_to m local (some t) =
    set_process_state
      (set_thread m t (record (m.thread t) {
        scheduler_cpu = some local;
        run_queue_cpu = none;
        state = ThreadState.running;
      }))
      t ProcessState.running

module _ (fuel : ℕ) where
  -- `set_current_thread(thread)` on the CPU `local`
  unfoldable pub set_current_thread : Machine → ℕ → Option ℕ → Machine
  set_current_thread m local thread =
      let m1 = dequeue_thread_if_queued fuel m thread in
      bound_to (set_cpu m1 local (record (m1.cpu local) { current_thread = thread })) local thread

abbrev pub exited_process : Machine → Option ℕ → ℕ → Machine
exited_process m none exit_status = m
exited_process m (some p) exit_status = set_process m p (record (m.process p) {
  exit_status = exit_status;
  state = elim (m.process p).parent [ none ↦ ProcessState.dying | some _ ↦ ProcessState.zombie ];
})

-- `mark_current_thread_dying(exit_status)` on the CPU `local`
unfoldable pub mark_current_thread_dying : Machine → ℕ → ℕ → Machine
mark_current_thread_dying m local exit_status = elim (m.cpu local).current_thread [
  | none ↦ m
  | some t ↦
      let m1 = set_thread m t (record (m.thread t) { exit_status = exit_status }) in
      let m2 = clear_thread_wait m1 (some t) in
      let m3 = exited_process m2 (m2.thread t).process exit_status in
      set_thread m3 t (record (m3.thread t) { state = ThreadState.dying })
]

abbrev pub idle_without_work : Machine → ℕ → Bool
idle_without_work m local =
    same_thread (m.cpu local).current_thread (m.cpu local).idle_thread
    && ((m.cpu local).runq.length == 0)

-- `balance_idle_ticks`, counted on or set to 0.
abbrev pub idle_tick_counted : Machine → ℕ → Machine
idle_tick_counted m local = set_cpu m local (record (m.cpu local) {
  balance_idle_ticks =
      if idle_without_work m local then increment (m.cpu local).balance_idle_ticks else 0;
})

abbrev pub periodic_check : Machine → ℕ → Bool
periodic_check m local =
    not ((m.cpu local).timer_ticks == 0) && ((m.cpu local).timer_ticks % 64 == 0)

abbrev pub idle_check : Machine → ℕ → Bool → Bool
idle_check m local idle =
    idle && leb 4 (m.cpu local).balance_idle_ticks && ((m.cpu local).balance_idle_ticks % 4 == 0)

-- `scheduler_handle_timer_tick()` on the CPU `local`; see Balance.antt for `meanwhile`.
unfoldable pub scheduler_handle_timer_tick : ℕ → Machine → (Machine → Machine) → ℕ → Machine
scheduler_handle_timer_tick fuel m meanwhile local =
    let m1 = idle_tick_counted m local in
    let force = idle_check m1 local (idle_without_work m local) in
    if periodic_check m1 local || force
    then (scheduler_balance_cpu fuel m1 meanwhile (some local) (m1.cpu local).timer_ticks force).0
    else m1
