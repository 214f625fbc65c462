-- ===== src/WaitQueue.antt =====
-- Wait queues and completions, src/kernel/sync/wait_queue.cpp, and the functions of
-- src/kernel/proc/thread.cpp that block the current thread on them. A queue is linked through
-- `wait_link` of its threads. Each function runs under the lock of its queue. `fuel` bounds how many
-- nodes a loop over a queue visits; the number of its threads is enough.
pub mod Order
pub mod Block
pub mod Tests
use os.Base.{
  ℕ, Bool, true, false, Option, none, some, List, [], ◌∷◌, length, walk, if◌then◌else◌, ◌==◌, ◌&&◌,
}
use os.Machine.{
  Machine, ThreadState, ThreadWaitReason, ThreadWaitState, ProcessState, set_thread, set_process,
  wait_links,
}

pub record WaitQueue : Type 0 where
  pub head : Option ℕ

pub record Completion : Type 0 where
  pub waiters : WaitQueue
  pub done : Bool

-- The walk of `wait_queue_enqueue_locked`: the last node, or none where `thread` is met.
unfoldable pub find_tail : ℕ → ℕ → List ℕ → Option ℕ
find_tail thread tail [] = some tail
find_tail thread tail (current ∷ rest) =
    if current == thread then none else find_tail thread current rest

-- `thread->wait_link = nullptr; tail->wait_link = thread;`
abbrev pub link_behind : Machine → Option ℕ → ℕ → Machine
link_behind m none t = m
link_behind m (some tail) t =
    let m1 = set_thread m t (record (m.thread t) { wait_link = none }) in
    set_thread m1 tail (record (m1.thread tail) { wait_link = some t })

module _ (fuel : ℕ) where
  unfoldable pub wait_queue_enqueue_locked : Machine → WaitQueue → Option ℕ → Machine × WaitQueue
  wait_queue_enqueue_locked m queue none = (m, queue)
  wait_queue_enqueue_locked m queue (some t) = elim queue.head [
    | none ↦ (set_thread m t (record (m.thread t) { wait_link = none }), record { head = some t })
    | some h ↦ (link_behind m (find_tail t h (walk (wait_links m) fuel (some h))) t, queue)
  ]

  -- `wait_queue_count(WaitQueue& queue)`
  unfoldable pub wait_queue_count : Machine → WaitQueue → ℕ
  wait_queue_count m queue = length (walk (wait_links m) fuel queue.head)

unfoldable pub wait_queue_dequeue_locked : Machine → WaitQueue → (Machine × WaitQueue) × Option ℕ
wait_queue_dequeue_locked m queue = elim queue.head [
  | none ↦ ((m, queue), none)
  | some t ↦ (
    (
      set_thread m t (record (m.thread t) { wait_link = none }),
      record { head = (m.thread t).wait_link },
    ),
    some t,
  )
]

unfoldable pub wait_queue_dequeue_all_locked : WaitQueue → WaitQueue × Option ℕ
wait_queue_dequeue_all_locked queue = (record { head = none }, queue.head)

unfoldable pub wait_queue_empty_locked : WaitQueue → Bool
wait_queue_empty_locked queue = elim queue.head [ none ↦ true | some _ ↦ false ]

unfoldable pub completion_reset : Completion → Completion
completion_reset completion = record completion { done = false }

abbrev pub no_wait_state : ThreadWaitState
no_wait_state = record { reason = ThreadWaitReason.no_wait; first = 0; second = 0 }

unfoldable pub clear_thread_wait : Machine → Option ℕ → Machine
clear_thread_wait m none = m
clear_thread_wait m (some t) = set_thread m t (record (m.thread t) { wait = no_wait_state })

abbrev pub is_dying_process : ProcessState → Bool
is_dying_process s = elim s [ ProcessState.dying ↦ true | _ ↦ false ]

abbrev pub is_dying_or_free : ThreadState → Bool
is_dying_or_free s = elim s [ ThreadState.dying ↦ true | ThreadState.free ↦ true | _ ↦ false ]

-- `set_process_state(Thread* thread, ProcessState state)` for a thread that is not null.
unfoldable pub set_process_state : Machine → ℕ → ProcessState → Machine
set_process_state m t state = elim (m.thread t).process [
  | none ↦ m
  | some p ↦
      if is_dying_process (m.process p).state
      then m
      else set_process m p (record (m.process p) { state = state })
]

-- The statements of `block_current_thread` before the thread enters its queue.
unfoldable pub blocked : Machine → ℕ → ThreadWaitState → Machine
blocked m t wait =
    set_process_state
      (set_thread m t (record (m.thread t) { wait = wait; state = ThreadState.blocked })) t
      ProcessState.ready

abbrev pub is_block_io : ThreadWaitReason → Bool
is_block_io r = elim r [ ThreadWaitReason.block_io ↦ true | _ ↦ false ]

-- `block_current_thread(wait)`, without a queue, on the CPU `local`
unfoldable pub block_current_thread_unqueued : Machine → ℕ → ThreadWaitState → Machine × Bool
block_current_thread_unqueued m local wait = elim (m.cpu local).current_thread [
  | none ↦ (m, false)
  | some t ↦ if is_dying_or_free (m.thread t).state then (m, false) else (blocked m t wait, true)
]

module _ (fuel : ℕ) where
  -- `block_current_thread(wait, queue)` on the CPU `local`, for a queue that is not null; `done` says
  -- whether the wait names a completion that is done.
  unfoldable pub block_current_thread :
      Machine → ℕ → ThreadWaitState → WaitQueue → Bool → (Machine × WaitQueue) × Bool
  block_current_thread m local wait queue done = elim (m.cpu local).current_thread [
    | none ↦ ((m, queue), false)
    | some t ↦
        if is_dying_or_free (m.thread t).state
        then ((m, queue), false)
        else if is_block_io wait.reason && done
        then ((m, queue), false)
        else (wait_queue_enqueue_locked fuel (blocked m t wait) queue (some t), true)
  ]

  -- `block_current_thread_on_block_io(Completion* completion)`; the union holds the address `at`.
  unfoldable pub block_current_thread_on_block_io :
      Machine → ℕ → ℕ → Completion → Machine × Completion
  block_current_thread_on_block_io m local at completion =
      let result =
        block_current_thread m local
          (record { reason = ThreadWaitReason.block_io; first = at; second = 0 }) completion.waiters
          completion.done in
      (result.0.0, record completion { waiters = result.0.1 })

  -- `block_current_thread_on_console_read(user_buffer, length)`
  unfoldable pub block_current_thread_on_console_read :
      Machine → ℕ → ℕ → ℕ → WaitQueue → Machine × WaitQueue
  block_current_thread_on_console_read m local user_buffer length queue =
      (block_current_thread m local
        (record { reason = ThreadWaitReason.console_read; first = user_buffer; second = length })
        queue false).0
