-- ===== src/RunQueue.antt =====
-- The per-CPU run queues: src/kernel/sched/thread_queue.cpp and the queue helpers of
-- src/kernel/proc/thread.cpp. Each function runs under the lock of the queue that it changes. `fuel`
-- bounds how many nodes a loop over a queue visits; the length of the queue is enough.
pub mod Inv
pub mod Append
pub mod Dequeue
pub mod Remove
pub mod Enqueue
pub mod Tests
use os.Base.{ℕ, Bool, true, false, Option, none, some, List, [], ◌∷◌, walk, if◌then◌else◌, ◌==◌}
use os.Machine.{Machine, set_thread, set_cpu, links, increment, decrement, pointer_eq}

-- `owner->runq.head = thread->next` and what follows, of `dequeue_ready_thread`.
unfoldable pub pop_head : Machine → ℕ → ℕ → Machine
pop_head m c t =
    let o = m.cpu c in
    let h = (m.thread t).next in
    set_thread
      (set_cpu m c (record o {
        runq = record {
          head = h;
          tail = elim h [ none ↦ none | some _ ↦ o.runq.tail ];
          length = decrement o.runq.length;
        };
        dequeue_count = increment o.dequeue_count;
      }))
      t (record (m.thread t) { next = none; run_queue_cpu = none })

-- `dequeue_ready_thread(cpu* owner)`
unfoldable pub dequeue_ready_thread : Machine → Option ℕ → Machine × Option ℕ
unfolding pop_head
dequeue_ready_thread m none = (m, none)
dequeue_ready_thread m (some c) = elim (m.cpu c).runq.head [
  | none ↦ (m, none)
  | some t ↦ (pop_head m c t, some t)
]

-- `thread->next = nullptr` and the link from the old tail, or the head of an empty queue.
abbrev pub link_tail : Machine → Option ℕ → ℕ → Machine
link_tail m none t = set_thread m t (record (m.thread t) { next = none })
link_tail m (some last) t =
    let m1 = set_thread m t (record (m.thread t) { next = none }) in
    set_thread m1 last (record (m1.thread last) { next = some t })

-- The statements that `run_queue_append_locked` of src/kernel/proc/thread.cpp and
-- `append_ready_thread_locked` of src/kernel/sched/scheduler.cpp share.
unfoldable pub append_ready_thread_locked : Machine → Option ℕ → Option ℕ → Machine
append_ready_thread_locked m none thread = m
append_ready_thread_locked m (some c) none = m
append_ready_thread_locked m (some c) (some t) =
    let o = m.cpu c in
    let m2 = link_tail m o.runq.tail t in
    set_cpu (set_thread m2 t (record (m2.thread t) { run_queue_cpu = some c })) c (record o {
      runq = record {
        head = elim o.runq.tail [ none ↦ some t | some _ ↦ o.runq.head ];
        tail = some t;
        length = increment o.runq.length;
      };
      enqueue_count = increment o.enqueue_count;
    })

-- `run_queue_append_locked(cpu* owner, Thread* thread)`
unfoldable pub run_queue_append_locked : Machine → Option ℕ → Option ℕ → Machine
run_queue_append_locked m none thread = m
run_queue_append_locked m (some c) none = m
run_queue_append_locked m (some c) (some t) = elim (m.thread t).run_queue_cpu [
  | none ↦ append_ready_thread_locked m (some c) (some t)
  | some _ ↦ m
]

-- The node before `thread` in the walk, and whether `thread` was met at all.
unfoldable pub find_previous : ℕ → Option ℕ → List ℕ → Option (Option ℕ)
find_previous thread previous [] = none
find_previous thread previous (candidate ∷ rest) =
    if candidate == thread then some previous else find_previous thread (some candidate) rest

-- The pointers that name `t` from before are moved to its successor.
abbrev pub bypass : Machine → ℕ → Option ℕ → ℕ → Machine
bypass m c none t =
    let o = m.cpu c in
    set_cpu m c (record o { runq = record (o.runq) { head = (m.thread t).next } })
bypass m c (some p) t = set_thread m p (record (m.thread p) { next = (m.thread t).next })

-- `t` leaves the queue of `c`, `previous` being the node before it. The statements that
-- `run_queue_remove_locked` and `detach_last_migratable_thread_locked` share.
unfoldable pub unlink : Machine → ℕ → Option ℕ → ℕ → Machine
unlink m c previous t =
    let m1 = bypass m c previous t in
    let o = m1.cpu c in
    let m2 = set_cpu m1 c (record o {
      runq = record (o.runq) {
        tail = if pointer_eq o.runq.tail t then previous else o.runq.tail;
        length = decrement o.runq.length;
      };
      dequeue_count = increment o.dequeue_count;
    }) in
    set_thread m2 t (record (m2.thread t) { next = none; run_queue_cpu = none })

-- `idle_thread_for_cpu(const cpu* owner)`
abbrev pub idle_thread_for_cpu : Machine → Option ℕ → Option ℕ
idle_thread_for_cpu m none = none
idle_thread_for_cpu m (some c) = (m.cpu c).idle_thread

module _ (fuel : ℕ) where
  -- `run_queue_remove_locked(cpu* owner, Thread* thread)`
  unfoldable pub run_queue_remove_locked : Machine → Option ℕ → Option ℕ → Machine
  run_queue_remove_locked m none thread = m
  run_queue_remove_locked m (some c) none = m
  run_queue_remove_locked m (some c) (some t) =
      elim (find_previous t none (walk (links m) fuel (m.cpu c).runq.head)) [
        | none ↦ m
        | some previous ↦ unlink m c previous t
      ]

  -- `dequeue_thread_if_queued(Thread* thread)`
  unfoldable pub dequeue_thread_if_queued : Machine → Option ℕ → Machine
  dequeue_thread_if_queued m none = m
  dequeue_thread_if_queued m (some t) = elim (m.thread t).run_queue_cpu [
    | none ↦ m
    | some c ↦ run_queue_remove_locked m (some c) (some t)
  ]

-- `enqueue_thread_on_cpu(Thread* thread, cpu* target)`
unfoldable pub enqueue_thread_on_cpu : Machine → Option ℕ → Option ℕ → Machine × Bool
enqueue_thread_on_cpu m none target = (m, false)
enqueue_thread_on_cpu m (some t) none = (
  set_thread m t (record (m.thread t) { scheduler_cpu = none; run_queue_cpu = none; next = none }),
  false,
)
enqueue_thread_on_cpu m (some t) (some c) =
    let m1 = set_thread m t (record (m.thread t) { scheduler_cpu = some c }) in
    if pointer_eq (m.cpu c).idle_thread t
    then (set_thread m1 t (record (m1.thread t) { run_queue_cpu = none; next = none }), false)
    else elim (m.thread t).run_queue_cpu [
      | some _ ↦ (m1, false)
      | none ↦ (run_queue_append_locked m1 (some c) (some t), true)
    ]
