-- ===== src/Schedule/Leave.antt =====
-- The current thread ends or blocks, from run queues in order.
use os.Base.{
  ℕ, refl, inl, inr, Bool, true, false, ◌&&◌, Option, none, some, walk, if◌then◌else◌, arith, ap,
  ◌∙◌, Bool-cases,
}
use os.Machine.{Machine, Thread, ThreadState, ThreadWaitState, ProcessState, set_thread, wait_links}
use os.WaitQueue.{
  WaitQueue, find_tail, link_behind, wait_queue_enqueue_locked, clear_thread_wait, blocked,
  block_current_thread, block_current_thread_unqueued, is_dying_or_free, is_block_io,
}
use os.Schedule.{mark_current_thread_dying, exited_process}
use os.Schedule.Sound.{Sound, Sound-frame, SameLinks}
use os.Wake.Join.{process_state-cpus}
use os.Wake.Frame.{process_state-threads}

exited-Sound :
    {limit : ℕ} (m : Machine) (p : Option ℕ) (exit_status : ℕ)
    → Sound limit m
    → Sound limit (exited_process m p exit_status)
exited-Sound m none exit_status k = k
exited-Sound m (some p) exit_status k =
    Sound-frame m (exited_process m (some p) exit_status) (λ c. refl) (λ x. (refl, refl)) k

-- One thread changes, but for its links.
pub thread-Sound :
    {limit : ℕ} (m : Machine) (t : ℕ) (a : Thread)
    → SameLinks (m.thread t) a
    → Sound limit m
    → Sound limit (set_thread m t a)
thread-Sound m t a h =
    Sound-frame m (set_thread m t a) (λ c. refl) (λ x. (ground (arith, h), ground (arith, h)))

pub mark_current_thread_dying-Sound :
    {limit : ℕ} (m : Machine) (local exit_status : ℕ)
    → Sound limit m
    → Sound limit (mark_current_thread_dying m local exit_status)
unfolding mark_current_thread_dying clear_thread_wait
mark_current_thread_dying-Sound {limit} m local exit_status k = go (m.cpu local).current_thread
  where
    at_current : Option ℕ → Machine
    at_current o = elim o [
      | none ↦ m
      | some t ↦
          let m1 = set_thread m t (record (m.thread t) { exit_status = exit_status }) in
          let m2 = clear_thread_wait m1 (some t) in
          let m3 = exited_process m2 (m2.thread t).process exit_status in
          set_thread m3 t (record (m3.thread t) { state = ThreadState.dying })
    ]

    go : (o : Option ℕ) → Sound limit (at_current o)
    go none = k
    go (some t) =
        let m1 = set_thread m t (record (m.thread t) { exit_status = exit_status }) in
        let m2 = clear_thread_wait m1 (some t) in
        let m3 = exited_process m2 (m2.thread t).process exit_status in
        thread-Sound m3 t (record (m3.thread t) { state = ThreadState.dying }) (refl, refl)
          (exited-Sound m2 (m2.thread t).process exit_status
            (thread-Sound m1 t _ (refl, refl) (thread-Sound m t _ (refl, refl) k)))

blocked-Sound :
    {limit : ℕ} (m : Machine) (t : ℕ) (wait : ThreadWaitState)
    → Sound limit m
    → Sound limit (blocked m t wait)
unfolding blocked
blocked-Sound m t wait =
    let m1 = set_thread m t (record (m.thread t) { wait = wait; state = ThreadState.blocked }) in
    let threads = process_state-threads m1 t ProcessState.ready in
    Sound-frame m (blocked m t wait)
      (λ c. ap (λ f. (f c).runq) (process_state-cpus m1 t ProcessState.ready))
      (λ x. (
        ap (λ f. (f x).next) threads ∙ ground arith,
        ap (λ f. (f x).run_queue_cpu) threads ∙ ground arith,
      ))

waits-Sound :
    {limit : ℕ} (fuel : ℕ) (m : Machine) (queue : WaitQueue) (t : ℕ)
    → Sound limit m
    → Sound limit (wait_queue_enqueue_locked fuel m queue (some t)).0
unfolding wait_queue_enqueue_locked
waits-Sound {limit} fuel m queue t k = go queue.head
  where
    linked : (o : Option ℕ) → Sound limit (link_behind m o t)
    linked none = k
    linked (some tail) =
        let m1 = set_thread m t (record (m.thread t) { wait_link = none }) in
        thread-Sound m1 tail (record (m1.thread tail) { wait_link = some t }) (refl, refl)
          (thread-Sound m t (record (m.thread t) { wait_link = none }) (refl, refl) k)

    at_head : Option ℕ → Machine × WaitQueue
    at_head o = elim o [
      | none ↦ (set_thread m t (record (m.thread t) { wait_link = none }), record { head = some t })
      | some h ↦ (link_behind m (find_tail t h (walk (wait_links m) fuel (some h))) t, queue)
    ]

    go : (o : Option ℕ) → Sound limit (at_head o).0
    go none = thread-Sound m t (record (m.thread t) { wait_link = none }) (refl, refl) k
    go (some h) = linked (find_tail t h (walk (wait_links m) fuel (some h)))

pub block_current_thread-Sound :
    {limit : ℕ} (fuel : ℕ) (m : Machine) (local : ℕ) (wait : ThreadWaitState) (queue : WaitQueue)
    (done : Bool)
    → Sound limit m
    → Sound limit (block_current_thread fuel m local wait queue done).0.0
unfolding block_current_thread
block_current_thread-Sound {limit} fuel m local wait queue done k = go (m.cpu local).current_thread
  where
    at_current : Option ℕ → (Machine × WaitQueue) × Bool
    at_current o = elim o [
      | none ↦ ((m, queue), false)
      | some t ↦
          if is_dying_or_free (m.thread t).state
          then ((m, queue), false)
          else if is_block_io wait.reason && done
          then ((m, queue), false)
          else (wait_queue_enqueue_locked fuel (blocked m t wait) queue (some t), true)
    ]

    go : (o : Option ℕ) → Sound limit (at_current o).0.0
    go none = k
    go (some t) = elim (Bool-cases (is_dying_or_free (m.thread t).state)) [
      | inl e ↦ rw e k
      | inr e ↦ elim (Bool-cases (is_block_io wait.reason && done)) [
        | inl d ↦ rw (e, d) k
        | inr d ↦ rw (e, d) (waits-Sound fuel (blocked m t wait) queue t (blocked-Sound m t wait k))
      ]
    ]

pub block_unqueued-Sound :
    {limit : ℕ} (m : Machine) (local : ℕ) (wait : ThreadWaitState)
    → Sound limit m
    → Sound limit (block_current_thread_unqueued m local wait).0
unfolding block_current_thread_unqueued
block_unqueued-Sound {limit} m local wait k = go (m.cpu local).current_thread
  where
    at_current : Option ℕ → Machine × Bool
    at_current o = elim o [
      | none ↦ (m, false)
      | some t ↦
          if is_dying_or_free (m.thread t).state then (m, false) else (blocked m t wait, true)
    ]

    go : (o : Option ℕ) → Sound limit (at_current o).0
    go none = k
    go (some t) = elim (Bool-cases (is_dying_or_free (m.thread t).state)) [
      | inl e ↦ rw e k
      | inr e ↦ rw e (blocked-Sound m t wait k)
    ]
