-- ===== src/Schedule/Tests.antt =====
-- `schedule_next` on CPU 1, which runs thread 13 and whose queue holds the threads 10, 11 and 12.
use os.Base.{
  ℕ, ◌≡◌, ◌≢◌, ◌≤◌, ◌<◌, refl, true, none, some, List, [], ◌∷◌, ◌==◌, arith, none-ne-some, some_inj,
  All, NotIn, inl, inr, Bool-cases,
}
use os.Machine.{Machine, ThreadState, set_cpu, set_thread}
use os.RunQueue.Inv.{Queued, Queued-frame}
use os.RunQueue.Tests.{two_cpus, waiting}
use os.RunQueue.{
  dequeue_ready_thread, pop_head, enqueue_thread_on_cpu, run_queue_append_locked,
  append_ready_thread_locked,
}
use os.WaitQueue.{set_process_state}
use os.Wake.{mark_thread_ready, select_target_cpu}
use os.Balance.{balance_locked, thread_is_migratable, thread_allows_cpu}
use os.Balance.Migrate.{Queues}
use os.WaitQueue.Tests.{machine}
use os.Schedule.Handoff.{preempted_lem}
use os.Balance.Tests.{two_cpus-Queues, short, few}
use os.Wake.{Dispatch}
use os.Schedule.{schedule_next, set_current_thread}
use os.Schedule.Sound.{all_links, Sound, IsSound, Sound-frame}
use os.Schedule.Bind.{set_current_thread-IsSound}
use os.Schedule.Tick.{depth_known}
use os.Schedule.Steps.{Reach, start, later, run_queues_kept, schedule, bind, tick}
use os.Schedule.{scheduler_handle_timer_tick}
use os.Schedule.Round.{schedule_next-Queued, ScheduleResult}

abbrev busy : Machine
busy =
    let m = set_cpu two_cpus 1 (record (two_cpus.cpu 1) { current_thread = some 13 }) in
    set_thread m 13 (record (m.thread 13) { state = ThreadState.running })

abbrev dispatch : Dispatch
dispatch = record { machine = busy; last_user_thread_cpu = none }

busy-Queued : Queued busy 1 (10 ∷ 11 ∷ 12 ∷ [])
busy-Queued = record {
  linked = (refl, (refl, (refl, refl)));
  tail_last = refl;
  counted = refl;
  distinct = ((omega arith, (omega arith, tt)), ((omega arith, tt), (tt, tt)));
  owned = (refl, (refl, (refl, tt)));
}

schedule_next-Queued_example :
    ScheduleResult dispatch 1 10 (11 ∷ 12 ∷ 13 ∷ []) (schedule_next dispatch 1 true)
schedule_next-Queued_example =
    schedule_next-Queued dispatch 1 13 10 (10 ∷ 11 ∷ 12 ∷ []) (11 ∷ 12 ∷ 13 ∷ []) busy-Queued refl
      refl refl none-ne-some (omega arith) refl

two_cpus-Sound : Sound 14 two_cpus
two_cpus-Sound = (waiting, record { queued = two_cpus-Queues; below = low })
  where
    low : (c : ℕ) → All (λ t. t < 14) (waiting c)
    low c = elim (Bool-cases (c == 1)) [
      | inl e ↦ rw e (omega arith, (omega arith, (omega arith, tt)))
      | inr e ↦ rw e tt
    ]

busy-Sound : Sound 14 busy
busy-Sound =
    Sound-frame two_cpus busy (λ c. ground arith) (λ t. (ground arith, ground arith)) two_cpus-Sound

-- Thread 10 runs on CPU 1, and thread 13, ready, on CPU 2.
abbrev handed_over : Machine
handed_over = set_current_thread 14 (schedule_next dispatch 1 true).0.machine 1 (some 10)

-- In the middle of the balancing tick of CPU 2, CPU 1 goes on with no thread.
abbrev paused : Machine
paused = set_current_thread 14 (depth_known handed_over 2) 1 none

abbrev balanced : Machine
balanced = scheduler_handle_timer_tick 14 handed_over (λ _. paused) 2

balanced-Reach : Reach 14 14 busy balanced
balanced-Reach =
    later
      (later (later start (schedule none 1 true (λ t e. omega (arith, some_inj e))))
        (bind 1 (some 10)))
      (tick 2 paused (later start (bind 1 none)))

run_queues_kept_example :
    (q : ℕ → List ℕ) × IsSound 14 balanced q
    × ((c d : ℕ) → c ≢ d → All (λ t. NotIn t (q d)) (q c))
    × ((c : ℕ) → (balanced.cpu c).runq.length ≤ 14)
run_queues_kept_example = run_queues_kept (omega arith) (omega arith) busy-Sound balanced-Reach

set_current_thread-IsSound_example :
    let m' = set_current_thread 14 busy 2 (some 11) in
    ((m'.cpu 2).current_thread ≡ some 11)
    × ((m'.thread 11).state ≡ ThreadState.running)
    × ((m'.thread 11).scheduler_cpu ≡ some 2)
    × ((q : ℕ → List ℕ) × IsSound 14 m' q × ((c : ℕ) → NotIn 11 (q c)))
set_current_thread-IsSound_example =
    set_current_thread-IsSound 14 busy 2 11 (omega arith) busy-Sound

busy-Queues : Queues busy waiting
busy-Queues d =
    Queued-frame (two_cpus-Queues d) (ground arith)
      (all_links two_cpus busy (λ t. (ground arith, ground arith)) (waiting d))

may_move : thread_is_migratable (schedule_next dispatch 1 true).0.machine 100 2 13 ≡ true
unfolding thread_is_migratable thread_allows_cpu schedule_next mark_thread_ready
    dequeue_ready_thread pop_head enqueue_thread_on_cpu run_queue_append_locked
    append_ready_thread_locked set_process_state select_target_cpu
may_move = refl

-- CPU 1 switches from thread 13 to thread 10, and CPU 2 steals 13.
preempted_lem_example :
    let m1 = (schedule_next dispatch 1 true).0.machine in
    let m2 = (balance_locked 3 m1 2 1 2 true 100).0 in
    Queued m2 2 (13 ∷ []) × ((m2.cpu 1).current_thread ≡ some 13)
preempted_lem_example =
    preempted_lem dispatch waiting 3 1 2 13 10 (11 ∷ 12 ∷ []) 2 100 busy-Queues short (few 1) refl
      refl refl refl none-ne-some (omega arith) (omega arith) may_move

-- The threads 20 and 21 wait for a completion.
abbrev waiters : Dispatch
waiters = record { machine = machine; last_user_thread_cpu = none }
