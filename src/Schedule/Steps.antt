-- ===== src/Schedule/Steps.antt =====
-- The scheduler as a whole: the changes that all CPUs make, one after the other, each under the
-- locks that its function takes.
use os.Base.{
  ℕ, ◌+◌, ◌^◌, ◌<◌, ◌≤◌, ◌≡◌, ◌≢◌, Bool, Option, some, List, All, All-map, NotIn, arith, ◌∙◌, sym,
  some_inj,
}
use os.Machine.{Machine, ThreadWaitState}
use os.WaitQueue.{WaitQueue, block_current_thread, block_current_thread_unqueued}
use os.Wake.{Dispatch, mark_thread_ready, wake_blocked_thread}
use os.Wake.Ready.{target_cpu}
use os.RunQueue.{dequeue_thread_if_queued}
use os.RunQueue.Inv.{not_owned-NotIn}
use os.Schedule.{
  schedule_next, set_current_thread, mark_current_thread_dying, scheduler_handle_timer_tick,
}
use os.Schedule.Sound.{Sound, IsSound, Sound-frame, SameLinks, length-IsSound}
use os.Schedule.Change.{mark_thread_ready-Sound, wake_blocked_thread-Sound}
use os.Schedule.Switch.{schedule_next-Sound}
use os.Schedule.Bind.{leaves, set_current_thread-Sound}
use os.Schedule.Leave.{
  mark_current_thread_dying-Sound, block_current_thread-Sound, block_unqueued-Sound,
}
use os.Schedule.Tick.{depth_known, depth_known-Sound, timer_tick-Sound}

-- A thread of the table of `limit` threads that no CPU idles in.
abbrev pub IsPlain : ℕ → Machine → ℕ → Type 0
IsPlain limit m t = (t < limit) × ((c : ℕ) → (m.cpu c).idle_thread ≢ some t)

-- One call of the scheduler on the CPU `local`, for a table of `limit` threads. `last`, the CPU that
-- `select_target_cpu` used last, is any. In the middle of `tick`, where it holds no lock, the other
-- CPUs make steps of their own. `elsewhere` is other code, which writes neither a run
-- queue nor the link or the owner of a thread.
mutual
  pub data Step (limit fuel : ℕ) : Machine → Machine → Type 0 where
    ready :
        {m : Machine} (last : Option ℕ) (local t : ℕ) (target : Option ℕ)
        → IsPlain limit m t
        → Step limit fuel m
            (mark_thread_ready
              (record { machine = m; last_user_thread_cpu = last })
              local
              (some t)
              target).machine
    wake :
        {m : Machine} (last : Option ℕ) (local t : ℕ) (target : Option ℕ)
        → IsPlain limit m t
        → Step limit fuel m
            (wake_blocked_thread
              (record { machine = m; last_user_thread_cpu = last })
              local
              (some t)
              target).machine
    schedule :
        {m : Machine} (last : Option ℕ) (local : ℕ) (keep_current : Bool)
        → ((t : ℕ) → (m.cpu local).current_thread ≡ some t → t < limit)
        → Step limit fuel m
            (schedule_next
              (record { machine = m; last_user_thread_cpu = last })
              local
              keep_current).0.machine
    leave : {m : Machine} (t : ℕ) → Step limit fuel m (dequeue_thread_if_queued fuel m (some t))
    bind :
        {m : Machine} (local : ℕ) (thread : Option ℕ)
        → Step limit fuel m (set_current_thread fuel m local thread)
    block :
        {m : Machine} (local : ℕ) (wait : ThreadWaitState) (queue : WaitQueue) (done : Bool)
        → Step limit fuel m (block_current_thread fuel m local wait queue done).0.0
    block_unqueued :
        {m : Machine} (local : ℕ) (wait : ThreadWaitState)
        → Step limit fuel m (block_current_thread_unqueued m local wait).0
    exit :
        {m : Machine} (local exit_status : ℕ)
        → Step limit fuel m (mark_current_thread_dying m local exit_status)
    tick :
        {m : Machine} (local : ℕ) (after : Machine)
        → Reach limit fuel (depth_known m local) after
        → Step limit fuel m (scheduler_handle_timer_tick fuel m (λ _. after) local)
    elsewhere :
        {m m' : Machine}
        → ((c : ℕ) → (m'.cpu c).runq ≡ (m.cpu c).runq)
        → ((t : ℕ) → SameLinks (m.thread t) (m'.thread t))
        → Step limit fuel m m'

  pub data Reach (limit fuel : ℕ) : Machine → Machine → Type 0 where
    start : {m : Machine} → Reach limit fuel m m
    later : {m n o : Machine} → Reach limit fuel m n → Step limit fuel n o → Reach limit fuel m o

module _ {limit fuel : ℕ} (small : limit + 1 < 2 ^ 64) (enough : limit ≤ fuel) where
  mutual
    Step-Sound : {m m' : Machine} → Step limit fuel m m' → Sound limit m → Sound limit m'
    Step-Sound {m = m} (ready last local t target h) k =
        let s : Dispatch = record { machine = m; last_user_thread_cpu = last } in
        mark_thread_ready-Sound small s local t target h.0 (h.1 (target_cpu s local t target)) k
    Step-Sound {m = m} (wake last local t target h) k =
        wake_blocked_thread-Sound small (record { machine = m; last_user_thread_cpu = last }) local
          t target h.0 h.1 k
    Step-Sound {m = m} (schedule last local keep_current known) k =
        schedule_next-Sound small (record { machine = m; last_user_thread_cpu = last }) local
          keep_current known k
    Step-Sound {m = m} (leave t) k = let (q, s, _) = leaves fuel m t enough k in (q, s)
    Step-Sound {m = m} (bind local thread) k = set_current_thread-Sound fuel m local thread enough k
    Step-Sound {m = m} (block local wait queue done) k =
        block_current_thread-Sound fuel m local wait queue done k
    Step-Sound {m = m} (block_unqueued local wait) k = block_unqueued-Sound m local wait k
    Step-Sound {m = m} (exit local exit_status) k =
        mark_current_thread_dying-Sound m local exit_status k
    Step-Sound {m = m} (tick local after r) k =
        timer_tick-Sound small fuel enough m (λ _. after) local
          (λ _ _. Reach-Sound r (depth_known-Sound m local k)) k
    Step-Sound {m = m} {m' = m'} (elsewhere runq links) k = Sound-frame m m' runq links k

    Reach-Sound : {m m' : Machine} → Reach limit fuel m m' → Sound limit m → Sound limit m'
    Reach-Sound start k = k
    Reach-Sound (later r st) k = Step-Sound st (Reach-Sound r k)

  -- For threads numbered below `limit` and with that much fuel: if the run queues are in order at
  -- first, then they still are in every machine that the CPUs reach by steps in any order, with
  -- steps of other CPUs in the middle of a balancing tick: each is linked, counted, and without
  -- a thread twice, and its threads name that CPU as their owner. Steps make ready or wake
  -- only threads in which no CPU idles. No thread stands in the queues of two CPUs, and no
  -- queue's count exceeds `limit`.
  pub run_queues_kept :
      {m m' : Machine}
      → Sound limit m
      → Reach limit fuel m m'
      → (q : ℕ → List ℕ) × IsSound limit m' q
        × ((c d : ℕ) → c ≢ d → All (λ t. NotIn t (q d)) (q c))
        × ((c : ℕ) → (m'.cpu c).runq.length ≤ limit)
  run_queues_kept {m' = m'} k r =
      let (q, s) = Reach-Sound r k in
      (
        q,
        s,
        λ c d ne.
            All-map (λ t. (m'.thread t).run_queue_cpu ≡ some c) (λ t. NotIn t (q d)) (q c)
              (λ t e. not_owned-NotIn t (s.queued d) (λ o. ne (some_inj (sym e ∙ o))))
              (s.queued c).owned,
        λ c. omega (arith, (s.queued c).counted, length-IsSound c s),
      )
