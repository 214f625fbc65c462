-- ===== src/WaitQueue/Tests.antt =====
-- A wait queue of two threads, and a completion that is not done.
use os.Base.{ℕ, ◌≡◌, refl, ◌⊎◌, true, false, none, some, List, [], ◌∷◌, arith}
use os.Machine.{Machine, ThreadState, ThreadWaitReason, set_thread, set_cpu}
use os.RunQueue.Tests.{two_cpus}
use os.WaitQueue.{WaitQueue, Completion, block_current_thread_on_block_io}
use os.WaitQueue.Order.{Waiting}
use os.WaitQueue.Block.{block_current_thread_on_block_io_lem}

-- The threads 20 and 21 wait; CPU 1 runs thread 10.
abbrev pub machine : Machine
machine =
    let m = set_cpu two_cpus 1 (record (two_cpus.cpu 1) { current_thread = some 10 }) in
    let m1 = set_thread m 20 (record (m.thread 20) { wait_link = some 21 }) in
    set_thread m1 21 (record (m1.thread 21) { wait_link = none })

abbrev pub queue : WaitQueue
queue = record { head = some 20 }

abbrev pub completion : Completion
completion = record { waiters = queue; done = false }

abbrev two : List ℕ
two = 20 ∷ 21 ∷ []

pub queue-Waiting : Waiting machine queue (20 ∷ 21 ∷ [])
queue-Waiting = record { linked = (refl, (refl, refl)); distinct = ((omega arith, tt), (tt, tt)) }

block_current_thread_on_block_io_lem_example :
    let (m', completion') = block_current_thread_on_block_io 2 machine 1 0x5000 completion in
    ((false ≡ true) × (m' ≡ machine) × (completion' ≡ completion))
    ⊎ ((false ≡ false)
        × (completion'.done ≡ false)
        × Waiting m' completion'.waiters (20 ∷ 21 ∷ 10 ∷ [])
        × ((m'.thread 10).state ≡ ThreadState.blocked)
        × ((m'.thread 10).wait
            ≡ record { reason = ThreadWaitReason.block_io; first = 0x5000; second = 0 }))
block_current_thread_on_block_io_lem_example =
    block_current_thread_on_block_io_lem 2 1 0x5000 10 completion (20 ∷ 21 ∷ []) refl refl
      queue-Waiting (omega arith, (omega arith, tt)) (omega arith)
