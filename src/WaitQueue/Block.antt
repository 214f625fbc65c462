-- ===== src/WaitQueue/Block.antt =====
-- Blocking the current thread on a completion.
use os.Base.{
  ℕ, ◌≤◌, ◌≡◌, refl, ◌⊎◌, inl, inr, Bool, true, false, Option, none, some, List, [], ◌∷◌, ◌++◌,
  length, walk, Seg-frame, All, NotIn, arith, ap, ◌∙◌, sym, subst, Bool-cases,
}
use os.Machine.{Machine, ThreadState, ThreadWaitReason, ThreadWaitState, ProcessState, wait_links}
use os.WaitQueue.{
  WaitQueue, Completion, wait_queue_enqueue_locked, find_tail, link_behind, blocked,
  set_process_state, block_current_thread, block_current_thread_on_block_io, is_dying_or_free,
  is_dying_process,
}
use os.WaitQueue.Order.{Waiting, wait_queue_enqueue-Waiting}

set_process_state-thread :
    (m : Machine) (t : ℕ) (s : ProcessState) → (set_process_state m t s).thread ≡ m.thread
unfolding set_process_state
set_process_state-thread m t s = go (m.thread t).process refl
  where
    go : (o : Option ℕ) → (m.thread t).process ≡ o → (set_process_state m t s).thread ≡ m.thread
    go none e = rw (e, set_process_state) refl
    go (some p) e = elim (Bool-cases (is_dying_process (m.process p).state)) [
      | inl d ↦ rw (e, d, set_process_state) refl
      | inr d ↦ rw (e, d, set_process_state) refl
    ]

blocked-wait_links :
    (m : Machine) (t : ℕ) (w : ThreadWaitState) (x : ℕ)
    → wait_links (blocked m t w) x ≡ wait_links m x
unfolding blocked
blocked-wait_links m t w x = rw set_process_state-thread (ground arith)

blocked-thread :
    (m : Machine) (t : ℕ) (w : ThreadWaitState)
    → (((blocked m t w).thread t).state ≡ ThreadState.blocked)
      × (((blocked m t w).thread t).wait ≡ w)
unfolding blocked
blocked-thread m t w = rw set_process_state-thread (ground arith, ground arith)

blocked-Waiting :
    (m : Machine) (t : ℕ) (w : ThreadWaitState) (queue : WaitQueue) (xs : List ℕ)
    → Waiting m queue xs
    → Waiting (blocked m t w) queue xs
blocked-Waiting m t w queue xs h = record {
  linked =
      Seg-frame (wait_links m) (wait_links (blocked m t w)) queue.head xs none (same xs) h.linked;
  distinct = h.distinct;
}
  where
    same : (zs : List ℕ) → All (λ x. wait_links (blocked m t w) x ≡ wait_links m x) zs
    same [] = tt
    same (z ∷ zs) = (blocked-wait_links m t w z, same zs)

enqueue-thread :
    (fuel : ℕ) (m : Machine) (queue : WaitQueue) (t x : ℕ)
    → let m' = (wait_queue_enqueue_locked fuel m queue (some t)).0 in
      ((m'.thread x).state ≡ (m.thread x).state) × ((m'.thread x).wait ≡ (m.thread x).wait)
unfolding wait_queue_enqueue_locked
enqueue-thread fuel m queue t x = go queue.head refl
  where
    linked :
        (o : Option ℕ)
        → (((link_behind m o t).thread x).state ≡ (m.thread x).state)
          × (((link_behind m o t).thread x).wait ≡ (m.thread x).wait)
    linked none = (refl, refl)
    linked (some l) = (ground arith, ground arith)

    go :
        (o : Option ℕ)
        → queue.head ≡ o
        → let m' = (wait_queue_enqueue_locked fuel m queue (some t)).0 in
          ((m'.thread x).state ≡ (m.thread x).state) × ((m'.thread x).wait ≡ (m.thread x).wait)
    go none e = rw e (ground arith, ground arith)
    go (some h) e = rw e (linked (find_tail t h (walk (wait_links m) fuel (some h))))

abbrev block_io_wait : ℕ → ThreadWaitState
block_io_wait at = record { reason = ThreadWaitReason.block_io; first = at; second = 0 }

module _ (fuel : ℕ) (m : Machine) (local at t : ℕ) (queue : WaitQueue) (done : Bool)
    (current : (m.cpu local).current_thread ≡ some t)
    (alive : is_dying_or_free (m.thread t).state ≡ false) where
  skips :
      done ≡ true
      → block_current_thread fuel m local (block_io_wait at) queue done ≡ ((m, queue), false)
  unfolding block_current_thread
  skips d = rw (current, alive, d, block_current_thread) refl

  waits :
      done ≡ false
      → block_current_thread fuel m local (block_io_wait at) queue done
        ≡ (wait_queue_enqueue_locked fuel (blocked m t (block_io_wait at)) queue (some t), true)
  unfolding block_current_thread
  waits d = rw (current, alive, d, block_current_thread) refl

-- What `block_current_thread_on_block_io` does for a running thread that is neither dying nor
-- free and that does not wait on the completion yet, with fuel for the threads that do: where
-- the completion is done already, nothing changes and the thread goes on; where it is not, the
-- thread is blocked on that completion, as the last of those that wait for it.
pub block_current_thread_on_block_io_lem :
    {m : Machine} (fuel local at t : ℕ) (completion : Completion) (xs : List ℕ)
    → (m.cpu local).current_thread ≡ some t
    → is_dying_or_free (m.thread t).state ≡ false
    → Waiting m completion.waiters xs
    → NotIn t xs
    → length xs ≤ fuel
    → let (m', completion') = block_current_thread_on_block_io fuel m local at completion in
      ((completion.done ≡ true) × (m' ≡ m) × (completion' ≡ completion))
      ⊎ ((completion.done ≡ false)
          × (completion'.done ≡ false)
          × Waiting m' completion'.waiters (xs ++ t ∷ [])
          × ((m'.thread t).state ≡ ThreadState.blocked)
          × ((m'.thread t).wait
              ≡ record { reason = ThreadWaitReason.block_io; first = at; second = 0 }))
unfolding block_current_thread_on_block_io
block_current_thread_on_block_io_lem {m} fuel local at t completion xs current alive w n enough =
    elim (Bool-cases completion.done) [
      | inl d ↦
          let e = skips fuel m local at t completion.waiters completion.done current alive d in
          inl (d, ap (λ r. r.0.0) e, ap (λ r. record completion { waiters = r.0.1 }) e)
      | inr d ↦
          let e = waits fuel m local at t completion.waiters completion.done current alive d in
          let kept = enqueue-thread fuel entered completion.waiters t t in
          let told = blocked-thread m t (block_io_wait at) in
          inr (
            d,
            d,
            subst (λ r. Waiting r.0.0 r.0.1 (xs ++ t ∷ [])) (sym e)
                (wait_queue_enqueue-Waiting fuel t xs
                  (blocked-Waiting m t (block_io_wait at) completion.waiters xs w) n enough),
            ap (λ r. (r.0.0.thread t).state) e ∙ kept.0 ∙ told.0,
            ap (λ r. (r.0.0.thread t).wait) e ∙ kept.1 ∙ told.1,
          )
    ]
  where
    entered : Machine
    entered = blocked m t (block_io_wait at)
