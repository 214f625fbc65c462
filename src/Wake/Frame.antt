-- ===== src/Wake/Frame.antt =====
-- What `mark_thread_ready` and `wake_blocked_thread` leave alone.
use os.Base.{
  ℕ, ◌≡◌, refl, ◌≢◌, inl, inr, true, Option, none, some, arith, ap, ◌∙◌, sym, subst, update_self,
  update_ne, false≢true, Bool-cases, Option-cases,
}
use os.Machine.{Machine, Thread, ThreadState, ProcessState, set_thread, pointer_eq}
use os.RunQueue.{enqueue_thread_on_cpu, append_ready_thread_locked}
use os.WaitQueue.{set_process_state, is_dying_process}
use os.RunQueue.Enqueue.{assigned, enqueue_joins}
use os.Wake.{made_ready, made_running}

-- The state and the wait of a thread are as they were.
pub record Unmoved (a b : Thread) : Type 0 where
  pub state : b.state ≡ a.state
  pub wait : b.wait ≡ a.wait
  pub wait_link : b.wait_link ≡ a.wait_link

pub Unmoved-refl : (a : Thread) → Unmoved a a
Unmoved-refl a = record { state = refl; wait = refl; wait_link = refl }

pub Unmoved-trans : {a b c : Thread} → Unmoved a b → Unmoved b c → Unmoved a c
Unmoved-trans f g = record {
  state = g.state ∙ f.state;
  wait = g.wait ∙ f.wait;
  wait_link = g.wait_link ∙ f.wait_link;
}

append-Unmoved :
    (m : Machine) (c t x : ℕ)
    → Unmoved (m.thread x) ((append_ready_thread_locked m (some c) (some t)).thread x)
unfolding append_ready_thread_locked
append-Unmoved m c t x = go (m.cpu c).runq.tail refl
  where
    go :
        (o : Option ℕ)
        → (m.cpu c).runq.tail ≡ o
        → Unmoved (m.thread x) ((append_ready_thread_locked m (some c) (some t)).thread x)
    go none e = record { state = ground arith; wait = ground arith; wait_link = ground arith }
    go (some l) e = record { state = ground arith; wait = ground arith; wait_link = ground arith }

pub self_eq : (t : ℕ) → pointer_eq (some t) t ≡ true
self_eq t = ground arith

assigned-Unmoved : (m : Machine) (c t x : ℕ) → Unmoved (m.thread x) ((assigned m c t).thread x)
assigned-Unmoved m c t x = record {
  state = ground arith;
  wait = ground arith;
  wait_link = ground arith;
}

-- Joining a run queue.
enqueue-Unmoved :
    (m : Machine) (t c x : ℕ)
    → Unmoved (m.thread x) ((enqueue_thread_on_cpu m (some t) (some c)).0.thread x)
unfolding enqueue_thread_on_cpu
enqueue-Unmoved m t c x = elim (Bool-cases (pointer_eq (m.cpu c).idle_thread t)) [
  | inl i ↦ rw i (record { state = ground arith; wait = ground arith; wait_link = ground arith })
  | inr i ↦ elim (Option-cases (m.thread t).run_queue_cpu) [
    | inr (d, e) ↦
        rw (i, e, enqueue_thread_on_cpu)
          (record { state = ground arith; wait = ground arith; wait_link = ground arith })
    | inl e ↦
        let busy : (m.cpu c).idle_thread ≢ some t =
          λ k. false≢true (sym i ∙ ap (λ o. pointer_eq o t) k ∙ self_eq t) in
        subst (λ r. Unmoved (m.thread x) (r.0.thread x)) (sym (enqueue_joins m c t e busy))
          (Unmoved-trans (assigned-Unmoved m c t x) (append-Unmoved (assigned m c t) c t x))
  ]
]

pub process_state-threads :
    (m : Machine) (t : ℕ) (p : ProcessState) → (set_process_state m t p).thread ≡ m.thread
unfolding set_process_state
process_state-threads m t p = elim (Option-cases (m.thread t).process) [
  | inl e ↦ rw (e, set_process_state) refl
  | inr (q, e) ↦ elim (Bool-cases (is_dying_process (m.process q).state)) [
    | inl d ↦ rw (e, d, set_process_state) refl
    | inr d ↦ rw (e, d, set_process_state) refl
  ]
]

-- The thread that is made ready.
pub made_ready_self :
    (m : Machine) (t c : ℕ)
    → Unmoved (record (m.thread t) { state = ThreadState.ready }) ((made_ready m t c).thread t)
made_ready_self m t c =
    let m1 = set_thread m t (record (m.thread t) { state = ThreadState.ready }) in
    let m2 = set_process_state m1 t ProcessState.ready in
    let same : m2.thread t ≡ record (m.thread t) { state = ThreadState.ready } =
      ap (λ f. f t) (process_state-threads m1 t ProcessState.ready)
      ∙ update_self m.thread t (record (m.thread t) { state = ThreadState.ready }) in
    subst (λ a. Unmoved a ((made_ready m t c).thread t)) same (enqueue-Unmoved m2 t c t)

-- The other threads.
pub made_ready-other :
    (m : Machine) (t c x : ℕ) → t ≢ x → Unmoved (m.thread x) ((made_ready m t c).thread x)
made_ready-other m t c x n =
    let m1 = set_thread m t (record (m.thread t) { state = ThreadState.ready }) in
    let m2 = set_process_state m1 t ProcessState.ready in
    let same : m2.thread x ≡ m.thread x =
      ap (λ f. f x) (process_state-threads m1 t ProcessState.ready)
      ∙ update_ne m.thread t x (record (m.thread t) { state = ThreadState.ready }) n in
    subst (λ a. Unmoved a ((made_ready m t c).thread x)) same (enqueue-Unmoved m2 t c x)

pub made_running_self :
    (m : Machine) (t : ℕ)
    → (made_running m t).thread t ≡ record (m.thread t) { state = ThreadState.running }
made_running_self m t =
    let m1 = set_thread m t (record (m.thread t) { state = ThreadState.running }) in
    ap (λ f. f t) (process_state-threads m1 t ProcessState.running)
    ∙ update_self m.thread t (record (m.thread t) { state = ThreadState.running })

pub made_running-other : (m : Machine) (t x : ℕ) → t ≢ x → (made_running m t).thread x ≡ m.thread x
made_running-other m t x n =
    let m1 = set_thread m t (record (m.thread t) { state = ThreadState.running }) in
    ap (λ f. f x) (process_state-threads m1 t ProcessState.running)
    ∙ update_ne m.thread t x (record (m.thread t) { state = ThreadState.running }) n
