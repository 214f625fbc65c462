-- ===== src/Schedule/Current.antt =====
-- Functions of the scheduler that leave the current thread of every CPU as it is.
use os.Base.{
  ℕ, ◌≡◌, refl, inl, inr, Bool, true, false, Option, none, some, arith, ap, ◌∙◌, if◌then◌else◌,
  Bool-cases,
}
use os.Machine.{Machine, ThreadState, ProcessState, pointer_eq, set_thread}
use os.RunQueue.{
  append_ready_thread_locked, run_queue_append_locked, dequeue_ready_thread, pop_head,
  enqueue_thread_on_cpu, unlink,
}
use os.WaitQueue.{is_dying_or_free}
use os.Wake.{Dispatch, mark_thread_ready}
use os.Wake.Join.{process_state-cpus, with_states}
use os.Wake.Ready.{target_cpu, mark-machine}
use os.Balance.{
  balance_locked, migrated, detach_last_migratable_thread_locked, detach_at, migrate_detached,
  stays_put,
}
use os.Schedule.{
  schedule_next, switched, or_idle, run_next, record_transition, same_thread, not_pending,
  keeps_current,
}

-- No CPU changes its current thread.
abbrev pub SameCurrent : Machine → Machine → Type 0
SameCurrent m m' = (c : ℕ) → (m'.cpu c).current_thread ≡ (m.cpu c).current_thread

append-SameCurrent :
    (m : Machine) (c t : ℕ) → SameCurrent m (append_ready_thread_locked m (some c) (some t))
unfolding append_ready_thread_locked
append-SameCurrent m c t d = ground arith

dequeue-SameCurrent : (m : Machine) (c : ℕ) → SameCurrent m (dequeue_ready_thread m (some c)).0
unfolding dequeue_ready_thread pop_head
dequeue-SameCurrent m c d = go (m.cpu c).runq.head
  where
    at_head : Option ℕ → Machine
    at_head o =
        let r : Machine × Option ℕ = elim o [
          | none ↦ (m, none)
          | some t ↦ (pop_head m c t, some t)
        ] in
        r.0

    go : (o : Option ℕ) → ((at_head o).cpu d).current_thread ≡ (m.cpu d).current_thread
    go none = refl
    go (some t) = ground arith

unlink-SameCurrent :
    (m : Machine) (c : ℕ) (previous : Option ℕ) (t : ℕ) → SameCurrent m (unlink m c previous t)
unfolding unlink
unlink-SameCurrent m c previous t d = ground arith

migrated-SameCurrent :
    (m : Machine) (target donor t now : ℕ) → SameCurrent m (migrated m target donor t now)
unfolding migrated
migrated-SameCurrent m target donor t now d = ground arith ∙ append-SameCurrent m target t d

detach-SameCurrent :
    (m : Machine) (donor : ℕ) (o : Option (Option ℕ × ℕ)) → SameCurrent m (detach_at m donor o).0
detach-SameCurrent m donor none c = refl
detach-SameCurrent m donor (some (previous, t)) c = unlink-SameCurrent m donor previous t c

pub balance_locked-SameCurrent :
    (fuel : ℕ) (m : Machine) (target donor depth now : ℕ) (force : Bool)
    → SameCurrent m (balance_locked fuel m target donor depth force now).0
unfolding balance_locked detach_last_migratable_thread_locked
balance_locked-SameCurrent fuel m target donor depth now force d =
    elim (Bool-cases (stays_put (m.cpu target).runq.length (m.cpu donor).runq.length depth force)) [
      | inl e ↦ rw e refl
      | inr e ↦ rw e (
          found (detach_last_migratable_thread_locked fuel m donor target now)
            (detach-SameCurrent m donor _))
    ]
  where
    found :
        (r : Machine × Option ℕ)
        → SameCurrent m r.0
        → ((migrate_detached r target donor now).0.cpu d).current_thread ≡ (m.cpu d).current_thread
    found (m1, none) k = k d
    found (m1, some t) k = migrated-SameCurrent m1 target donor t now d ∙ k d

states-SameCurrent :
    (m : Machine) (t : ℕ) (state : ThreadState) (process : ProcessState)
    → SameCurrent m (with_states m t state process)
states-SameCurrent m t state process c =
    ap (λ f. (f c).current_thread)
      (process_state-cpus (set_thread m t (record (m.thread t) { state = state })) t process)

enqueue-SameCurrent :
    (m : Machine) (t c : ℕ) → SameCurrent m (enqueue_thread_on_cpu m (some t) (some c)).0
unfolding enqueue_thread_on_cpu run_queue_append_locked
enqueue-SameCurrent m t c d = elim (Bool-cases (pointer_eq (m.cpu c).idle_thread t)) [
  | inl e ↦ rw e refl
  | inr e ↦ rw e (go (m.thread t).run_queue_cpu)
]
  where
    m1 : Machine
    m1 = set_thread m t (record (m.thread t) { scheduler_cpu = some c })

    appended : Option ℕ → Machine
    appended o = elim o [ none ↦ append_ready_thread_locked m1 (some c) (some t) | some _ ↦ m1 ]

    after : (o : Option ℕ) → ((appended o).cpu d).current_thread ≡ (m.cpu d).current_thread
    after none = append-SameCurrent m1 c t d
    after (some _) = refl

    at_owner : Option ℕ → Machine
    at_owner o =
        let r : Machine × Bool = elim o [
          | some _ ↦ (m1, false)
          | none ↦ (run_queue_append_locked m1 (some c) (some t), true)
        ] in
        r.0

    go : (o : Option ℕ) → ((at_owner o).cpu d).current_thread ≡ (m.cpu d).current_thread
    go none = after (m1.thread t).run_queue_cpu
    go (some _) = refl

mark_thread_ready-SameCurrent :
    (s : Dispatch) (local t : ℕ) (target : Option ℕ)
    → SameCurrent s.machine (mark_thread_ready s local (some t) target).machine
mark_thread_ready-SameCurrent s local t target d =
    elim (Bool-cases (is_dying_or_free (s.machine.thread t).state)) [
      | inl e ↦ unfold mark_thread_ready in rw e refl
      | inr e ↦
          let m1 = with_states s.machine t ThreadState.ready ProcessState.ready in
          ap (λ m. (m.cpu d).current_thread) (mark-machine s local t target e)
          ∙ enqueue-SameCurrent m1 t (target_cpu s local t target) d
          ∙ states-SameCurrent s.machine t ThreadState.ready ProcessState.ready d
    ]

switched-SameCurrent :
    (r : Machine × Option ℕ) (local : ℕ) (current : Option ℕ)
    → SameCurrent r.0 (switched r local current).0
switched-SameCurrent (m, taken) local current d = recorded current next ∙ running next
  where
    next : Option ℕ
    next = or_idle m local taken

    running : (o : Option ℕ) → ((run_next m o).cpu d).current_thread ≡ (m.cpu d).current_thread
    running none = refl
    running (some t) = states-SameCurrent m t ThreadState.running ProcessState.running d

    recorded :
        (a b : Option ℕ)
        → ((record_transition (run_next m next) a b).cpu d).current_thread
          ≡ ((run_next m next).cpu d).current_thread
    recorded a b = elim (Bool-cases (same_thread b a)) [ inl e ↦ rw e refl | inr e ↦ rw e refl ]

-- The CPU has not left the stack of its thread when `schedule_next` returns.
pub schedule_next-SameCurrent :
    (s : Dispatch) (local : ℕ) (keep_current : Bool)
    → SameCurrent s.machine (schedule_next s local keep_current).0.machine
unfolding schedule_next
schedule_next-SameCurrent s local keep_current d =
    go (
      if keeps_current s.machine local keep_current current
      then mark_thread_ready s local current (some local)
      else s)
    ∙ kept current
  where
    current : Option ℕ
    current = (s.machine.cpu local).current_thread

    go :
        (s1 : Dispatch)
        → ((switched
              (dequeue_ready_thread (not_pending s1.machine local) (some local))
              local
              current).0.cpu
            d).current_thread
          ≡ (s1.machine.cpu d).current_thread
    go s1 =
        switched-SameCurrent (dequeue_ready_thread (not_pending s1.machine local) (some local))
          local current d
        ∙ dequeue-SameCurrent (not_pending s1.machine local) local d
        ∙ ground arith

    kept :
        (o : Option ℕ)
        → ((if keeps_current s.machine local keep_current o
              then mark_thread_ready s local o (some local)
              else s).machine.cpu
            d).current_thread
          ≡ (s.machine.cpu d).current_thread
    kept none = refl
    kept (some t) = elim (Bool-cases (keeps_current s.machine local keep_current (some t))) [
      | inl e ↦ rw e (mark_thread_ready-SameCurrent s local t (some local) d)
      | inr e ↦ rw e refl
    ]
