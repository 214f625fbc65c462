-- ===== src/Wake/Ready.antt =====
-- `mark_thread_ready` and `wake_blocked_thread` for one thread.
use os.Base.{
  ℕ, ◌≡◌, refl, ◌≢◌, ◌⊎◌, inl, inr, false, Option, none, some, if◌then◌else◌, ap, ◌∙◌, sym, subst,
  update_self, update_ne, Bool-cases,
}
use os.Machine.{Thread, ThreadState, pointer_eq}
use os.WaitQueue.{clear_thread_wait, is_dying_or_free, no_wait_state}
use os.Wake.{
  Dispatch, set_machine, select_target_cpu, made_ready, ready_on, mark_thread_ready, made_running,
  wake_blocked_thread,
}
use os.Wake.Frame.{
  Unmoved, Unmoved-refl, made_ready_self, made_ready-other, made_running_self, made_running-other,
}

-- The choice of a CPU changes no thread and no queue.
pub select-machine :
    (s : Dispatch) (local t : ℕ) (target : Option ℕ)
    → (select_target_cpu s local t target).0.machine ≡ s.machine
unfolding select_target_cpu
select-machine s local t (some c) = refl
select-machine s local t none = elim (Bool-cases (s.machine.thread t).user_mode) [
  | inl u ↦ rw u refl
  | inr u ↦ rw u refl
]

abbrev pub target_cpu : Dispatch → ℕ → ℕ → Option ℕ → ℕ
target_cpu s local t target = (select_target_cpu s local t target).1

pub mark-machine :
    (s : Dispatch) (local t : ℕ) (target : Option ℕ)
    → is_dying_or_free (s.machine.thread t).state ≡ false
    → (mark_thread_ready s local (some t) target).machine
      ≡ made_ready s.machine t (target_cpu s local t target)
unfolding mark_thread_ready
mark-machine s local t target alive =
    ap (λ b. (if b then s else ready_on (select_target_cpu s local t target) t).machine) alive
    ∙ ap (λ m. made_ready m t (target_cpu s local t target)) (select-machine s local t target)

abbrev cleared : Dispatch → ℕ → Dispatch
cleared s t = set_machine s (clear_thread_wait s.machine (some t))

-- A thread that has been woken.
pub record IsWoken (a : Thread) : Type 0 where
  pub awake : (a.state ≡ ThreadState.ready) ⊎ (a.state ≡ ThreadState.running)
  pub no_wait : a.wait ≡ no_wait_state
  pub apart : a.wait_link ≡ none

pub IsWoken-later : {a b : Thread} → IsWoken a → Unmoved a b → IsWoken b
IsWoken-later {a} {b} w u = record {
  awake = subst (λ x. (x ≡ ThreadState.ready) ⊎ (x ≡ ThreadState.running)) (sym u.state) w.awake;
  no_wait = u.wait ∙ w.no_wait;
  apart = u.wait_link ∙ w.apart;
}

module _ (s : Dispatch) (local t : ℕ) (target : Option ℕ) where
  abbrev without_wait : Thread
  without_wait = record (s.machine.thread t) { wait = no_wait_state }

  cleared_self : (cleared s t).machine.thread t ≡ without_wait
  unfolding clear_thread_wait
  cleared_self = update_self s.machine.thread t without_wait

  cleared_other : (x : ℕ) → t ≢ x → (cleared s t).machine.thread x ≡ s.machine.thread x
  unfolding clear_thread_wait
  cleared_other x n = update_ne s.machine.thread t x without_wait n

  -- What becomes of the machine.
  wake-machine :
      is_dying_or_free (s.machine.thread t).state ≡ false
      → ((wake_blocked_thread s local (some t) target).machine
          ≡ made_running (cleared s t).machine t)
        ⊎ ((wake_blocked_thread s local (some t) target).machine
            ≡ made_ready (cleared s t).machine t (target_cpu (cleared s t) local t target))
  unfolding wake_blocked_thread
  wake-machine alive = elim (Bool-cases (pointer_eq (s.machine.cpu local).current_thread t)) [
    | inl c ↦ inl (rw c refl)
    | inr c ↦ inr (
        rw c (
          mark-machine (cleared s t) local t target
            (ap (λ a. is_dying_or_free a.state) cleared_self ∙ alive)))
  ]

  pub wake-other :
      is_dying_or_free (s.machine.thread t).state ≡ false
      → (x : ℕ) → t ≢ x
      → Unmoved
          (s.machine.thread x)
          ((wake_blocked_thread s local (some t) target).machine.thread x)
  wake-other alive x n =
      subst (λ a. Unmoved a ((wake_blocked_thread s local (some t) target).machine.thread x))
        (cleared_other x n)
        (elim (wake-machine alive) [
          | inl e ↦
              subst (λ m. Unmoved ((cleared s t).machine.thread x) (m.thread x)) (sym e)
                (subst (Unmoved ((cleared s t).machine.thread x))
                  (sym (made_running-other (cleared s t).machine t x n))
                  (Unmoved-refl ((cleared s t).machine.thread x)))
          | inr e ↦
              subst (λ m. Unmoved ((cleared s t).machine.thread x) (m.thread x)) (sym e)
                (made_ready-other (cleared s t).machine t (target_cpu (cleared s t) local t target)
                  x n)
        ])

  pub wake-IsWoken :
      is_dying_or_free (s.machine.thread t).state ≡ false
      → (s.machine.thread t).wait_link ≡ none
      → IsWoken ((wake_blocked_thread s local (some t) target).machine.thread t)
  wake-IsWoken alive apart = elim (wake-machine alive) [
    | inl e ↦
        subst (λ m. IsWoken (m.thread t)) (sym e)
          (subst IsWoken (sym (made_running_self (cleared s t).machine t)) (record {
            awake = inr refl;
            no_wait = ap (λ a. a.wait) cleared_self;
            apart = ap (λ a. a.wait_link) cleared_self ∙ apart;
          }))
    | inr e ↦
        subst (λ m. IsWoken (m.thread t)) (sym e)
          (IsWoken-later
            (record {
              awake = inl refl;
              no_wait = ap (λ a. a.wait) cleared_self;
              apart = ap (λ a. a.wait_link) cleared_self ∙ apart;
            })
            (made_ready_self (cleared s t).machine t (target_cpu (cleared s t) local t target)))
  ]
