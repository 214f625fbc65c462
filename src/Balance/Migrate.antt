-- ===== src/Balance/Migrate.antt =====
-- What one balancing round does to the run queues.
use os.Base.{
  ℕ, ◌+◌, ◌≤◌, ◌<◌, ◌^◌, ◌≡◌, refl, ◌≢◌, ◌⊎◌, inl, inr, Bool, true, false, Option, none, some, List,
  [], ◌∷◌, ◌++◌, All, length, last_node, arith, sym, ◌∙◌, subst, Bool-cases, false≢true,
  All-append_right,
}
use os.Machine.{Machine}
use os.RunQueue.{unlink, append_ready_thread_locked}
use os.RunQueue.Inv.{Queued, Queued-frame}
use os.RunQueue.Append.{append-Queued, append-Queued_other}
use os.RunQueue.Remove.{unlink-Queued, unlink-Queued_other, unlink-free}
use os.Balance.{
  thread_is_migratable, detach_last_migratable_thread_locked, migrated, migrate_detached, stays_put,
  balance_locked,
}
use os.Balance.Detach.{detach-Detached, Detached, nothing, moved}

-- The queues of all CPUs: `q d` is the queue of the CPU at address `d`.
abbrev pub Queues : Machine → (ℕ → List ℕ) → Type 0
Queues m q = (d : ℕ) → Queued m d (q d)

-- One thread went from `donor` to the end of the queue of `target`: the last thread of the donor's
-- queue that may run there, from a queue longer by two or more. Every other queue is as it was.
pub record Stolen (m : Machine) (q : ℕ → List ℕ) (target donor now : ℕ) (m' : Machine)
    : Type 0 where
  pub ahead : List ℕ
  pub thread : ℕ
  pub behind : List ℕ
  pub other : donor ≢ target
  pub donor_was : q donor ≡ ahead ++ thread ∷ behind
  pub longer : length (q target) + 1 < length (q donor)
  pub may_move : thread_is_migratable m now target thread ≡ true
  pub last : All (λ x. thread_is_migratable m now target x ≡ false) behind
  pub donor_is : Queued m' donor (ahead ++ behind)
  pub target_is : Queued m' target (q target ++ thread ∷ [])
  pub others : (d : ℕ) → d ≢ donor → d ≢ target → Queued m' d (q d)
  pub home : (m'.thread thread).scheduler_cpu ≡ some target
  pub stamped : (m'.thread thread).last_migration_tick ≡ now

module _ (m : Machine) (target donor t now : ℕ) where
  joined : Machine
  joined = append_ready_thread_locked m (some target) (some t)

  migrated_facts :
      (d x : ℕ)
      → (((migrated m target donor t now).cpu d).runq ≡ (joined.cpu d).runq)
        × (((migrated m target donor t now).thread x).next ≡ (joined.thread x).next)
        × (((migrated m target donor t now).thread x).run_queue_cpu
            ≡ (joined.thread x).run_queue_cpu)
  unfolding migrated joined
  migrated_facts d x = (ground arith, ground arith, ground arith)

  migrated_marks :
      (((migrated m target donor t now).thread t).scheduler_cpu ≡ some target)
      × (((migrated m target donor t now).thread t).last_migration_tick ≡ now)
  unfolding migrated
  migrated_marks = (ground arith, ground arith)

  migrated-Queued :
      (d : ℕ) (ys : List ℕ) → Queued joined d ys → Queued (migrated m target donor t now) d ys
  migrated-Queued d ys q = Queued-frame q (migrated_facts d 0).0 (same ys)
    where
      same :
          (zs : List ℕ)
          → All
              (λ x.
                (((migrated m target donor t now).thread x).next ≡ (joined.thread x).next)
                × (((migrated m target donor t now).thread x).run_queue_cpu
                    ≡ (joined.thread x).run_queue_cpu))
              zs
      same [] = tt
      same (z ∷ zs) = (((migrated_facts d z).1, (migrated_facts d z).2), same zs)

stays_put-false :
    (a b k : ℕ) (force : Bool) → a + 1 < 2 ^ 64 → stays_put a b k force ≡ false → a + 1 < b
unfolding stays_put
stays_put-false a b k force h e = ground arith

module _ (fuel : ℕ) {m : Machine} {q : ℕ → List ℕ} (target donor now : ℕ) where
  steal :
      Queues m q
      → ((d : ℕ) → length (q d) + 1 < 2 ^ 64)
      → donor ≢ target
      → length (q target) + 1 < length (q donor)
      → (ahead : List ℕ) (t : ℕ) (behind : List ℕ) → q donor ≡ ahead ++ t ∷ behind
      → thread_is_migratable m now target t ≡ true
      → All (λ x. thread_is_migratable m now target x ≡ false) behind
      → Stolen m q target donor now
          (migrated (unlink m donor (last_node ahead) t) target donor t now)
  unfolding joined
  steal qs fits ne longer ahead t behind was may last = record {
    ahead = ahead;
    thread = t;
    behind = behind;
    other = ne;
    donor_was = was;
    longer = longer;
    may_move = may;
    last = last;
    donor_is =
        migrated-Queued m1 target donor t now donor (ahead ++ behind)
          (append-Queued_other t target_left (unlink-Queued ahead t behind at_donor) ne free);
    target_is =
        migrated-Queued m1 target donor t now target (q target ++ t ∷ [])
          (append-Queued t target_left free (fits target));
    others = λ d nd nt. migrated-Queued m1 target donor t now d (q d) (
        append-Queued_other t target_left (unlink-Queued_other ahead t behind at_donor (qs d) nd) nt
          free);
    home = (migrated_marks m1 target donor t now).0;
    stamped = (migrated_marks m1 target donor t now).1;
  }
    where
      m1 : Machine
      m1 = unlink m donor (last_node ahead) t

      at_donor : Queued m donor (ahead ++ t ∷ behind)
      at_donor = subst (Queued m donor) was (qs donor)

      target_left : Queued m1 target (q target)
      target_left = unlink-Queued_other ahead t behind at_donor (qs target) (λ e. ne (sym e))

      free : (m1.thread t).run_queue_cpu ≡ none
      free = (unlink-free m donor (last_node ahead) t).1

  -- With both locks held: nothing changes, or one thread is stolen.
  pub balance_locked_lem :
      (target_depth : ℕ) (force : Bool)
      → Queues m q
      → ((d : ℕ) → length (q d) + 1 < 2 ^ 64)
      → length (q donor) ≤ fuel
      → donor ≢ target
      → let (m', moved_one) = balance_locked fuel m target donor target_depth force now in
        ((moved_one ≡ false) × (m' ≡ m)) ⊎ ((moved_one ≡ true) × Stolen m q target donor now m')
  unfolding balance_locked
  balance_locked_lem target_depth force qs fits enough ne =
      elim (Bool-cases
        (stays_put (m.cpu target).runq.length (m.cpu donor).runq.length target_depth force)) [
          | inl e ↦ rw e (inl (refl, refl))
          | inr e ↦ rw e (
              go (detach_last_migratable_thread_locked fuel m donor target now)
                (detach-Detached fuel donor target now (qs donor) enough) (gap e))
        ]
    where
      gap :
          stays_put (m.cpu target).runq.length (m.cpu donor).runq.length target_depth force ≡ false
          → length (q target) + 1 < length (q donor)
      gap e = omega (
        arith,
        stays_put-false (m.cpu target).runq.length (m.cpu donor).runq.length target_depth force
            (omega (arith, (qs target).counted, fits target)) e,
        (qs target).counted,
        (qs donor).counted,
      )

      go :
          (r : Machine × Option ℕ)
          → Detached m donor target now (q donor) r
          → length (q target) + 1 < length (q donor)
          → (((migrate_detached r target donor now).1 ≡ false)
              × ((migrate_detached r target donor now).0 ≡ m))
            ⊎ (((migrate_detached r target donor now).1 ≡ true)
                × Stolen m q target donor now (migrate_detached r target donor now).0)
      go r (nothing a e) longer = rw e (inl (refl, refl))
      go r (moved ahead t behind was may last e) longer =
          rw e (inr (refl, steal qs fits ne longer ahead t behind was may last))

  -- A forced round with both locks held, on well-formed queues and with fuel for the donor's,
  -- moves a thread whenever the donor's queue is longer by two or more and holds a thread that
  -- may run on the target.
  pub balance_locked_moves :
      (target_depth : ℕ) (ahead : List ℕ) (t : ℕ) (behind : List ℕ)
      → Queues m q
      → length (q donor) + 1 < 2 ^ 64
      → length (q donor) ≤ fuel
      → length (q target) + 1 < length (q donor)
      → q donor ≡ ahead ++ t ∷ behind
      → thread_is_migratable m now target t ≡ true
      → (balance_locked fuel m target donor target_depth true now).1 ≡ true
  unfolding balance_locked stays_put
  balance_locked_moves target_depth ahead t behind qs fits enough longer was may = rw moves (
      go (detach_last_migratable_thread_locked fuel m donor target now)
        (detach-Detached fuel donor target now (qs donor) enough))
    where
      moves :
          stays_put (m.cpu target).runq.length (m.cpu donor).runq.length target_depth true ≡ false
      moves = ground (arith, (qs target).counted, (qs donor).counted)

      go :
          (r : Machine × Option ℕ)
          → Detached m donor target now (q donor) r
          → (migrate_detached r target donor now).1 ≡ true
      go r (nothing a e) = absurd (
          false≢true (
            sym
              (All-append_right (λ x. thread_is_migratable m now target x ≡ false) ahead
                (t ∷ behind)
                (subst (All (λ x. thread_is_migratable m now target x ≡ false)) was a)).0
            ∙ may))
      go r (moved ahead' t' behind' was' may' last e) = rw e
