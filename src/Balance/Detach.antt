-- ===== src/Balance/Detach.antt =====
-- `detach_last_migratable_thread_locked` on a well-formed queue.
use os.Base.{
  ℕ, ◌≤◌, ◌≡◌, inl, inr, true, false, Option, none, some, List, ◌∷◌, ◌++◌, All, length, last_node,
  or_else-none, walk_lem, sym, ap, ◌∙◌, subst,
}
use os.Machine.{Machine, links}
use os.RunQueue.{unlink}
use os.RunQueue.Inv.{Queued}
use os.Balance.{
  thread_is_migratable, last_candidate, detach_last_migratable_thread_locked, detach_at,
}
use os.Balance.Pick.{last_candidate-Picked, Picked}

-- Either no queued thread may move and nothing changes, or the last one that may is unlinked.
pub data Detached (m : Machine) (donor receiver now : ℕ) (xs : List ℕ) (r : Machine × Option ℕ)
    : Type 0 where
  nothing :
      All (λ x. thread_is_migratable m now receiver x ≡ false) xs
      → r ≡ (m, none)
      → Detached m donor receiver now xs r
  moved :
      (ahead : List ℕ) (t : ℕ) (behind : List ℕ)
      → xs ≡ ahead ++ t ∷ behind
      → thread_is_migratable m now receiver t ≡ true
      → All (λ x. thread_is_migratable m now receiver x ≡ false) behind
      → r ≡ (unlink m donor (last_node ahead) t, some t)
      → Detached m donor receiver now xs r

pub detach-Detached :
    (fuel : ℕ) {m : Machine} (donor receiver now : ℕ) {xs : List ℕ}
    → Queued m donor xs
    → length xs ≤ fuel
    → Detached m donor receiver now xs
        (detach_last_migratable_thread_locked fuel m donor receiver now)
unfolding detach_last_migratable_thread_locked
detach-Detached fuel {m} donor receiver now {xs} q enough =
    subst
      (λ l.
        Detached m donor receiver now xs
          (detach_at m donor (last_candidate (thread_is_migratable m now receiver) none none l)))
      (sym (walk_lem (links m) fuel (m.cpu donor).runq.head xs enough q.linked))
      (go (last_candidate (thread_is_migratable m now receiver) none none xs)
        (last_candidate-Picked (thread_is_migratable m now receiver) none none xs))
  where
    go :
        (o : Option (Option ℕ × ℕ))
        → Picked (thread_is_migratable m now receiver) none none xs o
        → Detached m donor receiver now xs (detach_at m donor o)
    go o (inl (e, a)) = nothing a (ap (detach_at m donor) e)
    go o (inr (ys, t, zs, k, p, a, e)) =
        moved ys t zs k p a
          (ap (detach_at m donor) (e ∙ ap (λ x. some (x, t)) (or_else-none (last_node ys))))
