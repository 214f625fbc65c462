-- ===== src/Schedule/Woken.antt =====
-- Waking the threads of a completion, and the run queues that they join.
use os.Base.{ℕ, ◌≡◌, ◌≢◌, ◌⊎◌, some, List, ◌∷◌, ◌++◌, All}
use os.Machine.{Machine}
use os.Schedule.Sound.{IsSound}

-- The wake-up of `t` leaves the threads of the CPUs and the owners of the other threads alone.
record Kept (m m' : Machine) (t : ℕ) : Type 0 where
  idle : (c : ℕ) → (m'.cpu c).idle_thread ≡ (m.cpu c).idle_thread
  current : (c : ℕ) → (m'.cpu c).current_thread ≡ (m.cpu c).current_thread
  owner : (x : ℕ) → x ≢ t → (m'.thread x).run_queue_cpu ≡ (m.thread x).run_queue_cpu

-- Queues only grow, at their ends.
abbrev pub Extends : (ℕ → List ℕ) → (ℕ → List ℕ) → Type 0
Extends q q' = (c : ℕ) → ((zs : List ℕ) × (q' c ≡ q c ++ zs))

-- The thread runs on the CPU `local`, or stands in a run queue.
abbrev pub IsPlaced : Machine → ℕ → (ℕ → List ℕ) → ℕ → Type 0
IsPlaced m local q t =
    ((m.cpu local).current_thread ≡ some t) ⊎ ((c : ℕ) × ((ys zs : List ℕ) × (q c ≡ ys ++ t ∷ zs)))

-- From `m` to `m'` the thread `t` has been woken on the CPU `local`, and the queues have grown.
record Joined (limit : ℕ) (m m' : Machine) (local : ℕ) (q : ℕ → List ℕ) (t : ℕ) : Type 0 where
  queues : ℕ → List ℕ
  sound : IsSound limit m' queues
  grown : Extends q queues
  placed : IsPlaced m local queues t
  kept : Kept m m' t

-- The queues behind the wake-up of the threads `xs`.
abbrev pub Placed : ℕ → Machine → ℕ → (ℕ → List ℕ) → List ℕ → Machine → Type 0
Placed limit m local q xs m' =
    (q' : ℕ → List ℕ) × IsSound limit m' q' × Extends q q' × All (IsPlaced m local q') xs
