-- ===== src/Schedule/Sound.antt =====
-- When all run queues of a machine are in order, and the changes that they do not see.
use os.Base.{
  ℕ, zero, suc, ◌≤◌, ◌<◌, ◌≡◌, ◌≢◌, ◌⊎◌, inl, inr, List, [], ◌∷◌, ◌++◌, length, All, All-append,
  All-append_left, All-append_right, NotIn, Distinct, Distinct-remove, Distinct-middle,
  length-remove, arith, ap, sym, subst, ℕ_discrete, ◌==◌, if◌then◌else◌, Bool-cases,
}
use os.Machine.{Machine, Thread}
use os.RunQueue.Inv.{Queued, Queued-frame, others-unchanged}

-- A list holds `t`, or not.
pub position : (t : ℕ) (xs : List ℕ) → NotIn t xs ⊎ ((ys zs : List ℕ) × (xs ≡ ys ++ t ∷ zs))
position t [] = inl tt
position t (x ∷ xs) = elim (ℕ_discrete x t) [
  | yes e ↦ inr ([], xs, ap (λ y. y ∷ xs) e)
  | no n ↦ elim (position t xs) [
    | inl k ↦ inl (n, k)
    | inr (ys, zs, e) ↦ inr (x ∷ ys, zs, ap (λ l. x ∷ l) e)
  ]
]

below_last : (n : ℕ) (xs : List ℕ) → NotIn n xs → All (λ x. x < suc n) xs → All (λ x. x < n) xs
below_last n [] k a = tt
below_last n (x ∷ xs) k a = (omega (arith, k.0, a.0), below_last n xs k.1 a.1)

-- Distinct numbers below `n` are at most `n` many.
pub length-Distinct : (n : ℕ) (xs : List ℕ) → Distinct xs → All (λ x. x < n) xs → length xs ≤ n
length-Distinct zero [] d a = omega arith
length-Distinct zero (x ∷ xs) d a = absurd (omega (arith, a.0))
length-Distinct (suc n) xs d a = elim (position n xs) [
  | inl k ↦ omega (arith, length-Distinct n xs d (below_last n xs k a))
  | inr (ys, zs, e) ↦
      let d' : Distinct (ys ++ n ∷ zs) = subst Distinct e d in
      let a' : All (λ x. x < suc n) (ys ++ n ∷ zs) = subst (All (λ x. x < suc n)) e a in
      let (before, after) = Distinct-middle ys n zs d' in
      let low : All (λ x. x < n) (ys ++ zs) =
        All-append (λ x. x < n) ys zs
          (below_last n ys before (All-append_left (λ x. x < suc n) ys (n ∷ zs) a'))
          (below_last n zs after (All-append_right (λ x. x < suc n) ys (n ∷ zs) a').1) in
      omega (
        arith,
        ap length e,
        length-remove ys n zs,
        length-Distinct n (ys ++ zs) (Distinct-remove ys n zs d') low,
      )
]

-- The run queue of every CPU `c` holds the threads `q c`, all of them below `limit`.
pub record IsSound (limit : ℕ) (m : Machine) (q : ℕ → List ℕ) : Type 0 where
  pub queued : (c : ℕ) → Queued m c (q c)
  pub below : (c : ℕ) → All (λ t. t < limit) (q c)

-- Every run queue is in order.
abbrev pub Sound : ℕ → Machine → Type 0
Sound limit m = (q : ℕ → List ℕ) × IsSound limit m q

pub length-IsSound :
    {limit : ℕ} {m : Machine} {q : ℕ → List ℕ} (c : ℕ) → IsSound limit m q → length (q c) ≤ limit
length-IsSound {limit} {m} {q} c s = length-Distinct limit (q c) (s.queued c).distinct (s.below c)

-- The links and the owner of a thread are as they were.
abbrev pub SameLinks : Thread → Thread → Type 0
SameLinks a b = (b.next ≡ a.next) × (b.run_queue_cpu ≡ a.run_queue_cpu)

pub all_links :
    (m m' : Machine)
    → ((x : ℕ) → SameLinks (m.thread x) (m'.thread x))
    → (xs : List ℕ) → All (λ x. SameLinks (m.thread x) (m'.thread x)) xs
all_links m m' h [] = tt
all_links m m' h (x ∷ xs) = (h x, all_links m m' h xs)

-- A change of neither a run queue nor a link.
pub Sound-frame :
    {limit : ℕ} (m m' : Machine)
    → ((c : ℕ) → (m'.cpu c).runq ≡ (m.cpu c).runq)
    → ((x : ℕ) → SameLinks (m.thread x) (m'.thread x))
    → Sound limit m
    → Sound limit m'
Sound-frame m m' runq links (q, s) = (
  q,
  record {
    queued = λ c. Queued-frame (s.queued c) (runq c) (all_links m m' links (q c));
    below = s.below;
  },
)

-- A change of no run queue and of the links of one thread, which is in none.
pub Sound-outside :
    {limit : ℕ} (m m' : Machine) (t : ℕ)
    → ((c : ℕ) → (m'.cpu c).runq ≡ (m.cpu c).runq)
    → ((x : ℕ) → x ≢ t → SameLinks (m.thread x) (m'.thread x))
    → (q : ℕ → List ℕ) → ((c : ℕ) → NotIn t (q c))
    → IsSound limit m q
    → IsSound limit m' q
Sound-outside m m' t runq links q free s = record {
  queued = λ c. Queued-frame (s.queued c) (runq c) (others-unchanged m m' (q c) links (free c));
  below = s.below;
}

-- One queue changes, the others stay.
abbrev pub with_queue : (ℕ → List ℕ) → ℕ → List ℕ → ℕ → List ℕ
with_queue q c xs d = if d == c then xs else q d

pub with_queue-IsSound :
    {limit : ℕ} {m m' : Machine} {q : ℕ → List ℕ} (c : ℕ) (xs : List ℕ)
    → IsSound limit m q
    → Queued m' c xs
    → All (λ t. t < limit) xs
    → ((d : ℕ) → d ≢ c → Queued m' d (q d))
    → IsSound limit m' (with_queue q c xs)
with_queue-IsSound {limit} {m} {m'} {q} c xs s k a others = record {
  queued = λ d. elim (Bool-cases (d == c)) [
    | inl e ↦
        let same : d ≡ c = ground (arith, e) in rw e (subst (λ x. Queued m' x xs) (sym same) k)
    | inr e ↦ rw e (others d (ground (arith, e)))
  ];
  below = λ d. elim (Bool-cases (d == c)) [ inl e ↦ rw e a | inr e ↦ rw e (s.below d) ];
}
