-- ===== src/Base/Chain.antt =====
-- Singly linked lists in memory: `Seg next p xs e` says that following `next` from the pointer `p`
-- visits the nodes `xs` and arrives at `e`. `none` is the null pointer.
use Prim.Native.Nat.{ℕ, zero, suc, ◌+◌, ◌≤◌}
use mathlib.Core.Path.{◌≡◌, refl, ap, ◌∙◌, sym, subst}
use mathlib.Core.Logic.{◌≢◌, ◌⊎◌, inl, inr}
use mathlib.Core.Option.{Option, none, some}
use mathlib.Core.List.{List, [], ◌∷◌, ◌++◌}
use native.Mathlib.Omega.{arith}
use os.Base.Tests.{some_inj, none-ne-some}
use os.Base.Lists.{length}

abbrev pub Links : Type 0
Links = ℕ → Option ℕ

abbrev pub Seg : Links → Option ℕ → List ℕ → Option ℕ → Type 0
Seg next p [] e = p ≡ e
Seg next p (x ∷ xs) e = (p ≡ some x) × Seg next (next x) xs e

abbrev pub All {ℓ κ} : {A : Type ℓ} → (A → Type κ) → List A → Type κ
All P [] = Unit
All P (x ∷ xs) = P x × All P xs

abbrev pub NotIn : ℕ → List ℕ → Type 0
NotIn t xs = All (λ x. x ≢ t) xs

abbrev pub Distinct : List ℕ → Type 0
Distinct [] = Unit {0}
Distinct (x ∷ xs) = NotIn x xs × Distinct xs

-- The last node, which a tail pointer names.
abbrev pub last_node : List ℕ → Option ℕ
last_node [] = none
last_node (x ∷ xs) = elim (last_node xs) [ none ↦ some x | some y ↦ some y ]

-- The nodes that `for(t = p; t != null; t = t->next)` visits; at most `fuel` of them.
pub walk : Links → ℕ → Option ℕ → List ℕ
walk next zero p = []
walk next (suc fuel) none = []
walk next (suc fuel) (some t) = t ∷ walk next fuel (next t)

pub walk_lem :
    (next : Links) (fuel : ℕ) (p : Option ℕ) (xs : List ℕ)
    → length xs ≤ fuel
    → Seg next p xs none
    → walk next fuel p ≡ xs
unfolding walk
walk_lem next zero p [] h s = refl
walk_lem next zero p (x ∷ xs) h s = absurd (omega arith)
walk_lem next (suc fuel) none [] h s = refl
walk_lem next (suc fuel) none (x ∷ xs) h s = cc s.0
walk_lem next (suc fuel) (some t) [] h s = cc s
walk_lem next (suc fuel) (some t) (x ∷ xs) h s =
    let e : t ≡ x = cc s.0 in
    rw e (ap (λ l. x ∷ l) (walk_lem next fuel (next x) xs (omega arith) s.1))

pub All-map {ℓ κ μ} :
    {A : Type ℓ} (P : A → Type κ) (Q : A → Type μ) (xs : List A)
    → ((x : A) → P x → Q x)
    → All P xs
    → All Q xs
All-map P Q [] f a = tt
All-map P Q (x ∷ xs) f a = (f x a.0, All-map P Q xs f a.1)

pub All-append {ℓ κ} :
    {A : Type ℓ} (P : A → Type κ) (xs ys : List A) → All P xs → All P ys → All P (xs ++ ys)
All-append P [] ys a b = b
All-append P (x ∷ xs) ys a b = (a.0, All-append P xs ys a.1 b)

pub All-append_left {ℓ κ} :
    {A : Type ℓ} (P : A → Type κ) (xs ys : List A) → All P (xs ++ ys) → All P xs
All-append_left P [] ys a = tt
All-append_left P (x ∷ xs) ys a = (a.0, All-append_left P xs ys a.1)

pub All-append_right {ℓ κ} :
    {A : Type ℓ} (P : A → Type κ) (xs ys : List A) → All P (xs ++ ys) → All P ys
All-append_right P [] ys a = a
All-append_right P (x ∷ xs) ys a = All-append_right P xs ys a.1

-- A walk over nodes whose links did not change is the same walk.
pub Seg-frame :
    (next next' : Links) (p : Option ℕ) (xs : List ℕ) (e : Option ℕ)
    → All (λ x. next' x ≡ next x) xs
    → Seg next p xs e
    → Seg next' p xs e
Seg-frame next next' p [] e a s = s
Seg-frame next next' p (x ∷ xs) e a s = (s.0, rw a.0 (Seg-frame next next' (next x) xs e a.1 s.1))

pub Seg-append :
    (next : Links) (p : Option ℕ) (xs : List ℕ) (q : Option ℕ) (ys : List ℕ) (e : Option ℕ)
    → Seg next p xs q
    → Seg next q ys e
    → Seg next p (xs ++ ys) e
Seg-append next p [] q ys e s t = rw s t
Seg-append next p (x ∷ xs) q ys e s t = (s.0, Seg-append next (next x) xs q ys e s.1 t)

pub Seg-split :
    (next : Links) (p : Option ℕ) (xs : List ℕ) (y : ℕ) (ys : List ℕ) (e : Option ℕ)
    → Seg next p (xs ++ y ∷ ys) e
    → Seg next p xs (some y) × Seg next (next y) ys e
Seg-split next p [] y ys e s = (s.0, s.1)
Seg-split next p (x ∷ xs) y ys e s =
    let r = Seg-split next (next x) xs y ys e s.1 in ((s.0, r.0), r.1)

pub Distinct-append_one : (xs : List ℕ) (t : ℕ) → Distinct xs → NotIn t xs → Distinct (xs ++ t ∷ [])
Distinct-append_one [] t d n = (tt, tt)
Distinct-append_one (x ∷ xs) t d n = (
  All-append (λ y. y ≢ x) xs (t ∷ []) d.0 (λ e. n.0 (sym e), tt),
  Distinct-append_one xs t d.1 n.1,
)

pub Distinct-remove :
    (xs : List ℕ) (t : ℕ) (ys : List ℕ) → Distinct (xs ++ t ∷ ys) → Distinct (xs ++ ys)
Distinct-remove [] t ys d = d.1
Distinct-remove (x ∷ xs) t ys d = (
  All-append (λ y. y ≢ x) xs ys (All-append_left (λ y. y ≢ x) xs (t ∷ ys) d.0)
      (All-append_right (λ y. y ≢ x) xs (t ∷ ys) d.0).1,
  Distinct-remove xs t ys d.1,
)

-- In a list without repetition the middle node occurs on neither side.
pub Distinct-middle :
    (xs : List ℕ) (t : ℕ) (ys : List ℕ) → Distinct (xs ++ t ∷ ys) → NotIn t xs × NotIn t ys
Distinct-middle [] t ys d = (tt, d.0)
Distinct-middle (x ∷ xs) t ys d =
    let r = Distinct-middle xs t ys d.1 in
    ((λ e. (All-append_right (λ y. y ≢ x) xs (t ∷ ys) d.0).0 (sym e), r.0), r.1)

pub last_node-append_one : (xs : List ℕ) (t : ℕ) → last_node (xs ++ t ∷ []) ≡ some t
last_node-append_one [] t = refl
last_node-append_one (x ∷ xs) t = rw (last_node-append_one xs t)

pub last_node-append_cons :
    (xs : List ℕ) (y : ℕ) (ys : List ℕ) → last_node (xs ++ y ∷ ys) ≡ last_node (y ∷ ys)
last_node-append_cons [] y ys = refl
last_node-append_cons (x ∷ xs) y ys = rw (last_node-append_cons xs y ys) (ground (arith))

-- A list is empty or ends in a last node.
pub snoc_view : (xs : List ℕ) → (xs ≡ []) ⊎ ((ys : List ℕ) × (l : ℕ) × (xs ≡ ys ++ l ∷ []))
snoc_view [] = inl refl
snoc_view (x ∷ xs) = elim (snoc_view xs) [
  | inl e ↦ inr ([], x, ap (λ l. x ∷ l) e)
  | inr (ys, l, e) ↦ inr (x ∷ ys, l, ap (λ r. x ∷ r) e)
]

pub All-last {κ} : (P : ℕ → Type κ) (xs : List ℕ) (z : ℕ) → All P xs → last_node xs ≡ some z → P z
All-last P xs z a e = elim (snoc_view xs) [
  | inl k ↦ absurd (none-ne-some (sym (ap last_node k) ∙ e))
  | inr (ys, l, k) ↦
      let h : l ≡ z = some_inj (sym (last_node-append_one ys l) ∙ sym (ap last_node k) ∙ e) in
      subst P h (All-append_right P ys (l ∷ []) (subst (All P) k a)).0
]

pub length-remove :
    (xs : List ℕ) (t : ℕ) (ys : List ℕ) → length (xs ++ t ∷ ys) ≡ length (xs ++ ys) + 1
length-remove [] t ys = omega arith
length-remove (x ∷ xs) t ys = omega (arith, length-remove xs t ys)

-- The first pointer, or the second where it is null.
abbrev pub or_else : Option ℕ → Option ℕ → Option ℕ
or_else none p = p
or_else (some x) p = some x

pub or_else-none : (o : Option ℕ) → or_else o none ≡ o
or_else-none none = refl
or_else-none (some x) = refl

pub or_else-cons :
    (x : ℕ) (ys : List ℕ) (p : Option ℕ)
    → or_else (last_node ys) (some x) ≡ or_else (last_node (x ∷ ys)) p
or_else-cons x ys p = ground arith
