-- ===== src/Base/Store.antt =====
-- A store of values under numeric keys, as an association list: `lookup`, `insert` (which replaces
-- in place), the sum of a measure over the values, and a predicate that holds of every entry.
use Prim.Native.Nat.{ℕ, ◌+◌, ◌*◌, ◌≤◌}
use mathlib.Core.Path.{◌≡◌, refl, sym, ap, ◌∙◌}
use mathlib.Core.Logic.{◌≢◌, ◌⊎◌, inl, inr}
use mathlib.Core.Option.{Option, none, some}
use mathlib.Core.List.{List, [], ◌∷◌}
use native.Mathlib.Omega.{arith}
use ascertainty_contracts.Base.Tests.{◌==◌, if◌then◌else◌, Option-cases, Bool-cases, ==→eq}

abbrev pub Store {ℓ} : Type ℓ → Type ℓ
Store V = List (ℕ × V)

module _ {ℓ} {V : Type ℓ} where
  unfoldable pub lookup : ℕ → Store V → Option V
  lookup k [] = none
  lookup k ((j, v) ∷ d) = if k == j then some v else lookup k d

  unfoldable pub insert : ℕ → V → Store V → Store V
  insert k v [] = (k, v) ∷ []
  insert k v ((j, w) ∷ d) = if k == j then (k, v) ∷ d else (j, w) ∷ insert k v d

  unfoldable pub sum_by : (V → ℕ) → Store V → ℕ
  sum_by f [] = 0
  sum_by f ((j, w) ∷ d) = f w + sum_by f d

  abbrev pub All {κ} : (ℕ → V → Type κ) → Store V → Type κ
  All P [] = Unit
  All P ((j, w) ∷ d) = P j w × All P d

  pub lookup-insert :
      (j k : ℕ) (v : V) (d : Store V)
      → lookup j (insert k v d) ≡ (if j == k then some v else lookup j d)
  unfolding lookup insert
  lookup-insert j k v [] = refl
  lookup-insert j k v ((i, w) ∷ d) = ground (arith, lookup-insert j k v d)

  pub lookup-insert_self : (k : ℕ) (v : V) (d : Store V) → lookup k (insert k v d) ≡ some v
  lookup-insert_self k v d = ground (arith, lookup-insert k k v d)

  pub lookup-insert_ne :
      (j k : ℕ) (v : V) (d : Store V) → j ≢ k → lookup j (insert k v d) ≡ lookup j d
  lookup-insert_ne j k v d h = ground (arith, lookup-insert j k v d)

  pub sum_by-insert_old :
      (f : V → ℕ) (k : ℕ) (v w : V) (d : Store V)
      → lookup k d ≡ some w
      → sum_by f (insert k v d) + f w ≡ sum_by f d + f v
  unfolding lookup insert sum_by
  sum_by-insert_old f k v w [] h = cc
  sum_by-insert_old f k v w ((i, x) ∷ d) h = ground (arith, sum_by-insert_old f k v w d)

  pub sum_by-insert_new :
      (f : V → ℕ) (k : ℕ) (v : V) (d : Store V)
      → lookup k d ≡ none
      → sum_by f (insert k v d) ≡ sum_by f d + f v
  unfolding lookup insert sum_by
  sum_by-insert_new f k v [] h = omega arith
  sum_by-insert_new f k v ((i, x) ∷ d) h = ground (arith, sum_by-insert_new f k v d)

  -- A write that neither removes nor adds weight.
  pub sum_by-insert_zero :
      (f : V → ℕ) (k : ℕ) (v : V) (d : Store V)
      → ((w : V) → lookup k d ≡ some w → f w ≡ 0)
      → f v ≡ 0
      → sum_by f (insert k v d) ≡ sum_by f d
  sum_by-insert_zero f k v d old new = elim (Option-cases (lookup k d)) [
    | inl e ↦ omega (arith, sum_by-insert_new f k v d e)
    | inr (w, e) ↦ omega (arith, sum_by-insert_old f k v w d e, old w e)
  ]

  -- An entry that is found after a write is the one written, or was there.
  pub lookup-insert_cases :
      (j k : ℕ) (v w : V) (d : Store V)
      → lookup j (insert k v d) ≡ some w
      → ((j ≡ k) × (w ≡ v)) ⊎ ((j ≢ k) × (lookup j d ≡ some w))
  lookup-insert_cases j k v w d h = elim (Bool-cases (j == k)) [
    | inl e ↦
        inl
          (==→eq j k e, cc (h, lookup-insert j k v d, ap (λ b. if b then some v else lookup j d) e))
    | inr e ↦ inr (
      ground arith,
      sym (lookup-insert j k v d ∙ ap (λ b. if b then some v else lookup j d) e) ∙ h,
    )
  ]

  -- One value is at most the sum.
  pub sum_by-lookup :
      (f : V → ℕ) (k : ℕ) (w : V) (d : Store V) → lookup k d ≡ some w → f w ≤ sum_by f d
  unfolding lookup sum_by
  sum_by-lookup f k w [] h = cc
  sum_by-lookup f k w ((i, x) ∷ d) h = ground (arith, sum_by-lookup f k w d)

  -- A linear bound on each value bounds the sums.
  pub sum_by-le-linear :
      (f g h : V → ℕ) (c : ℕ) (d : Store V)
      → ((v : V) → f v ≤ g v + h v * c)
      → sum_by f d ≤ sum_by g d + sum_by h d * c
  unfolding sum_by
  sum_by-le-linear f g h c [] e = omega arith
  sum_by-le-linear f g h c ((i, x) ∷ d) e = omega (arith, e x, sum_by-le-linear f g h c d e)

  -- Values scaled by `c` stay below others, and so do the sums.
  pub sum_by_scaled :
      (g h : V → ℕ) (c : ℕ) (d : Store V) → ((v : V) → h v * c ≤ g v) → sum_by h d * c ≤ sum_by g d
  unfolding sum_by
  sum_by_scaled g h c [] e = omega arith
  sum_by_scaled g h c ((i, x) ∷ d) e = grind (arith, e x, sum_by_scaled g h c d e)

  pub sum_by_zero : (f : V → ℕ) (d : Store V) → All (λ j v. f v ≡ 0) d → sum_by f d ≡ 0
  unfolding sum_by
  sum_by_zero f [] h = refl
  sum_by_zero f ((i, x) ∷ d) h = omega (arith, h.0, sum_by_zero f d h.1)

module _ {ℓ κ} {V : Type ℓ} where
  pub All-insert :
      (P : ℕ → V → Type κ) (k : ℕ) (v : V) (d : Store V) → All P d → P k v → All P (insert k v d)
  unfolding insert
  All-insert P k v [] a p = (p, tt)
  All-insert P k v ((i, x) ∷ d) a p = ground (arith, All-insert P k v d a.1 p)

  pub All-mono :
      (P Q : ℕ → V → Type κ) (d : Store V) → ((j : ℕ) (v : V) → P j v → Q j v) → All P d → All Q d
  All-mono P Q [] f a = tt
  All-mono P Q ((i, x) ∷ d) f a = (f i x a.0, All-mono P Q d f a.1)

  pub All-lookup :
      (P : ℕ → V → Type κ) (k : ℕ) (v : V) (d : Store V) → All P d → lookup k d ≡ some v → P k v
  unfolding lookup
  All-lookup P k v [] a h = cc
  All-lookup P k v ((i, x) ∷ d) a h = ground (arith, All-lookup P k v d a.1)

module _ {V : Type 0} where
  pub sum_by-linear :
      (f g h : V → ℕ) (n : ℕ) (d : Store V)
      → All (λ j v. f v ≡ g v + h v * n) d
      → sum_by f d ≡ sum_by g d + sum_by h d * n
  unfolding sum_by
  sum_by-linear f g h n [] all = omega arith
  sum_by-linear f g h n ((j, v) ∷ d) (one, all) = grind (arith, sum_by-linear f g h n d all)
