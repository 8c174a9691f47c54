-- ===== src/Prelude/Assoc.antt =====
-- Go maps as association lists. The source never depends on the order in which it ranges over one.
use mathlib.Core.Path.{◌≡◌, refl}
use mathlib.Core.Logic.{inl, inr}
use mathlib.Core.Option.{Option, none, some}
use mathlib.Core.List.{List, [], ◌∷◌}
use native.Mathlib.Omega.{arith}
use mini_graph_db.Prelude.Tests.{Eq, if◌then◌else◌, ◌==◌, Bool-cases}

abbrev pub Assoc {ℓ κ} : Type ℓ → Type κ → Type (ℓ ⊔ κ)
Assoc K V = List (K × V)

module _ {ℓ κ} {K : Type ℓ} {V : Type κ} ⦃e : Eq K⦄ where
  unfoldable pub lookup : K → Assoc K V → Option V
  lookup k [] = none
  lookup k ((j, v) ∷ l) = if j == k then some v else lookup k l

  unfoldable pub insert : K → V → Assoc K V → Assoc K V
  insert k v [] = (k, v) ∷ []
  insert k v ((j, w) ∷ l) = if j == k then (k, v) ∷ l else (j, w) ∷ insert k v l

  unfoldable pub remove : K → Assoc K V → Assoc K V
  remove k [] = []
  remove k ((j, w) ∷ l) = let rest = remove k l in if j == k then rest else (j, w) ∷ rest

  -- No key stands twice.
  abbrev pub Distinct : Assoc K V → Type (ℓ ⊔ κ)
  Distinct [] = Unit {ℓ ⊔ κ}
  Distinct ((k, v) ∷ l) = (lookup k l ≡ none) × Distinct l

  pub lookup-insert :
      (k j : K) (v : V) (l : Assoc K V)
      → lookup j (insert k v l) ≡ (if k == j then some v else lookup j l)
  unfolding lookup insert
  lookup-insert k j v [] = refl
  lookup-insert k j v ((i, w) ∷ l) =
      ground (arith, e.same_iff k j, e.same_iff i k, e.same_iff i j, lookup-insert k j v l)

  pub lookup-remove :
      (k j : K) (l : Assoc K V) → lookup j (remove k l) ≡ (if k == j then none else lookup j l)
  unfolding lookup remove
  lookup-remove k j [] = ground arith
  lookup-remove k j ((i, w) ∷ l) =
      ground (arith, e.same_iff k j, e.same_iff i k, e.same_iff i j, lookup-remove k j l)

  pub insert-Distinct : (k : K) (v : V) (l : Assoc K V) → Distinct l → Distinct (insert k v l)
  unfolding insert lookup
  insert-Distinct k v [] d = (refl, tt)
  insert-Distinct k v ((i, w) ∷ l) d = elim (Bool-cases (i == k)) [
    | inl same ↦ rw same (rw (← (e.same_iff i k).0 same) d.0, d.1)
    | inr other ↦ rw other (
      ground (arith, lookup-insert k i v l, d.0, e.same_iff k i, e.same_iff i k),
      insert-Distinct k v l d.1,
    )
  ]
