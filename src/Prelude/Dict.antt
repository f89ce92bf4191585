-- ===== src/Prelude/Dict.antt =====
-- Rust's `HashMap` as an association list. Its order of iteration is not specified in Rust, and no
-- theorem rests on the order of the list.
use mathlib.Core.Path.{◌≡◌, refl}
use mathlib.Core.Logic.{◌↔◌, ◌≢◌}
use mathlib.Core.Bool.{true}
use mathlib.Core.Option.{Option, none, some}
use mathlib.Core.List.{List, [], ◌∷◌}
use native.Mathlib.Omega.{arith}
use clayers.Prelude.Tests.{Eq, ◌==◌, if◌then◌else◌}
use clayers.Prelude.Lists.{contains}

abbrev pub Dict {ℓ κ} : Type ℓ → Type κ → Type (ℓ ⊔ κ)
Dict K V = List (K × V)

abbrev pub keys {ℓ κ} : {K : Type ℓ} {V : Type κ} → Dict K V → List K
keys [] = []
keys ((k, v) ∷ d) = k ∷ keys d

module _ {ℓ κ} {K : Type ℓ} {V : Type κ} ⦃e : Eq K⦄ where
  unfoldable pub lookup : K → Dict K V → Option V
  lookup k [] = none
  lookup k ((j, v) ∷ d) = if j == k then some v else lookup k d

  unfoldable pub insert : K → V → Dict K V → Dict K V
  insert k v [] = (k, v) ∷ []
  insert k v ((j, w) ∷ d) = if j == k then (k, v) ∷ d else (j, w) ∷ insert k v d

  unfoldable pub remove : K → Dict K V → Dict K V
  remove k [] = []
  remove k ((j, w) ∷ d) = let rest = remove k d in if j == k then rest else (j, w) ∷ rest

  -- `iter().map(...).collect()` into a map: a later entry of a key replaces an earlier one.
  unfoldable pub collect : Dict K V → List (K × V) → Dict K V
  collect d [] = d
  collect d ((k, v) ∷ kvs) = collect (insert k v d) kvs

  pub lookup-insert :
      (j k : K) (v : V) (d : Dict K V)
      → lookup j (insert k v d) ≡ (if k == j then some v else lookup j d)
  unfolding lookup insert
  lookup-insert j k v [] = refl
  lookup-insert j k v ((i, w) ∷ d) =
      ground (arith, e.beq_iff k j, e.beq_iff i k, e.beq_iff i j, lookup-insert j k v d)

  pub lookup-remove :
      (j k : K) (d : Dict K V) → lookup j (remove k d) ≡ (if k == j then none else lookup j d)
  unfolding lookup remove
  lookup-remove j k [] = ground arith
  lookup-remove j k ((i, w) ∷ d) =
      ground (arith, e.beq_iff k j, e.beq_iff i k, e.beq_iff i j, lookup-remove j k d)

  pub contains-keys : (d : Dict K V) (k : K) → (contains (keys d) k ≡ true) ↔ (lookup k d ≢ none)
  unfolding lookup
  contains-keys [] k = (λ h. cc, λ h. absurd (h refl))
  contains-keys ((j, v) ∷ d) k = ground (arith, contains-keys d k)

pub ruleset dict_laws = (lookup-insert, lookup-remove)
