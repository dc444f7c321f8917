-- ===== src/Base/Assoc.antt =====
-- A Go map as the list of its entries, in the order in which a `range` visits them. Go leaves that
-- order open: nothing fixes the order of the list. A nil map reads as the empty one.
use mathlib.Core.Path.{◌≡◌, refl}
use mathlib.Core.Option.{Option, none, some}
use mathlib.Core.List.{List, [], ◌∷◌}
use native.Mathlib.Omega.{arith}
use rct_hub_backend.Base.Tests.{if◌then◌else◌, Eq, ◌==◌}

abbrev pub Map {ℓ κ} : Type ℓ → Type κ → Type (ℓ ⊔ κ)
Map K V = List (K × V)

module _ {ℓ κ} {K : Type ℓ} {V : Type κ} ⦃e : Eq K⦄ where
  -- v, ok := m[k]
  unfoldable pub lookup : K → Map K V → Option V
  lookup k [] = none
  lookup k ((j, v) ∷ m) = if j == k then some v else lookup k m

  -- v := m[k], with the zero value of a missing key
  unfoldable pub get_or : K → Map K V → V → V
  unfolding lookup
  get_or k m zero_value = elim (lookup k m) [ none ↦ zero_value | some v ↦ v ]

  -- m[k] = v
  unfoldable pub insert : K → V → Map K V → Map K V
  insert k v [] = (k, v) ∷ []
  insert k v ((j, w) ∷ m) = if j == k then (j, v) ∷ m else (j, w) ∷ insert k v m

  pub lookup-insert :
      (key other : K) (v : V) (m : Map K V)
      → lookup other (insert key v m) ≡ (if key == other then some v else lookup other m)
  unfolding lookup insert
  lookup-insert key other v [] = refl
  lookup-insert key other v ((i, w) ∷ m) =
      let rest = lookup-insert key other v m in
      ground (arith, rest, e.same_iff i key, e.same_iff i other, e.same_iff key other)
