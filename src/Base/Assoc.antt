-- ===== src/Base/Assoc.antt =====
-- Go's maps as association lists. A key has one entry; the order of the entries is one of the
-- orders in which Go may enumerate the map.
use mathlib.Core.Path.{◌≡◌, refl}
use mathlib.Core.Logic.{◌↔◌}
use mathlib.Core.Bool.{false}
use mathlib.Core.Option.{Option, none, some}
use mathlib.Core.List.{List, [], ◌∷◌}
use native.Mathlib.Omega.{arith}
use fabric.Base.Tests.{Eq, ◌==◌, ==_iff, if◌then◌else◌}

abbrev pub Assoc {ℓ κ} : Type ℓ → Type κ → Type (ℓ ⊔ κ)
Assoc K V = List (K × V)

module _ {ℓ κ} {K : Type ℓ} {V : Type κ} ⦃e : Eq K⦄ where
  -- m[k], with `none` for a missing key
  abbrev pub lookup : K → Assoc K V → Option V
  lookup k [] = none
  lookup k ((j, v) ∷ m) = if j == k then some v else lookup k m

  -- m[k] = v
  abbrev pub insert : K → V → Assoc K V → Assoc K V
  insert k v [] = (k, v) ∷ []
  insert k v ((j, w) ∷ m) = if j == k then (k, v) ∷ m else (j, w) ∷ insert k v m

  -- delete(m, k)
  abbrev pub remove : K → Assoc K V → Assoc K V
  remove k [] = []
  remove k ((j, w) ∷ m) = let rest = remove k m in if j == k then rest else (j, w) ∷ rest

  abbrev pub Fresh : K → Assoc K V → Type 0
  Fresh k [] = Unit
  Fresh k ((j, w) ∷ m) = ((j == k) ≡ false) × Fresh k m

  -- no key has two entries
  abbrev pub Distinct : Assoc K V → Type 0
  Distinct [] = Unit
  Distinct ((j, w) ∷ m) = Fresh j m × Distinct m

  pub lookup-insert :
      (k j : K) (v : V) (m : Assoc K V)
      → lookup j (insert k v m) ≡ (if k == j then some v else lookup j m)
  lookup-insert k j v [] = refl
  lookup-insert k j v ((i, w) ∷ m) =
      ground (arith, ==_iff k j, ==_iff i k, ==_iff i j, lookup-insert k j v m)

  pub lookup-remove :
      (k j : K) (m : Assoc K V) → lookup j (remove k m) ≡ (if k == j then none else lookup j m)
  lookup-remove k j [] = ground arith
  lookup-remove k j ((i, w) ∷ m) =
      ground (arith, ==_iff k j, ==_iff i k, ==_iff i j, lookup-remove k j m)

  pub Fresh-lookup : (k : K) (m : Assoc K V) → Fresh k m ↔ (lookup k m ≡ none)
  Fresh-lookup k [] = (λ h. refl, λ h. tt)
  Fresh-lookup k ((i, w) ∷ m) = ground (arith, Fresh-lookup k m)

  pub Fresh-insert :
      (i k : K) (v : V) (m : Assoc K V) → (k == i) ≡ false → Fresh i m → Fresh i (insert k v m)
  Fresh-insert i k v [] h f = (h, tt)
  Fresh-insert i k v ((j, w) ∷ m) h f = ground (arith, Fresh-insert i k v m)

  pub Distinct-insert : (k : K) (v : V) (m : Assoc K V) → Distinct m → Distinct (insert k v m)
  Distinct-insert k v [] d = (tt, tt)
  Distinct-insert k v ((j, w) ∷ m) d =
      ground (arith, ==_iff j k, ==_iff k j, Fresh-insert j k v m, Distinct-insert k v m)

  pub remove-Fresh : (k : K) (m : Assoc K V) → Fresh k m → remove k m ≡ m
  remove-Fresh k [] f = refl
  remove-Fresh k ((i, w) ∷ m) f = ground (arith, remove-Fresh k m)

  Fresh-remove : (i k : K) (m : Assoc K V) → Fresh i m → Fresh i (remove k m)
  Fresh-remove i k [] f = tt
  Fresh-remove i k ((j, w) ∷ m) f = ground (arith, Fresh-remove i k m)

  pub Distinct-remove : (k : K) (m : Assoc K V) → Distinct m → Distinct (remove k m)
  Distinct-remove k [] d = tt
  Distinct-remove k ((j, w) ∷ m) d = ground (arith, Fresh-remove j k m, Distinct-remove k m)
