-- ===== src/Base/Maps.antt =====
-- A JavaScript `Map`, which iterates in the order of insertion: an association list.
use Prim.Native.Nat.{◌+◌}
use mathlib.Core.Bool.{Bool, true, false}
use palancar.Base.Lists.{length}
use mathlib.Core.Path.{◌≡◌, refl}
use mathlib.Core.List.{List, [], ◌∷◌, ◌++◌}
use mathlib.Core.Option.{Option, none, some}
use native.Mathlib.Omega.{arith}
use palancar.Base.Tests.{Eq, ◌==◌, if◌then◌else◌}

module _ {ℓ κ} {K : Type ℓ} {V : Type κ} ⦃e : Eq K⦄ where
  unfoldable pub map_get : List (K × V) → K → Option V
  map_get [] k = none
  map_get ((j, v) ∷ m) k = if j == k then some v else map_get m k

  unfoldable pub map_delete : List (K × V) → K → List (K × V)
  map_delete [] k = []
  map_delete ((j, v) ∷ m) k = if j == k then m else (j, v) ∷ map_delete m k

  -- A key that is present keeps its place.
  unfoldable pub map_set : List (K × V) → K → V → List (K × V)
  map_set [] k v = (k, v) ∷ []
  map_set ((j, w) ∷ m) k v = if j == k then (j, v) ∷ m else (j, w) ∷ map_set m k v

  pub map_get-set :
      (m : List (K × V)) (k j : K) (v : V)
      → map_get (map_set m k v) j ≡ (if k == j then some v else map_get m j)
  unfolding map_get map_set
  map_get-set [] k j v = refl
  map_get-set ((i, w) ∷ m) k j v =
      ground (arith, map_get-set m k j v, e.beq_iff i k, e.beq_iff i j, e.beq_iff k j)

  pub map_get-set_self : (m : List (K × V)) (k : K) (v : V) → map_get (map_set m k v) k ≡ some v
  map_get-set_self m k v = ground (arith, map_get-set m k k v, e.beq_iff k k)

  -- The values under two keys that differ do not disturb each other.
  pub map_get-set_other :
      (m : List (K × V)) (k j : K) (v : V)
      → (k == j) ≡ false
      → map_get (map_set m k v) j ≡ map_get m j
  map_get-set_other m k j v h = ground (arith, map_get-set m k j v, h)

  abbrev pub map_has : List (K × V) → K → Bool
  map_has m k = elim (map_get m k) [ none ↦ false | some v ↦ true ]

  pub map_get-delete_ne :
      (m : List (K × V)) (k j : K) → (k == j) ≡ false → map_get (map_delete m k) j ≡ map_get m j
  unfolding map_get map_delete
  map_get-delete_ne [] k j h = refl
  map_get-delete_ne ((i, w) ∷ m) k j h =
      ground (arith, map_get-delete_ne m k j h, e.beq_iff i k, e.beq_iff i j, e.beq_iff k j)

  -- No key stands twice.
  abbrev pub Distinct : List (K × V) → Type 0
  Distinct [] = Unit {0}
  Distinct ((k, v) ∷ m) = (map_has m k ≡ false) × Distinct m

  pub map_get-delete_self :
      (m : List (K × V)) (k : K) → Distinct m → map_get (map_delete m k) k ≡ none
  unfolding map_get map_delete
  map_get-delete_self [] k d = refl
  map_get-delete_self ((i, w) ∷ m) k d = ground (arith, map_get-delete_self m k d.1, e.beq_iff i k)

  pub map_has-delete :
      (m : List (K × V)) (k j : K) → map_has m j ≡ false → map_has (map_delete m k) j ≡ false
  unfolding map_get map_delete
  map_has-delete [] k j h = refl
  map_has-delete ((i, w) ∷ m) k j h = ground (arith, map_has-delete m k j, e.beq_iff i j)

  pub map_delete-Distinct : (m : List (K × V)) (k : K) → Distinct m → Distinct (map_delete m k)
  unfolding map_get map_delete
  map_delete-Distinct [] k d = tt
  map_delete-Distinct ((i, w) ∷ m) k d =
      ground (arith, map_delete-Distinct m k d.1, map_has-delete m k i d.0)

  pub map_set-Distinct : (m : List (K × V)) (k : K) (v : V) → Distinct m → Distinct (map_set m k v)
  unfolding map_get map_set
  map_set-Distinct [] k v d = (refl, tt)
  map_set-Distinct ((i, w) ∷ m) k v d =
      ground (arith, map_set-Distinct m k v d.1, map_get-set m k i v, e.beq_iff i k, e.beq_iff k i)

  pub length-map_delete :
      (m : List (K × V)) (k : K)
      → length (map_delete m k) + (if map_has m k then 1 else 0) ≡ length m
  unfolding map_get map_delete
  length-map_delete [] k = omega arith
  length-map_delete ((i, w) ∷ m) k = ground (arith, length-map_delete m k)

  pub length-map_set :
      (m : List (K × V)) (k : K) (v : V)
      → length (map_set m k v) ≡ (if map_has m k then length m else length m + 1)
  unfolding map_get map_set
  length-map_set [] k v = omega arith
  length-map_set ((i, w) ∷ m) k v = ground (arith, length-map_set m k v)

  -- A key that is absent goes to the end.
  pub map_set-new :
      (m : List (K × V)) (k : K) (v : V) → map_has m k ≡ false → map_set m k v ≡ m ++ (k, v) ∷ []
  unfolding map_get map_set
  map_set-new [] k v h = refl
  map_set-new ((i, w) ∷ m) k v h = ground (arith, map_set-new m k v)
