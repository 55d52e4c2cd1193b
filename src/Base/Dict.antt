-- ===== src/Base/Dict.antt =====
-- Go's maps (and `sync.Map`) with their keys in the order of insertion. Iteration over a Go map
-- has no fixed order; here it is the order of the list.
use managed_tokens.Base.{◌≡◌, refl, Option, none, some, List, [], ◌∷◌}
use managed_tokens.Base.{arith, Comparable, ◌==◌, if◌then◌else◌}

abbrev pub Dict {ℓ κ} : Type ℓ → Type κ → Type (ℓ ⊔ κ)
Dict K V = List (K × V)

abbrev pub keys {ℓ κ} : {K : Type ℓ} {V : Type κ} → Dict K V → List K
keys [] = []
keys ((k, _) ∷ m) = k ∷ keys m

module _ {ℓ κ} {K : Type ℓ} {V : Type κ} ⦃e : Comparable K⦄ where
  -- `v, ok := m[k]`
  unfoldable pub lookup : Dict K V → K → Option V
  lookup [] k = none
  lookup ((j, v) ∷ m) k = if k == j then some v else lookup m k

  -- `m[k] = v`
  unfoldable pub insert : Dict K V → K → V → Dict K V
  insert [] k v = (k, v) ∷ []
  insert ((j, w) ∷ m) k v = if k == j then (j, v) ∷ m else (j, w) ∷ insert m k v

  -- `delete(m, k)`
  unfoldable pub erase : Dict K V → K → Dict K V
  erase [] k = []
  erase ((j, w) ∷ m) k = let rest = erase m k in if k == j then rest else (j, w) ∷ rest

  pub lookup-nil : (k : K) → lookup [] k ≡ none
  unfolding lookup
  lookup-nil k = refl

  pub lookup-insert :
      (m : Dict K V) (k j : K) (v : V)
      → lookup (insert m k v) j ≡ (if j == k then some v else lookup m j)
  unfolding insert lookup
  lookup-insert [] k j v = refl
  lookup-insert (_ ∷ m) k j v = ground (arith, lookup-insert m k j v)

  pub lookup-erase :
      (m : Dict K V) (k j : K) → lookup (erase m k) j ≡ (if j == k then none else lookup m j)
  unfolding erase lookup
  lookup-erase [] k j = ground arith
  lookup-erase (_ ∷ m) k j = ground (arith, lookup-erase m k j)

  -- No key is stored twice.
  abbrev pub NodupKeys : Dict K V → Type κ
  NodupKeys [] = Unit
  NodupKeys ((k, _) ∷ m) = (lookup m k ≡ none) × NodupKeys m

  pub insert-NodupKeys : (m : Dict K V) (k : K) (v : V) → NodupKeys m → NodupKeys (insert m k v)
  unfolding insert lookup
  insert-NodupKeys [] k v _ = (refl, tt)
  insert-NodupKeys ((j, _) ∷ m) k v (fresh, u) =
      ground (arith, insert-NodupKeys m k v u, lookup-insert m k j v)

  pub ruleset dict_laws = (lookup-insert, lookup-erase)
