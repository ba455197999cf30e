-- ===== src/Base/Dict.antt =====
-- Go maps as association lists. Go leaves the order of `range` over a map open: the order of the
-- entries stands for the order of one run, and a statement about every list covers every order.
use mathlib.Core.Option.{Option, none, some, or_else}
use mathlib.Core.Path.{◌≡◌, refl}
use mathlib.Core.Bool.{Bool, true, not, ◌&&◌}
use mathlib.Core.List.{List, [], ◌∷◌}
use native.Mathlib.Omega.{arith}
use pgscv.Base.Equality.{Eq, ◌==◌, contains, if◌then◌else◌, is_some}

abbrev pub Dict {ℓ κ} : Type ℓ → Type κ → Type (ℓ ⊔ κ)
Dict K V = List (K × V)

unfoldable pub keys {ℓ κ} : {K : Type ℓ} {V : Type κ} → Dict K V → List K
keys [] = []
keys ((k, _) ∷ m) = k ∷ keys m

module _ {ℓ κ} {K : Type ℓ} {V : Type κ} ⦃e : Eq K⦄ where
  -- `v, ok := m[k]`
  unfoldable pub lookup : K → Dict K V → Option V
  lookup k [] = none
  lookup k ((j, v) ∷ m) = if k == j then some v else lookup k m

  -- `m[k] = v`
  unfoldable pub insert : K → V → Dict K V → Dict K V
  insert k v [] = (k, v) ∷ []
  insert k v ((j, w) ∷ m) = if k == j then (k, v) ∷ m else (j, w) ∷ insert k v m

  -- `delete(m, k)`
  unfoldable pub erase : K → Dict K V → Dict K V
  erase k [] = []
  erase k ((j, w) ∷ m) = let rest = erase k m in if k == j then rest else (j, w) ∷ rest

  -- `maps.Copy(dst, src)`: the keys of `src` are distinct, so their order does not matter.
  unfoldable pub copy : Dict K V → Dict K V → Dict K V
  unfolding insert
  copy dst [] = dst
  copy dst ((k, v) ∷ src) = insert k v (copy dst src)

  -- The keys are distinct: the association list is a map.
  abbrev pub NodupKeys : Dict K V → Type κ
  NodupKeys [] = Unit
  NodupKeys ((k, _) ∷ m) = (lookup k m ≡ none) × NodupKeys m

  -- The first entry, where it has the key, and the others, where it has not.
  pub lookup-cons :
      (k j : K) (v : V) (m : Dict K V)
      → lookup k ((j, v) ∷ m) ≡ (if k == j then some v else lookup k m)
  unfolding lookup
  lookup-cons k j v m = refl

  pub lookup-insert :
      (j k : K) (v : V) (m : Dict K V)
      → lookup j (insert k v m) ≡ (if j == k then some v else lookup j m)
  unfolding insert lookup
  lookup-insert j k v [] = refl
  lookup-insert j k v (_ ∷ m) = ground (arith, lookup-insert j k v m)

  pub lookup-erase :
      (j k : K) (m : Dict K V) → lookup j (erase k m) ≡ (if j == k then none else lookup j m)
  unfolding erase lookup
  lookup-erase j k [] = ground arith
  lookup-erase j k (_ ∷ m) = ground (arith, lookup-erase j k m)

  -- A key that both maps have takes the value of the source.
  pub lookup-copy :
      (j : K) (dst src : Dict K V) → lookup j (copy dst src) ≡ or_else (lookup j src) (lookup j dst)
  unfolding copy lookup or_else
  lookup-copy j dst [] = refl
  lookup-copy j dst ((k, v) ∷ src) =
      ground (arith, lookup-insert j k v (copy dst src), lookup-copy j dst src)

  pub contains-keys : (m : Dict K V) (k : K) → contains (keys m) k ≡ is_some (lookup k m)
  unfolding keys lookup
  contains-keys [] k = refl
  contains-keys (_ ∷ m) k = ground (arith, contains-keys m k)

  pub insert-NodupKeys : (k : K) (v : V) (m : Dict K V) → NodupKeys m → NodupKeys (insert k v m)
  unfolding insert lookup
  insert-NodupKeys k v [] _ = (refl, tt)
  insert-NodupKeys k v ((j, _) ∷ m) (fresh, u) =
      ground (arith, insert-NodupKeys k v m u, lookup-insert j k v m)

  pub erase-NodupKeys : (k : K) (m : Dict K V) → NodupKeys m → NodupKeys (erase k m)
  unfolding erase lookup
  erase-NodupKeys k [] _ = tt
  erase-NodupKeys k ((j, _) ∷ m) (fresh, u) =
      ground (arith, erase-NodupKeys k m u, lookup-erase j k m)

  -- A test for the keys of a map that is written out.
  abbrev pub nodup_keys : Dict K V → Bool
  nodup_keys [] = true
  nodup_keys ((k, _) ∷ m) = not (is_some (lookup k m)) && nodup_keys m

  pub NodupKeys-of_test : (m : Dict K V) → nodup_keys m ≡ true → NodupKeys m
  NodupKeys-of_test [] h = tt
  NodupKeys-of_test ((k, _) ∷ m) h = ground (arith, NodupKeys-of_test m)
