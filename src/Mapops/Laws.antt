-- ===== src/Mapops/Laws.antt =====
-- The join lists each key of either map once, with the sides that it has.
use mathlib.Core.Option.{or_else}
use pgscv.Base.{
  ◌≢◌, ◌≡◌, refl, Bool, true, false, Option, none, some, List, [], ◌∷◌, ◌++◌, Eq, ◌==◌,
  if◌then◌else◌, is_some, arith,
}
use pgscv.Base.Dict
use pgscv.Base.Dict.{Dict, NodupKeys}
use pgscv.Mapops.Defs.{Joined, left_only, both, right_only, join_left, join_right, full_join}

abbrev pub key {ℓ} : {K : Type ℓ} → Joined K → K
key (left_only k) = k
key (both k) = k
key (right_only k) = k

module _ {ℓ} {K : Type ℓ} ⦃e : Eq K⦄ where
  -- What the join says of a key, by the first entry that names it.
  abbrev pub entry : K → List (Joined K) → Option (Joined K)
  entry k [] = none
  entry k (j ∷ js) = if k == key j then some j else entry k js

  -- No key is named twice.
  abbrev pub NodupEntries : List (Joined K) → Type ℓ
  NodupEntries [] = Unit
  NodupEntries (j ∷ js) = (entry (key j) js ≡ none) × NodupEntries js

  -- The entry that a key should have, by the sides that hold it.
  abbrev pub sides : K → Bool → Bool → Option (Joined K)
  sides k true true = some (both k)
  sides k true false = some (left_only k)
  sides k false true = some (right_only k)
  sides k false false = none

  entry-append :
      (k : K) (xs ys : List (Joined K)) → entry k (xs ++ ys) ≡ or_else (entry k xs) (entry k ys)
  unfolding or_else
  entry-append k [] ys = refl
  entry-append k (x ∷ xs) ys = ground (arith, entry-append k xs ys)

  NodupEntries-append :
      (xs ys : List (Joined K))
      → NodupEntries xs
      → NodupEntries ys
      → ((k : K) → entry k xs ≢ none → entry k ys ≡ none)
      → NodupEntries (xs ++ ys)
  unfolding or_else
  NodupEntries-append [] ys hx hy apart = hy
  NodupEntries-append (x ∷ xs) ys hx hy apart = (
    ground (arith, entry-append (key x) xs ys, apart (key x)),
    NodupEntries-append xs ys hx.1 hy (λ k h. ground (arith, apart k)),
  )

module _ {ℓ κ μ} {K : Type ℓ} {V : Type κ} {W : Type μ} ⦃e : Eq K⦄ where
  entry-join_left :
      (k : K) (left : Dict K V) (right : Dict K W)
      → entry k (join_left left right) ≡ (
          if is_some (Dict.lookup k left)
          then sides k true (is_some (Dict.lookup k right))
          else none)
  unfolding join_left Dict.lookup
  entry-join_left k [] right = refl
  entry-join_left k ((l, _) ∷ left) right = ground (arith, entry-join_left k left right)

  entry-join_right :
      (k : K) (right : Dict K W) (left : Dict K V)
      → entry k (join_right right left) ≡ (
          if is_some (Dict.lookup k left)
          then none
          else sides k false (is_some (Dict.lookup k right)))
  unfolding join_right Dict.lookup
  entry-join_right k [] left = ground arith
  entry-join_right k ((l, _) ∷ right) left = ground (arith, entry-join_right k right left)

  pub entry-full_join :
      (k : K) (left : Dict K V) (right : Dict K W)
      → entry k (full_join left right)
        ≡ sides k (is_some (Dict.lookup k left)) (is_some (Dict.lookup k right))
  unfolding full_join or_else
  entry-full_join k left right = ground (
    arith,
    entry-append k (join_left left right) (join_right right left),
    entry-join_left k left right,
    entry-join_right k right left,
  )

  join_left-NodupEntries :
      (left : Dict K V) (right : Dict K W) → NodupKeys left → NodupEntries (join_left left right)
  unfolding join_left
  join_left-NodupEntries [] right u = tt
  join_left-NodupEntries ((l, _) ∷ left) right u =
      ground (arith, entry-join_left l left right, join_left-NodupEntries left right u.1)

  join_right-NodupEntries :
      (right : Dict K W) (left : Dict K V) → NodupKeys right → NodupEntries (join_right right left)
  unfolding join_right
  join_right-NodupEntries [] left u = tt
  join_right-NodupEntries ((r, _) ∷ right) left u =
      ground (arith, entry-join_right r right left, join_right-NodupEntries right left u.1)

  -- The join of two maps names no key twice.
  pub full_join-NodupEntries :
      (left : Dict K V) (right : Dict K W)
      → NodupKeys left
      → NodupKeys right
      → NodupEntries (full_join left right)
  unfolding full_join
  full_join-NodupEntries left right u v =
      NodupEntries-append (join_left left right) (join_right right left)
        (join_left-NodupEntries left right u) (join_right-NodupEntries right left v)
        (λ k h. ground (arith, entry-join_left k left right, entry-join_right k right left))
