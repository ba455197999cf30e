-- ===== src/Mapops/Defs.antt =====
-- `FullJoin`. The struct of two pointers that it builds has one of three shapes: both point at the
-- key, or one of them is nil.
use pgscv.Base.{List, [], ◌∷◌, ◌++◌, Eq, if◌then◌else◌, is_some}
use pgscv.Base.Dict
use pgscv.Base.Dict.{Dict}

pub data Joined {ℓ} (K : Type ℓ) : Type ℓ where
  left_only : K → Joined K
  both : K → Joined K
  right_only : K → Joined K

module _ {ℓ κ μ} {K : Type ℓ} {V : Type κ} {W : Type μ} ⦃e : Eq K⦄ where
  -- `for l := range left`
  unfoldable pub join_left : Dict K V → Dict K W → List (Joined K)
  join_left [] right = []
  join_left ((l, _) ∷ left) right =
      (if is_some (Dict.lookup l right) then both l else left_only l) ∷ join_left left right

  -- `for r := range right`
  unfoldable pub join_right : Dict K W → Dict K V → List (Joined K)
  join_right [] left = []
  join_right ((r, _) ∷ right) left =
      let later = join_right right left in
      if is_some (Dict.lookup r left) then later else right_only r ∷ later

  unfoldable pub full_join : Dict K V → Dict K W → List (Joined K)
  unfolding join_left join_right
  full_join left right = join_left left right ++ join_right right left
