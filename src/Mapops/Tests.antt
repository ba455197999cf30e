-- ===== src/Mapops/Tests.antt =====
-- The join of two small maps.
use pgscv.Base.{ℕ, ◌≡◌, refl, String, [], ◌∷◌, string_eq}
use pgscv.Base.Dict
use pgscv.Base.Dict.{Dict}
use pgscv.Mapops.Defs.{left_only, both, right_only, full_join}

abbrev left : Dict String ℕ
left = ("a", 1) ∷ ("b", 2) ∷ []

abbrev right : Dict String ℕ
right = ("b", 3) ∷ ("c", 4) ∷ []

full_join_all : full_join left right ≡ left_only "a" ∷ both "b" ∷ right_only "c" ∷ []
unfolding full_join Dict.lookup string_eq
full_join_all = refl
