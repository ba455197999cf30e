-- ===== src/Discovery/Types/LastLabel.antt =====
-- Which value a list of labels gives a name.
use mathlib.Core.Option.{Option, none, some, or_else}
use pgscv.Base.{◌≡◌, refl, String, List, [], ◌∷◌, arith, string_eq, ◌==◌, if◌then◌else◌}
use pgscv.Base.Dict
use pgscv.Base.Dict.{Dict, lookup-insert}
use pgscv.Discovery.Types.{Label, set_labels}

-- The value of the last label of a name.
abbrev pub last_value : String → List Label → Option String
last_value name [] = none
last_value name (item ∷ labels) =
    or_else (last_value name labels) (if name == item.name then some item.value else none)

lookup-set_labels_over :
    (name : String) (labels : List Label) (m : Dict String String)
    → Dict.lookup name (set_labels labels m) ≡ or_else (last_value name labels) (Dict.lookup name m)
unfolding set_labels or_else
lookup-set_labels_over name [] m = refl
lookup-set_labels_over name (item ∷ labels) m = ground (
  arith,
  lookup-set_labels_over name labels (Dict.insert item.name item.value m),
  lookup-insert name item.name item.value m,
)

pub lookup-set_labels :
    (name : String) (labels : List Label)
    → Dict.lookup name (set_labels labels []) ≡ last_value name labels
unfolding or_else Dict.lookup
lookup-set_labels name labels = ground (arith, lookup-set_labels_over name labels [])
