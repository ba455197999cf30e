-- ===== src/Base/Text.antt =====
-- The functions of Go's `strings` that the program calls, on texts as lists of characters.
pub mod Laws
use Prim.Native.Char.{code}
use Prim.Native.Nat.{ℕ}
use Prim.Native.String
use Prim.Native.String.{String}
use mathlib.Core.Bool.{Bool, true, false}
use mathlib.Core.Option.{Option, none, some}
use mathlib.Core.List.{List, [], ◌∷◌}
use pgscv.Base.Equality.{if◌then◌else◌, ◌==◌, string_eq, nat_eq}

-- The text after a prefix, or nothing where it does not begin with it.
unfoldable pub after_prefix : String → String → Option String
unfolding nat_eq
after_prefix s String.[] = some s
after_prefix String.[] (String.◌∷◌ c p) = none
after_prefix (String.◌∷◌ d s) (String.◌∷◌ c p) = if code d == code c then after_prefix s p else none

-- `strings.HasPrefix(s, prefix)`
unfoldable pub has_prefix : String → String → Bool
unfolding after_prefix
has_prefix s p = elim (after_prefix s p) [ none ↦ false | some _ ↦ true ]

-- `strings.Contains(s, part)`
unfoldable pub contains_text : String → String → Bool
unfolding after_prefix
contains_text String.[] part = elim (after_prefix String.[] part) [ none ↦ false | some _ ↦ true ]
contains_text (String.◌∷◌ c s) part =
    let later = contains_text s part in
    elim (after_prefix (String.◌∷◌ c s) part) [ none ↦ later | some _ ↦ true ]

-- `strings.TrimPrefix(s, prefix)`
unfoldable pub trim_prefix : String → String → String
unfolding after_prefix
trim_prefix s p = elim (after_prefix s p) [ none ↦ s | some r ↦ r ]

-- `strings.Replace(s, old, new, 1)`
unfoldable pub replace_first : String → String → String → String
unfolding after_prefix
replace_first String.[] old new = elim (after_prefix String.[] old) [
  | none ↦ String.[]
  | some r ↦ String.◌++◌ new r
]
replace_first (String.◌∷◌ c s) old new =
    let later = String.◌∷◌ c (replace_first s old new) in
    elim (after_prefix (String.◌∷◌ c s) old) [ none ↦ later | some r ↦ String.◌++◌ new r ]

-- `strings.SplitN(s, c, 2)` for one character: the parts around the first one, or nothing without one.
unfoldable pub split_first : ℕ → String → Option (String × String)
unfolding nat_eq
split_first c String.[] = none
split_first c (String.◌∷◌ d s) =
    let later = split_first c s in
    if code d == c
    then some (String.[], s)
    else elim later [ none ↦ none | some (a, b) ↦ some (String.◌∷◌ d a, b) ]

abbrev pub first_of : String → List String → String
first_of s [] = s
first_of s (t ∷ _) = t

abbrev pub others_of : List String → List String
others_of [] = []
others_of (_ ∷ ts) = ts

-- `strings.Split(s, c)` for one character.
unfoldable pub split_on : ℕ → String → List String
unfolding nat_eq
split_on c String.[] = String.[] ∷ []
split_on c (String.◌∷◌ d s) =
    let later = split_on c s in
    if code d == c
    then String.[] ∷ later
    else String.◌∷◌ d (first_of String.[] later) ∷ others_of later

-- `strings.Replace(s, c, "", -1)` for one character.
unfoldable pub remove_all : ℕ → String → String
unfolding nat_eq
remove_all c String.[] = String.[]
remove_all c (String.◌∷◌ d s) =
    let later = remove_all c s in if code d == c then later else String.◌∷◌ d later

unfoldable pub trim_left : ℕ → String → String
unfolding nat_eq
trim_left c String.[] = String.[]
trim_left c (String.◌∷◌ d s) =
    let later = trim_left c s in if code d == c then later else String.◌∷◌ d s

abbrev cons_unless : Bool → String → String → String
cons_unless true _ String.[] = String.[]
cons_unless true whole _ = whole
cons_unless false whole _ = whole

unfoldable pub trim_right : ℕ → String → String
unfolding nat_eq
trim_right c String.[] = String.[]
trim_right c (String.◌∷◌ d s) =
    let later = trim_right c s in cons_unless (code d == c) (String.◌∷◌ d later) later

-- `strings.Trim(s, c)` for one character.
unfoldable pub trim : ℕ → String → String
unfolding trim_left trim_right
trim c s = trim_right c (trim_left c s)
