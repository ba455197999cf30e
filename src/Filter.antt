-- ===== src/Filter.antt =====
-- Named filters on label values (internal/filter/filter.go). `Regexp` is Go's.
pub mod Pass
pub mod Compile
mod Tests
use pgscv.Base.{String, Bool, true, false, not, ◌&&◌, Option, none, some, [], ◌∷◌}
use pgscv.Base.{◌==◌, string_eq, if◌then◌else◌}
use pgscv.Base.Dict
use pgscv.Base.Dict.{Dict}
use pgscv.Base.Result.{Result, ok, err, ◌>>=◌}
use pgscv.Base.External.{Regexps}

pub record Filter (R : Regexps) : Type 0 where
  pub exclude : String
  pub exclude_re : Option R.Regexp
  pub include : String
  pub include_re : Option R.Regexp

abbrev pub Filters : Regexps → Type 0
Filters R = Dict String (Filter R)

-- The Go zero value, which is also what reading a missing key of `Filters` gives.
abbrev pub no_filter : {R : Regexps} → Filter R
no_filter = record { exclude = ""; exclude_re = none; include = ""; include_re = none }

-- `New` and `Add`
unfoldable pub new : {R : Regexps} → Filters R
new = []

unfoldable pub add : {R : Regexps} → String → Filter R → Filters R → Filters R
add name f fs = Dict.insert name f fs

module _ ⦃R : Regexps⦄ where
  open R use {Regexp, compile as compile_re, match_string}

  -- The tests of `Pass` with both patterns given, in their order; what none takes goes on to the rest.
  both : Regexp → Regexp → String → Option Bool
  both ex inc target =
      if match_string ex target && match_string inc target
      then some false
      else if not (match_string ex target) && not (match_string inc target)
      then some false
      else if match_string ex target && not (match_string inc target)
      then some false
      else if not (match_string ex target) && match_string inc target
      then some true
      else none

  -- The two last tests of `Pass`, on each pattern that is given.
  excluded : Option Regexp → String → Bool
  excluded none target = false
  excluded (some ex) target = match_string ex target

  not_included : Option Regexp → String → Bool
  not_included none target = false
  not_included (some inc) target = not (match_string inc target)

  rest : Option Regexp → Option Regexp → String → Bool
  unfolding excluded not_included
  rest ex inc target =
      if excluded ex target then false else if not_included inc target then false else true

  pass_res : Option Regexp → Option Regexp → String → Bool
  unfolding both rest
  pass_res none none target = true
  pass_res (some ex) (some inc) target = elim (both ex inc target) [
    | some b ↦ b
    | none ↦ rest (some ex) (some inc) target
  ]
  pass_res ex inc target = rest ex inc target

  -- `Pass`
  unfoldable pub pass : Filter R → String → Bool
  unfolding pass_res
  pass f target = pass_res f.exclude_re f.include_re target

  -- `if pattern != "" { re, err := regexp.Compile(pattern); … }`: an empty pattern leaves what was
  -- compiled before, and a pattern that does not compile is the error.
  abbrev compile_pattern : String → Option Regexp → Result String (Option Regexp)
  compile_pattern pattern old =
      if pattern == ""
      then ok old
      else elim (compile_re pattern) [ none ↦ err pattern | some re ↦ ok (some re) ]

  -- The body of the loop, on the copy of one filter.
  unfoldable pub compile_filter : Filter R → Result String (Filter R)
  compile_filter f = do
    ex ← compile_pattern f.exclude f.exclude_re
    inc ← compile_pattern f.include f.include_re
    ok (record f { exclude_re = ex; include_re = inc })

  -- `Compile`: filters met before an error stay compiled in the map, those after it stay as they were.
  unfoldable pub compile : Filters R → Filters R × Option String
  unfolding compile_filter
  compile [] = ([], none)
  compile ((key, f) ∷ fs) =
      let rest = compile fs in
      elim (compile_filter f) [
        | err e ↦ ((key, f) ∷ fs, some e)
        | ok f' ↦ ((key, f') ∷ rest.0, rest.1)
      ]
