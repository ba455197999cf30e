-- ===== src/Base/External.antt =====
-- What stands outside the program: regular expressions and floating-point numbers.
use Prim.Native.String.{String}
use mathlib.Core.Bool.{Bool}
use mathlib.Core.List.{List}
use mathlib.Core.Option.{Option}

-- Go's `regexp`: a pattern compiles or does not, and a compiled one finds what it matches.
pub record Regexps : Type 1 where
  pub Regexp : Type 0
  pub compile : String → Option Regexp
  pub match_string : Regexp → String → Bool
  -- `FindString`: the leftmost match, or the empty text.
  pub find_string : Regexp → String → String
  -- `FindStringSubmatch`: the leftmost match and its groups, or nothing.
  pub find_string_submatch : Regexp → String → List String
  -- `ReplaceAllString`
  pub replace_all_string : Regexp → String → String → String

-- float64 and `strconv.ParseFloat`, with what the collectors do with a number.
pub record Floats : Type 1 where
  pub Float : Type 0
  pub zero : Float
  pub one : Float
  pub add : Float → Float → Float
  pub mul : Float → Float → Float
  pub is_zero : Float → Bool
  pub lt : Float → Float → Bool
  pub parse_float : String → Option Float
  -- What `ParseFloat` returns next to an error.
  pub failed : String → Float
