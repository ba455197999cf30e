-- ===== src/Base/Samples.antt =====
-- Concrete values for what stands outside the program, for tests: a pattern is a text that matches
-- itself alone, `(` does not compile, and a float is a natural number.
use Prim.Native.Nat.{ℕ, ◌+◌, ◌*◌}
use Prim.Native.String.{String}
use mathlib.Core.Option.{Option, none, some}
use mathlib.Core.List.{[], ◌∷◌}
use pgscv.Base.Equality.{◌==◌, string_eq, nat_eq, if◌then◌else◌, ltb}
use pgscv.Base.External.{Regexps, Floats}

abbrev number : String → Option ℕ
number s =
    if s == "1" then some 1 else if s == "2" then some 2 else if s == "42" then some 42 else none

instance abbrev pub exact_regexps : Regexps
exact_regexps = record {
  Regexp = String;
  compile = λ s. if s == "(" then none else some s;
  match_string = λ re s. re == s;
  find_string = λ re s. if re == s then s else "";
  find_string_submatch = λ re s. if re == s then s ∷ s ∷ s ∷ [] else [];
  replace_all_string = λ re s new. if re == s then new else s;
}

instance abbrev pub whole_floats : Floats
whole_floats = record {
  Float = ℕ;
  zero = 0;
  one = 1;
  add = ◌+◌;
  mul = ◌*◌;
  is_zero = λ x. x == 0;
  lt = ltb;
  parse_float = number;
  failed = λ s. 0;
}
