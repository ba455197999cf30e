-- ===== src/Filter/Tests.antt =====
-- Filters on concrete patterns.
use pgscv.Base.{◌≡◌, refl, ◌↔◌, ◌≢◌, true, none, some, [], ◌∷◌, string_eq}
use pgscv.Base.Dict
use pgscv.Base.Samples.{exact_regexps}
use pgscv.Filter.{Filter, Filters, new, add, pass, compile}
use pgscv.Filter.Compile.{Matches, lookup-compile, keys-compile, pass-compile}

abbrev configured : Filter exact_regexps
configured = record { exclude = "bad"; exclude_re = none; include = "good"; include_re = none }

abbrev compiled : Filter exact_regexps
compiled = record {
  exclude = "bad";
  exclude_re = some "bad";
  include = "good";
  include_re = some "good";
}

abbrev broken : Filter exact_regexps
broken = record { exclude = ""; exclude_re = none; include = "("; include_re = none }

settings : Filters exact_regexps
unfolding add new Dict.insert
settings = add "user" configured new

good_passes : pass compiled "good" ≡ true
unfolding pass string_eq
good_passes = refl

compile_stops :
    compile (("a", broken) ∷ ("b", configured) ∷ [])
    ≡ (("a", broken) ∷ ("b", configured) ∷ [], some "(")
unfolding compile string_eq
compile_stops = refl

settings_compile : (compile settings).1 ≡ none
unfolding compile settings string_eq
settings_compile = refl

lookup-compile_example : Dict.lookup "user" (compile settings).0 ≡ some compiled
unfolding settings Dict.lookup string_eq
lookup-compile_example = lookup-compile settings "user" settings_compile

keys-compile_example : Dict.keys (compile settings).0 ≡ "user" ∷ []
unfolding settings Dict.keys
keys-compile_example = keys-compile settings

pass-compile_example : (pass compiled "good" ≡ true) ↔ (
    (configured.exclude ≢ "" → ¬ Matches "bad" "good")
    × (configured.include ≢ "" → Matches "good" "good"))
unfolding settings compile Dict.lookup string_eq
pass-compile_example =
    pass-compile settings "user" "good" configured compiled refl refl settings_compile refl refl
