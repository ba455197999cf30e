-- ===== src/Filter/Compile.antt =====
-- What `Compile` leaves in the map, and when it fails.
use mathlib.Core.Option
use pgscv.Base.{◌≡◌, refl, ◌≢◌, ◌↔◌, String, Bool, true, false, ◌&&◌, none, some, [], ◌∷◌, arith}
use pgscv.Base.{◌==◌, string_eq, if◌then◌else◌, is_some}
use pgscv.Base.Dict
use pgscv.Base.Result.{ok, err}
use pgscv.Base.External.{Regexps}
use pgscv.Filter.{Filter, Filters, pass, compile_filter, compile}
use pgscv.Filter.Pass.{Rejects, pass_iff}

module _ ⦃R : Regexps⦄ where
  -- The pattern is empty or compiles.
  abbrev pub pattern_ok : String → Bool
  pattern_ok pattern = if pattern == "" then true else is_some (R.compile pattern)

  -- What compiling the filter should give: each pattern that is not empty, compiled.
  abbrev pub recompiled : Filter R → Filter R
  recompiled f = record f {
    exclude_re = if f.exclude == "" then f.exclude_re else R.compile f.exclude;
    include_re = if f.include == "" then f.include_re else R.compile f.include;
  }

  abbrev pub patterns_ok : Filters R → Bool
  patterns_ok [] = true
  patterns_ok ((_, f) ∷ fs) = pattern_ok f.exclude && pattern_ok f.include && patterns_ok fs

  compile_filter_ok :
      (f : Filter R)
      → (pattern_ok f.exclude && pattern_ok f.include) ≡ true
      → compile_filter f ≡ ok (recompiled f)
  unfolding compile_filter
  compile_filter_ok f h = ground arith

  -- The first of the two patterns that does not compile.
  abbrev pub bad_pattern : Filter R → String
  bad_pattern f = if pattern_ok f.exclude then f.include else f.exclude

  compile_filter_err :
      (f : Filter R)
      → (pattern_ok f.exclude && pattern_ok f.include) ≡ false
      → compile_filter f ≡ err (bad_pattern f)
  unfolding compile_filter
  compile_filter_err f h = ground arith

  -- `Compile` fails exactly when some filter of the map has a pattern that does not compile.
  pub compile_ok_iff : (fs : Filters R) → ((compile fs).1 ≡ none) ↔ (patterns_ok fs ≡ true)
  unfolding compile
  compile_ok_iff [] = ground arith
  compile_ok_iff ((_, f) ∷ fs) =
      ground (arith, compile_filter_ok f, compile_filter_err f, compile_ok_iff fs)

  -- After `Compile` without an error, a key holds its old filter with the patterns compiled.
  pub lookup-compile :
      (fs : Filters R) (key : String)
      → (compile fs).1 ≡ none
      → Dict.lookup key (compile fs).0 ≡ Option.map recompiled (Dict.lookup key fs)
  unfolding compile Dict.lookup
  lookup-compile [] key h = refl
  lookup-compile ((_, f) ∷ fs) key h =
      ground (arith, compile_filter_ok f, compile_filter_err f, lookup-compile fs key)

  -- With an error or without one, `Compile` adds and drops no filter.
  pub keys-compile : (fs : Filters R) → Dict.keys (compile fs).0 ≡ Dict.keys fs
  unfolding compile Dict.keys
  keys-compile [] = refl
  keys-compile ((_, f) ∷ fs) = ground (arith, keys-compile fs)

  -- A pattern as written matches a text.
  abbrev pub Matches : String → String → Type 0
  Matches pattern target = Rejects (R.compile pattern) target

  lookup-patterns_ok :
      (fs : Filters R) (key : String) (f : Filter R)
      → patterns_ok fs ≡ true
      → Dict.lookup key fs ≡ some f
      → (pattern_ok f.exclude && pattern_ok f.include) ≡ true
  unfolding Dict.lookup
  lookup-patterns_ok [] key f h found = cc
  lookup-patterns_ok ((_, g) ∷ fs) key f h found = ground (arith, lookup-patterns_ok fs key f)

  pass-recompiled :
      (f : Filter R) (target : String)
      → f.exclude_re ≡ none
      → f.include_re ≡ none
      → (pattern_ok f.exclude && pattern_ok f.include) ≡ true
      → (pass (recompiled f) target ≡ true) ↔ (
          (f.exclude ≢ "" → ¬ Matches f.exclude target)
          × (f.include ≢ "" → Matches f.include target))
  pass-recompiled f target ex inc good = ground (arith, pass_iff (recompiled f) target)

  -- A filter of the configuration, whose patterns `Compile` has compiled without an error, passes a
  -- target exactly when its exclude pattern, unless empty, does not match it, and its include
  -- pattern, unless empty, does.
  pub pass-compile :
      (fs : Filters R) (key target : String) (f f' : Filter R)
      → f.exclude_re ≡ none
      → f.include_re ≡ none
      → (compile fs).1 ≡ none
      → Dict.lookup key fs ≡ some f
      → Dict.lookup key (compile fs).0 ≡ some f'
      → (pass f' target ≡ true) ↔ (
          (f.exclude ≢ "" → ¬ Matches f.exclude target)
          × (f.include ≢ "" → Matches f.include target))
  pass-compile fs key target f f' ex inc done found found' =
      let same : recompiled f ≡ f' = ground (arith, lookup-compile fs key done) in
      rw same at (
        pass-recompiled f target ex inc
          (lookup-patterns_ok fs key f ((compile_ok_iff fs).0 done) found))
