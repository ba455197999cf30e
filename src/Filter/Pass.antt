-- ===== src/Filter/Pass.antt =====
-- What `Pass` decides.
use pgscv.Base.{◌≡◌, refl, ◌↔◌, String, true, Option, none, some, arith}
use pgscv.Base.External.{Regexps}
use pgscv.Filter.{Filter, pass}

module _ ⦃R : Regexps⦄ where
  -- A compiled pattern that is given and matches; one that is not given, or matches.
  abbrev pub Rejects : Option R.Regexp → String → Type 0
  Rejects none target = ⊥
  Rejects (some re) target = R.match_string re target ≡ true

  abbrev pub Admits : Option R.Regexp → String → Type 0
  Admits none target = Unit
  Admits (some re) target = R.match_string re target ≡ true

  pass_res_iff :
      (ex inc : Option R.Regexp) (f : Filter R) (target : String)
      → f.exclude_re ≡ ex
      → f.include_re ≡ inc
      → (pass f target ≡ true) ↔ ((¬ Rejects ex target) × Admits inc target)
  unfolding pass
  pass_res_iff none none f target p q = ground arith
  pass_res_iff none (some inc) f target p q = ground arith
  pass_res_iff (some ex) none f target p q = ground arith
  pass_res_iff (some ex) (some inc) f target p q = ground arith

  -- Exactly the targets pass that the exclude pattern, if it is given, does not match and that the
  -- include pattern, if it is given, matches: exclude has the higher priority.
  pub pass_iff :
      (f : Filter R) (target : String)
      → (pass f target ≡ true) ↔ ((¬ Rejects f.exclude_re target) × Admits f.include_re target)
  pass_iff f target = pass_res_iff f.exclude_re f.include_re f target refl refl
