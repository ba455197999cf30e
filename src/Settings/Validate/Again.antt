-- ===== src/Settings/Validate/Again.antt =====
-- The checks change nothing in a configuration that has passed them.
use pgscv.Base.{
  ◌≡◌, refl, ap, ◌∙◌, String, Bool, Option, none, some, [], ◌∷◌, arith, ◌==◌, string_eq,
  if◌then◌else◌, inl, inr,
}
use pgscv.Base.Result.{ok, Result-cases}
use pgscv.Base.Int.{ℤ}
use pgscv.Base.External.{Regexps}
use pgscv.Filter.{Filter, Filters, compile, compile_filter}
use pgscv.Model.{CollectorSettings, CollectorsSettings}
use pgscv.Settings.{Config}
use pgscv.Settings.Validate.{
  Checks, validate_collector, validate_collector_settings, validate_settings, check_auth, validate,
  default_listen_address, zero_unless,
}
use pgscv.Settings.Validate.Laws.{
  validate_collector_ok, validate-parts, validate-of_parts, finished,
}
use pgscv.Settings.Validate.Valid.{listens, set_defaults_again}

module _ ⦃R : Regexps⦄ (checks : Checks R) where
  compile_filter_again : (f f' : Filter R) → compile_filter f ≡ ok f' → compile_filter f' ≡ ok f'
  unfolding compile_filter
  compile_filter_again f f' h = ground arith

  compile_again :
      (fs : Filters R) → (compile fs).1 ≡ none → compile (compile fs).0 ≡ ((compile fs).0, none)
  unfolding compile
  compile_again [] h = refl
  compile_again ((key, f) ∷ fs) h = elim (Result-cases (compile_filter f)) [
    | inl (e, failed) ↦ ground arith
    | inr (f', done) ↦ ground (arith, compile_filter_again f f' done, compile_again fs)
  ]

  validate_collector_again :
      (name : String) (s s' : CollectorSettings R)
      → validate_collector checks name s ≡ ok s'
      → validate_collector checks name s' ≡ ok s'
  unfolding validate_collector
  validate_collector_again name s s' h =
      let (same, (_, compiles, _)) = validate_collector_ok checks name s s' h in
      rw same (ground (arith, compile_again s.filters compiles))

  settings_again :
      (settings settings' : CollectorsSettings R)
      → validate_collector_settings checks settings ≡ ok settings'
      → validate_collector_settings checks settings' ≡ ok settings'
  unfolding validate_collector_settings
  settings_again [] settings' h = ground arith
  settings_again ((name, s) ∷ settings) settings' h =
      elim (Result-cases (validate_collector checks name s)) [
        | inl (e, failed) ↦ ground arith
        | inr (s', done) ↦ elim (Result-cases (validate_collector_settings checks settings)) [
          | inl (e, failed) ↦ ground arith
          | inr (later, done') ↦
              ground (
                arith,
                validate_collector_again name s s' done,
                settings_again settings later done',
              )
        ]
      ]

  validate_settings_again :
      (settings settings' : Option (CollectorsSettings R))
      → validate_settings checks settings ≡ ok settings'
      → validate_settings checks settings' ≡ ok settings'
  unfolding validate_settings
  validate_settings_again none settings' h = ground arith
  validate_settings_again (some m) settings' h =
      elim (Result-cases (validate_collector_settings checks m)) [
        | inl (e, failed) ↦ ground arith
        | inr (m', done) ↦ ground (arith, settings_again m m' done)
      ]

  address_again :
      (a : String)
      → (if (if a == "" then default_listen_address else a) == ""
          then default_listen_address
          else (if a == "" then default_listen_address else a))
        ≡ (if a == "" then default_listen_address else a)
  address_again a = ground (arith, listens a)

  zero_unless_again : (o : Option ℤ) → zero_unless (zero_unless o) ≡ zero_unless o
  zero_unless_again none = refl
  zero_unless_again (some n) = refl

  finished_again :
      (c : Config R) (re : R.Regexp) (settings : Option (CollectorsSettings R))
      (flags : Bool × Bool)
      → finished checks (finished checks c re settings flags) re settings flags
        ≡ finished checks c re settings flags
  finished_again c re settings flags = rw (
    address_again c.listen_address,
    set_defaults_again c.defaults,
    zero_unless_again c.throttling_interval,
  )

  -- A configuration that passed the checks passes them again, and they change nothing more.
  pub validate_again : (c c' : Config R) → validate checks c ≡ ok c' → validate checks c' ≡ ok c'
  unfolding check_auth
  validate_again c c' h =
      let (
        re,
        settings,
        flags,
        (services, databases, collectors, auth, query, table, index),
        same,
      ) =
        validate-parts checks c c' h in
      let again = validate_settings_again c.collectors_settings settings collectors in
      rw same (
        validate-of_parts checks (finished checks c re settings flags) re settings flags
          (services, databases, again, auth, query, table, index)
        ∙ ap ok (finished_again c re settings flags))
