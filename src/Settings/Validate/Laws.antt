-- ===== src/Settings/Validate/Laws.antt =====
-- What the checks guarantee.
use pgscv.Base.{
  ◌≡◌, refl, ◌≢◌, String, Bool, true, inl, inr, Option, none, some, [], ◌∷◌, arith, ◌==◌, string_eq,
  if◌then◌else◌,
}
use pgscv.Base.Dict
use pgscv.Base.Dict.{Dict}
use pgscv.Base.Result.{ok, Result-cases, bind-parts, ok-injective}
use pgscv.Base.Int.{ℤ, pos, negsuc, ◌≤ℤ◌}
use pgscv.Base.External.{Regexps}
use pgscv.Filter.{compile}
use pgscv.Model.{CollectorSettings, CollectorsSettings}
use pgscv.Service.Env.{ConnSetting}
use pgscv.Settings.{Config}
use pgscv.Settings.Auth.{with_flags}
use pgscv.Settings.Validate.{
  Checks, set_default, set_defaults, check_top, check_services, check_subsystems,
  validate_collector, validate_collector_settings, new_databases_regexp, validate_services,
  validate_settings, check_auth, validate, default_listen_address, zero_unless,
}

abbrev pub InRange : ℤ → Type 0
InRange n = (pos 0 ≤ℤ n) × (n ≤ℤ pos 1000)

pub check_top_ok : (name : String) (n : ℤ) → check_top name n ≡ ok tt → InRange n
unfolding check_top
check_top_ok name (pos n) h = ground arith
check_top_ok name (negsuc n) h = ground arith

pub lookup-set_default :
    (j k v : String) (m : Dict String String)
    → Dict.lookup j (set_default k v m)
      ≡ elim (Dict.lookup j m) [ some w ↦ some w | none ↦ if j == k then some v else none ]
unfolding set_default
lookup-set_default j k v m = ground (arith, Dict.lookup-insert j k v m)

module _ ⦃R : Regexps⦄ (checks : Checks R) where
  -- A service that can be connected to.
  abbrev pub ValidService : String → ConnSetting → Type 0
  ValidService k s = (k ≢ "") × (s.service_type ≢ "") × (checks.valid_conninfo s.conninfo ≡ true)

  pub check_services_ok :
      (services : Dict String ConnSetting) (k : String) (s : ConnSetting)
      → check_services checks services ≡ ok tt
      → Dict.lookup k services ≡ some s
      → ValidService k s
  unfolding check_services Dict.lookup
  check_services_ok [] k s h found = ground arith
  check_services_ok ((j, r) ∷ services) k s h found = ground (arith, check_services_ok services k s)

  abbrev pub compiled : CollectorSettings R → CollectorSettings R
  compiled s = record s { filters = (compile s.filters).0 }

  -- A collector whose settings are accepted has a name of the right form and filters that compile.
  abbrev pub ValidCollector : String → CollectorSettings R → Type 0
  ValidCollector name s =
      (R.match_string checks.collector_name name ≡ true)
      × ((compile s.filters).1 ≡ none)
      × (check_subsystems checks s.subsystems ≡ ok tt)

  pub validate_collector_ok :
      (name : String) (s s' : CollectorSettings R)
      → validate_collector checks name s ≡ ok s'
      → (s' ≡ compiled s) × ValidCollector name s
  unfolding validate_collector
  validate_collector_ok name s s' h = ground arith

  pub lookup-validate_collector_settings :
      (settings settings' : CollectorsSettings R) (name : String) (s : CollectorSettings R)
      → validate_collector_settings checks settings ≡ ok settings'
      → Dict.lookup name settings ≡ some s
      → ValidCollector name s × (Dict.lookup name settings' ≡ some (compiled s))
  unfolding validate_collector_settings Dict.lookup
  lookup-validate_collector_settings [] settings' name s h found = ground arith
  lookup-validate_collector_settings ((j, r) ∷ settings) settings' name s h found =
      elim (Result-cases (validate_collector checks j r)) [
        | inl (e, failed) ↦ ground arith
        | inr (r', done) ↦ elim (Result-cases (validate_collector_settings checks settings)) [
          | inl (e, failed) ↦ ground arith
          | inr (later, done') ↦ ground (
            arith,
            validate_collector_ok j r r' done,
            lookup-validate_collector_settings settings later name s done',
          )
        ]
      ]

  -- What an accepted configuration becomes.
  abbrev pub finished : Config R → R.Regexp → Option (CollectorsSettings R) → Bool × Bool → Config R
  finished c re settings flags = record c {
    listen_address = if c.listen_address == "" then default_listen_address else c.listen_address;
    defaults = some (set_defaults c.defaults);
    databases_re = some re;
    collectors_settings = settings;
    auth_config = with_flags c.auth_config flags;
    throttling_interval = zero_unless c.throttling_interval;
  }

  abbrev pub Passed : Config R → R.Regexp → Option (CollectorsSettings R) → Bool × Bool → Type 0
  Passed c re settings flags =
      (validate_services checks c.services_conns_settings ≡ ok tt)
      × (new_databases_regexp checks c.databases ≡ ok re)
      × (validate_settings checks c.collectors_settings ≡ ok settings)
      × (check_auth checks c ≡ ok flags)
      × (check_top "collect_top_query" c.collect_top_query ≡ ok tt)
      × (check_top "collect_top_table" c.collect_top_table ≡ ok tt)
      × (check_top "collect_top_index" c.collect_top_index ≡ ok tt)

  pub validate-parts :
      (c c' : Config R)
      → validate checks c ≡ ok c'
      → (re : R.Regexp) × (settings : Option (CollectorsSettings R)) × (flags : Bool × Bool)
        × Passed c re settings flags
        × (c' ≡ finished c re settings flags)
  unfolding validate
  validate-parts c c' h =
      let (_, services, h1) =
        bind-parts (validate_services checks c.services_conns_settings) _ c' h in
      let (re, databases, h2) = bind-parts (new_databases_regexp checks c.databases) _ c' h1 in
      let (settings, collectors, h3) =
        bind-parts (validate_settings checks c.collectors_settings) _ c' h2 in
      let (flags, auth, h4) = bind-parts (check_auth checks c) _ c' h3 in
      let (_, query, h5) = bind-parts (check_top "collect_top_query" c.collect_top_query) _ c' h4 in
      let (_, table, h6) = bind-parts (check_top "collect_top_table" c.collect_top_table) _ c' h5 in
      let (_, index, h7) = bind-parts (check_top "collect_top_index" c.collect_top_index) _ c' h6 in
      (
        re,
        settings,
        flags,
        (services, databases, collectors, auth, query, table, index),
        ok-injective h7 refl,
      )

  pub validate-of_parts :
      (c : Config R) (re : R.Regexp) (settings : Option (CollectorsSettings R))
      (flags : Bool × Bool)
      → Passed c re settings flags
      → validate checks c ≡ ok (finished c re settings flags)
  unfolding validate
  validate-of_parts c re settings flags (h1, h2, h3, h4, h5, h6, h7) =
      rw (h1, h2, h3, h4, h5, h6, h7)
