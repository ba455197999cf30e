-- ===== src/Settings/Validate/Valid.antt =====
-- An accepted configuration is valid, and is accepted again as it is.
use pgscv.Base.{
  ◌≡◌, refl, ap, ◌∙◌, ◌≢◌, String, Bool, true, Option, none, some, arith, ◌==◌, string_eq,
  if◌then◌else◌, is_some, inl, inr, Bool-cases,
}
use pgscv.Base.Dict
use pgscv.Base.Dict.{Dict}
use pgscv.Base.Result.{ok, Result-cases}
use pgscv.Base.Int.{ℤ}
use pgscv.Base.External.{Regexps}
use pgscv.Model.{CollectorSettings, CollectorsSettings}
use pgscv.Service.Env.{ConnSetting}
use pgscv.Settings.{Config}
use pgscv.Settings.Merge.{entries}
use pgscv.Settings.Auth.{AuthConfig, with_flags, validate_auth}
use pgscv.Settings.Validate.{
  Checks, set_default, set_defaults, validate_collector_settings, validate_services,
  validate_settings, validate, default_listen_address, zero_unless,
}
use pgscv.Settings.Validate.Laws.{
  InRange, check_top_ok, lookup-set_default, ValidService, check_services_ok, compiled,
  ValidCollector, lookup-validate_collector_settings, validate-parts,
}

-- A default of the program where the user has none.
abbrev pub user_or : String → String → Option (Dict String String) → Option String
user_or k v defaults = elim (Dict.lookup k (entries defaults)) [ some w ↦ some w | none ↦ some v ]

abbrev pub Defaulted : Option (Dict String String) → Option (Dict String String) → Type 0
Defaulted old new =
    (Dict.lookup "postgres_username" (entries new) ≡ user_or "postgres_username" "pgscv" old)
    × (Dict.lookup "postgres_dbname" (entries new) ≡ user_or "postgres_dbname" "postgres" old)
    × (Dict.lookup "pgbouncer_username" (entries new) ≡ user_or "pgbouncer_username" "pgscv" old)
    × (Dict.lookup "pgbouncer_dbname" (entries new) ≡ user_or "pgbouncer_dbname" "pgbouncer" old)

lookup-set_defaults :
    (j : String) (old : Option (Dict String String))
    → Dict.lookup j (set_defaults old) ≡ elim (Dict.lookup j (entries old)) [
      | some w ↦ some w
      | none ↦
          if j == "postgres_username"
          then some "pgscv"
          else if j == "postgres_dbname"
          then some "postgres"
          else if j == "pgbouncer_username"
          then some "pgscv"
          else if j == "pgbouncer_dbname"
          then some "pgbouncer"
          else none
    ]
unfolding set_defaults
lookup-set_defaults j old =
    let m0 = entries old in
    let m1 = set_default "postgres_username" "pgscv" m0 in
    let m2 = set_default "postgres_dbname" "postgres" m1 in
    let m3 = set_default "pgbouncer_username" "pgscv" m2 in
    ground (
      arith,
      lookup-set_default j "postgres_username" "pgscv" m0,
      lookup-set_default j "postgres_dbname" "postgres" m1,
      lookup-set_default j "pgbouncer_username" "pgscv" m2,
      lookup-set_default j "pgbouncer_dbname" "pgbouncer" m3,
    )

set_defaults-Defaulted :
    (old : Option (Dict String String)) → Defaulted old (some (set_defaults old))
unfolding string_eq
set_defaults-Defaulted old = (
  lookup-set_defaults "postgres_username" old,
  lookup-set_defaults "postgres_dbname" old,
  lookup-set_defaults "pgbouncer_username" old,
  lookup-set_defaults "pgbouncer_dbname" old,
)

set_default_same :
    (k v : String) (m : Dict String String)
    → is_some (Dict.lookup k m) ≡ true
    → set_default k v m ≡ m
unfolding set_default
set_default_same k v m h = ground arith

set_defaults_same :
    (m : Dict String String)
    → is_some (Dict.lookup "postgres_username" m) ≡ true
    → is_some (Dict.lookup "postgres_dbname" m) ≡ true
    → is_some (Dict.lookup "pgbouncer_username" m) ≡ true
    → is_some (Dict.lookup "pgbouncer_dbname" m) ≡ true
    → set_defaults (some m) ≡ m
unfolding set_defaults
set_defaults_same m h1 h2 h3 h4 = rw (
  set_default_same "postgres_username" "pgscv" m h1,
  set_default_same "postgres_dbname" "postgres" m h2,
  set_default_same "pgbouncer_username" "pgscv" m h3,
  set_default_same "pgbouncer_dbname" "pgbouncer" m h4,
)

user_or_some : (k v : String) (old : Option (Dict String String)) → is_some (user_or k v old) ≡ true
user_or_some k v old = ground arith

pub set_defaults_again :
    (old : Option (Dict String String)) → set_defaults (some (set_defaults old)) ≡ set_defaults old
set_defaults_again old =
    let (h1, h2, h3, h4) = set_defaults-Defaulted old in
    set_defaults_same (set_defaults old)
      (ap is_some h1 ∙ user_or_some "postgres_username" "pgscv" old)
      (ap is_some h2 ∙ user_or_some "postgres_dbname" "postgres" old)
      (ap is_some h3 ∙ user_or_some "pgbouncer_username" "pgscv" old)
      (ap is_some h4 ∙ user_or_some "pgbouncer_dbname" "pgbouncer" old)

pub validate_auth_again :
    (c : AuthConfig) (flags : Bool × Bool) → validate_auth (with_flags c flags) ≡ validate_auth c
unfolding validate_auth
validate_auth_again c flags = refl

named : default_listen_address ≢ ""
named p = cc

pub listens : (a : String) → (if a == "" then default_listen_address else a) ≢ ""
listens a p = elim (Bool-cases (a == "")) [
  | inl empty ↦ named (rw empty at p)
  | inr given ↦ ground arith
]

throttles : (o : Option ℤ) → zero_unless o ≢ none
throttles none p = cc
throttles (some n) p = cc

module _ ⦃R : Regexps⦄ (checks : Checks R) where
  abbrev pub Valid : Config R → Config R → Type 0
  Valid c c' =
      (c'.listen_address ≢ "")
      × (c'.throttling_interval ≢ none)
      × InRange c'.collect_top_query
      × InRange c'.collect_top_table
      × InRange c'.collect_top_index
      × Defaulted c.defaults c'.defaults
      × ((k : String) (s : ConnSetting)
          → Dict.lookup k (entries c'.services_conns_settings) ≡ some s
          → ValidService checks k s)
      × ((k : String) (s : CollectorSettings R)
          → Dict.lookup k (entries c.collectors_settings) ≡ some s
          → ValidCollector checks k s
            × (Dict.lookup k (entries c'.collectors_settings) ≡ some (compiled checks s)))

  validate_settings_ok :
      (settings settings' : Option (CollectorsSettings R)) (k : String) (s : CollectorSettings R)
      → validate_settings checks settings ≡ ok settings'
      → Dict.lookup k (entries settings) ≡ some s
      → ValidCollector checks k s × (Dict.lookup k (entries settings') ≡ some (compiled checks s))
  unfolding validate_settings Dict.lookup
  validate_settings_ok none settings' k s h found = ground arith
  validate_settings_ok (some m) settings' k s h found =
      elim (Result-cases (validate_collector_settings checks m)) [
        | inl (e, failed) ↦ ground arith
        | inr (m', done) ↦
            ground (arith, lookup-validate_collector_settings checks m m' k s done found)
      ]

  validate_services_ok :
      (services : Option (Dict String ConnSetting)) (k : String) (s : ConnSetting)
      → validate_services checks services ≡ ok tt
      → Dict.lookup k (entries services) ≡ some s
      → ValidService checks k s
  unfolding validate_services Dict.lookup
  validate_services_ok none k s h found = ground arith
  validate_services_ok (some m) k s h found = check_services_ok checks m k s h found

  -- A configuration that passes the checks has an address to listen on and a throttling interval, its
  -- three limits lie between 0 and 1000, the four defaults are the user's or the program's, every service
  -- has a name, a type and a connection string that parses, and every collector of the settings has a
  -- name of the right form, valid subsystems, and its filters compiled without an error.
  pub validate-Valid : (c c' : Config R) → validate checks c ≡ ok c' → Valid c c'
  validate-Valid c c' h =
      let (re, settings, flags, (services, _, collectors, _, query, table, index), same) =
        validate-parts checks c c' h in
      rw same (
        listens c.listen_address,
        throttles c.throttling_interval,
        check_top_ok "collect_top_query" c.collect_top_query query,
        check_top_ok "collect_top_table" c.collect_top_table table,
        check_top_ok "collect_top_index" c.collect_top_index index,
        set_defaults-Defaulted c.defaults,
        (λ k s found. validate_services_ok c.services_conns_settings k s services found),
        (λ k s found. validate_settings_ok c.collectors_settings settings k s collectors found),
      )
