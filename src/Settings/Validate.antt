-- ===== src/Settings/Validate.antt =====
-- The checks of the configuration (`Validate`, `validateCollectorSettings`, `newDatabasesRegexp`). The
-- command stops at an error, so what a failed check leaves of the configuration is not kept.
pub mod Laws
pub mod Valid
pub mod Again
use pgscv.Base.{
  String, Bool, true, false, not, ◌&&◌, ◌||◌, Option, none, some, List, [], ◌∷◌, ◌==◌, string_eq,
  if◌then◌else◌, is_some,
}
use pgscv.Base.Dict
use pgscv.Base.Dict.{Dict}
use pgscv.Base.Result.{Result, ok, err, ◌>>=◌, ◌>>◌, fail_if}
use pgscv.Base.Int.{ℤ, pos, ltb_ℤ}
use pgscv.Base.External.{Regexps}
use pgscv.Filter.{compile}
use pgscv.Model.{UserMetric, MetricsSubsystem, CollectorSettings, CollectorsSettings}
use pgscv.Service.Env.{ConnSetting}
use pgscv.Settings.{Config}
use pgscv.Settings.Merge.{entries}
use pgscv.Settings.Auth.{AuthError, with_flags, validate_auth}

pub data ConfigError : Type 0 where
  empty_service : ConfigError
  empty_service_type : String → ConfigError
  invalid_conninfo : String → ConfigError
  invalid_databases : String → ConfigError
  invalid_collector : String → ConfigError
  invalid_filter : String → ConfigError
  invalid_subsystem : String → ConfigError
  no_query : String → ConfigError
  no_metric_value : String → ConfigError
  two_metric_values : String → ConfigError
  invalid_metric : String → ConfigError
  no_description : String → ConfigError
  invalid_usage : String → ConfigError
  invalid_auth : AuthError → ConfigError
  out_of_range : String → ℤ → ConfigError

-- What the checks take from outside: the three patterns of names as `MustCompile` and `MustCompilePOSIX`
-- return them, and whether `pgx.ParseConfig` accepts a connection string.
pub record Checks (R : Regexps) : Type 0 where
  pub collector_name : R.Regexp
  pub subsystem_name : R.Regexp
  pub metric_name : R.Regexp
  pub valid_conninfo : String → Bool

abbrev pub Checked : Type 0
Checked = Result ConfigError (Unit {0})

-- `if _, ok := c.Defaults[k]; !ok { c.Defaults[k] = v }`
unfoldable pub set_default : String → String → Dict String String → Dict String String
unfolding Dict.lookup Dict.insert
set_default k v m = elim (Dict.lookup k m) [ none ↦ Dict.insert k v m | some _ ↦ m ]

unfoldable pub set_defaults : Option (Dict String String) → Dict String String
unfolding set_default
set_defaults defaults = set_default "pgbouncer_dbname" "pgbouncer" (
    set_default "pgbouncer_username" "pgscv" (
      set_default "postgres_dbname" "postgres"
        (set_default "postgres_username" "pgscv" (entries defaults))))

abbrev pub has_values : UserMetric → Bool
has_values m = is_some m.labeled_values

abbrev pub is_nonempty {ℓ} : {A : Type ℓ} → List A → Bool
is_nonempty [] = false
is_nonempty (_ ∷ _) = true

abbrev pub empty_pattern : String → String
empty_pattern s = if s == "" then ".+" else s

unfoldable pub check_top : String → ℤ → Checked
check_top name n = fail_if (ltb_ℤ n (pos 0) || ltb_ℤ (pos 1000) n) (out_of_range name n)

abbrev pub known_usage : String → Bool
known_usage usage = usage == "COUNTER" || usage == "GAUGE"

abbrev pub default_listen_address : String
default_listen_address = "127.0.0.1:9890"

-- The default of `throttling_interval`.
abbrev pub zero_unless : Option ℤ → Option ℤ
zero_unless none = some (pos 0)
zero_unless (some n) = some n

module _ ⦃R : Regexps⦄ (checks : Checks R) where
  -- The loop over the services.
  unfoldable pub check_services : Dict String ConnSetting → Checked
  check_services [] = ok tt
  check_services ((k, s) ∷ services) =
      fail_if (k == "") empty_service
      >> fail_if (s.service_type == "") (empty_service_type k)
      >> fail_if (not (checks.valid_conninfo s.conninfo)) (invalid_conninfo k)
      >> check_services services

  -- The body of the loop over the metrics of a subsystem.
  unfoldable pub check_metric : UserMetric → Checked
  check_metric m =
      fail_if (m.value == "" && not (has_values m)) (no_metric_value m.short_name)
      >> fail_if (not (m.value == "") && has_values m) (two_metric_values m.short_name)
      >> (if known_usage m.usage
          then fail_if (not (R.match_string checks.metric_name m.short_name))
              (invalid_metric m.short_name)
            >> fail_if (m.description == "") (no_description m.short_name)
          else err (invalid_usage m.usage))

  unfoldable pub check_metrics : List UserMetric → Checked
  unfolding check_metric
  check_metrics [] = ok tt
  check_metrics (m ∷ metrics) = check_metric m >> check_metrics metrics

  unfoldable pub check_subsystem : String → MetricsSubsystem → Checked
  unfolding check_metrics
  check_subsystem name s =
      fail_if (not (R.match_string checks.subsystem_name name)) (invalid_subsystem name)
      >> fail_if (not (is_some (R.compile s.databases))) (invalid_databases s.databases)
      >> fail_if (is_nonempty s.metrics && s.query == "") (no_query name)
      >> check_metrics s.metrics

  unfoldable pub check_subsystems : Dict String MetricsSubsystem → Checked
  unfolding check_subsystem
  check_subsystems [] = ok tt
  check_subsystems ((name, s) ∷ subsystems) = check_subsystem name s >> check_subsystems subsystems

  abbrev pub compile_filters : CollectorSettings R → Result ConfigError (CollectorSettings R)
  compile_filters s = elim (compile s.filters).1 [
    | some pattern ↦ err (invalid_filter pattern)
    | none ↦ ok (record s { filters = (compile s.filters).0 })
  ]

  -- The body of the loop of `validateCollectorSettings`. The filters are a map, so that compiling them
  -- changes them in the configuration.
  unfoldable pub validate_collector :
      String → CollectorSettings R → Result ConfigError (CollectorSettings R)
  unfolding check_subsystems compile
  validate_collector name s =
      fail_if (not (R.match_string checks.collector_name name)) (invalid_collector name) >>= λ _.
      compile_filters s >>= λ s'. check_subsystems s.subsystems >>= λ _. ok s'

  unfoldable pub validate_collector_settings :
      CollectorsSettings R → Result ConfigError (CollectorsSettings R)
  unfolding validate_collector
  validate_collector_settings [] = ok []
  validate_collector_settings ((name, s) ∷ settings) = validate_collector name s >>= λ s'.
      validate_collector_settings settings >>= λ settings'. ok ((name, s') ∷ settings')

  -- `newDatabasesRegexp`
  unfoldable pub new_databases_regexp : String → Result ConfigError R.Regexp
  new_databases_regexp s = elim (R.compile (empty_pattern s)) [
    | none ↦ err (invalid_databases (empty_pattern s))
    | some re ↦ ok re
  ]

  unfoldable pub validate_services : Option (Dict String ConnSetting) → Checked
  unfolding check_services
  validate_services none = ok tt
  validate_services (some services) = check_services services

  unfoldable pub validate_settings :
      Option (CollectorsSettings R) → Result ConfigError (Option (CollectorsSettings R))
  unfolding validate_collector_settings
  validate_settings none = ok none
  validate_settings (some settings) =
      validate_collector_settings settings >>= λ settings'. ok (some settings')

  unfoldable pub check_auth : Config R → Result ConfigError (Bool × Bool)
  unfolding validate_auth
  check_auth c = elim (validate_auth c.auth_config) [
    | err e ↦ err (invalid_auth e)
    | ok flags ↦ ok flags
  ]

  -- `Config.Validate`
  unfoldable pub validate : Config R → Result ConfigError (Config R)
  unfolding validate_services validate_settings check_auth set_defaults new_databases_regexp
      check_top
  validate c = do
    _ ← validate_services c.services_conns_settings
    re ← new_databases_regexp c.databases
    settings ← validate_settings c.collectors_settings
    flags ← check_auth c
    _ ← check_top "collect_top_query" c.collect_top_query
    _ ← check_top "collect_top_table" c.collect_top_table
    _ ← check_top "collect_top_index" c.collect_top_index
    ok (record c {
      listen_address = if c.listen_address == "" then default_listen_address else c.listen_address;
      defaults = some (set_defaults c.defaults);
      databases_re = some re;
      collectors_settings = settings;
      auth_config = with_flags c.auth_config flags;
      throttling_interval = zero_unless c.throttling_interval;
    })
