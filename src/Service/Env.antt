-- ===== src/Service/Env.antt =====
-- Connection settings from environment variables (internal/service/config.go).
pub mod Laws
use pgscv.Base.{
  ◌≡◌, String, ◌<>◌, Bool, true, false, Option, none, some, List, ◌==◌, string_eq, if◌then◌else◌,
}
use pgscv.Base.Text.{has_prefix, trim_prefix, replace_first}
use pgscv.Base.Result.{Result, ok, err}
use pgscv.Discovery.Types.{Label}

-- `ConnSetting`
pub record ConnSetting : Type 0 where
  pub service_type : String
  pub conninfo : String
  pub base_url : String
  pub target_labels : Option (List Label)

abbrev pub type_system : String
type_system = "system"

abbrev pub type_postgresql : String
type_postgresql = "postgres"

abbrev pub type_pgbouncer : String
type_pgbouncer = "pgbouncer"

abbrev pub type_patroni : String
type_patroni = "patroni"

-- The errors of the two parsers.
pub data EnvError : Type 0 where
  invalid_prefix : String → EnvError
  invalid_key : String → EnvError
  invalid_value : String → String → EnvError

-- What both parsers do once the type is known: the id of the service is what follows the prefix, or the
-- type where nothing does.
unfoldable pub service_id : String → String → String → String → Result EnvError String
service_id stype prefix key value =
    if has_prefix key prefix
    then (if key == prefix
        then ok stype
        else (let id = trim_prefix (trim_prefix key prefix) "_" in
            if id == "" then err (invalid_value value key) else ok id))
    else err (invalid_key key)

abbrev pub dsn_setting : String → String → ConnSetting
dsn_setting stype value = record {
  service_type = stype;
  conninfo = value;
  base_url = "";
  target_labels = none;
}

abbrev pub url_setting : String → String → ConnSetting
url_setting stype value = record {
  service_type = stype;
  conninfo = "";
  base_url = value;
  target_labels = none;
}

abbrev pub with_setting :
    ConnSetting → Result EnvError String → Result EnvError (String × ConnSetting)
with_setting cs (ok id) = ok (id, cs)
with_setting cs (err e) = err e

-- `parseDSNEnv`
unfoldable pub parse_dsn_env : String → String → String → Result EnvError (String × ConnSetting)
parse_dsn_env prefix key value =
    if prefix == "POSTGRES_DSN"
    then with_setting (dsn_setting type_postgresql value)
        (service_id type_postgresql prefix key value)
    else if prefix == "PGBOUNCER_DSN"
    then with_setting (dsn_setting type_pgbouncer value)
        (service_id type_pgbouncer prefix key value)
    else err (invalid_prefix prefix)

-- `parseURLEnv`
unfoldable pub parse_url_env : String → String → String → Result EnvError (String × ConnSetting)
parse_url_env prefix key value =
    if prefix == "PATRONI_URL"
    then with_setting (url_setting type_patroni value) (service_id type_patroni prefix key value)
    else err (invalid_prefix prefix)

-- `ParsePostgresDSNEnv`, `ParsePgbouncerDSNEnv`, `ParsePatroniURLEnv`
unfoldable pub parse_postgres_dsn_env : String → String → Result EnvError (String × ConnSetting)
parse_postgres_dsn_env key value =
    parse_dsn_env "POSTGRES_DSN" (replace_first key "DATABASE_DSN" "POSTGRES_DSN") value

unfoldable pub parse_pgbouncer_dsn_env : String → String → Result EnvError (String × ConnSetting)
parse_pgbouncer_dsn_env key value = parse_dsn_env "PGBOUNCER_DSN" key value

unfoldable pub parse_patroni_url_env : String → String → Result EnvError (String × ConnSetting)
parse_patroni_url_env key value = parse_url_env "PATRONI_URL" key value
