-- ===== src/Settings/Tests.antt =====
-- Tests of the configuration.
use pgscv.Base.{
  ◌≡◌, refl, ◌↔◌, String, Bool, true, false, Option, none, some, List, [], ◌∷◌, is_some, string_eq,
  inl, inr,
}
use mathlib.Core.Option.{or_else}
use pgscv.Base.Dict
use pgscv.Base.Dict.{Dict}
use pgscv.Base.Int.{pos}
use pgscv.Base.Result.{ok}
use pgscv.Base.Samples.{exact_regexps}
use pgscv.Filter.{Filter}
use pgscv.Model.{CollectorsSettings}
use pgscv.Service.Env.{ConnSetting, dsn_setting}
use pgscv.Settings.{Config, no_config}
use pgscv.Settings.Auth.{
  AuthConfig, no_auth, validate_auth, admits, with_flags, admits-validate_auth,
}
use pgscv.Settings.Merge.{entries, merge, given, lookup-merge}
use pgscv.Settings.Env.{Numbers, new_config_from_env}
use pgscv.Settings.Env.Laws.{MadeBy, new_config_from_env-MadeBy}
use pgscv.Settings.Validate.{Checks, validate, default_listen_address}
use pgscv.Settings.Validate.Valid.{Valid, validate-Valid}

abbrev numbers : Numbers
numbers = record { atoi = λ s. some (pos 7); parse_duration = λ s. none }

abbrev checks : Checks exact_regexps
checks = record {
  collector_name = "postgres/activity";
  subsystem_name = "sub";
  metric_name = "total";
  valid_conninfo = λ s. true;
}

abbrev with_password : AuthConfig
with_password = record no_auth { username = "prometheus"; password = "secret" }

abbrev credentials : Option (String × String)
credentials = some ("prometheus", "secret")

admits-validate_auth_example :
    (admits (with_flags with_password (true, false)) credentials ≡ true)
    ↔ (credentials ≡ some (with_password.username, with_password.password))
unfolding validate_auth string_eq
admits-validate_auth_example =
    admits-validate_auth with_password (true, false) credentials refl refl

abbrev variables : List String
variables = "POSTGRES_DSN_MAIN=host=main" ∷ "PGSCV_CONN_TIMEOUT=7" ∷ "HOME=/" ∷ []

abbrev main_services : Dict String ConnSetting
main_services = ("MAIN", dsn_setting "postgres" "host=main") ∷ []

abbrev from_variables : Config exact_regexps
from_variables = record no_config {
  services_conns_settings = some main_services;
  defaults = some [];
  conn_timeout = pos 7;
}

new_config_from_env-MadeBy_example : MadeBy variables "MAIN" (dsn_setting "postgres" "host=main")
unfolding new_config_from_env pgscv.Base.Text.has_prefix pgscv.Base.Text.split_first
    pgscv.Service.Env.parse_postgres_dsn_env pgscv.Service.Env.parse_dsn_env string_eq
    pgscv.Service.Env.service_id pgscv.Base.Text.replace_first pgscv.Base.Text.trim_prefix
    Dict.insert Dict.lookup
new_config_from_env-MadeBy_example =
    new_config_from_env-MadeBy {R = exact_regexps} numbers variables from_variables "MAIN"
      (dsn_setting "postgres" "host=main") refl refl

-- The file of a user.
abbrev file_services : Dict String ConnSetting
file_services =
    ("MAIN", dsn_setting "postgres" "host=old") ∷ ("side", dsn_setting "postgres" "host=side") ∷ []

abbrev file_filters : Filter exact_regexps
file_filters = record { exclude = "system"; exclude_re = none; include = ""; include_re = none }

abbrev file_collectors : CollectorsSettings exact_regexps
file_collectors =
    (
      "postgres/activity",
      record {
        filters = ("user", file_filters) ∷ [];
        subsystems =
            (
              "sub",
              record {
                databases = "";
                query = "select 1";
                metrics =
                    record {
                      short_name = "total";
                      usage = "COUNTER";
                      labels = [];
                      value = "n";
                      labeled_values = none;
                      description = "All.";
                    }
                    ∷ [];
              },
            )
            ∷ [];
      },
    )
    ∷ []

abbrev from_file : Config exact_regexps
from_file = record no_config {
  services_conns_settings = some file_services;
  collectors_settings = some file_collectors;
  defaults = some (("postgres_username", "monitor") ∷ []);
  collect_top_query = pos 100;
}

abbrev merged : Config exact_regexps
merged = record from_file {
  services_conns_settings = some (
      ("MAIN", dsn_setting "postgres" "host=main")
      ∷ ("side", dsn_setting "postgres" "host=side")
      ∷ []);
  conn_timeout = pos 7;
}

lookup-merge_example :
    (Dict.lookup "MAIN" (entries merged.services_conns_settings)
      ≡ or_else
          (Dict.lookup "MAIN" (entries from_variables.services_conns_settings))
          (Dict.lookup "MAIN" (entries from_file.services_conns_settings)))
    × (Dict.lookup "MAIN" (entries merged.collectors_settings)
        ≡ or_else
            (Dict.lookup "MAIN" (entries from_variables.collectors_settings))
            (Dict.lookup "MAIN" (entries from_file.collectors_settings)))
    × (Dict.lookup "MAIN" (entries merged.defaults)
        ≡ or_else
            (Dict.lookup "MAIN" (entries from_variables.defaults))
            (Dict.lookup "MAIN" (entries from_file.defaults)))
    × (merged.databases ≡ given from_file.databases from_variables.databases)
unfolding merge pgscv.Settings.Merge.copy_into string_eq pgscv.Settings.Merge.merge_settings
    Dict.copy
lookup-merge_example = lookup-merge from_file from_variables merged "MAIN" refl

abbrev accepted : Config exact_regexps
accepted = record from_file {
  listen_address = default_listen_address;
  defaults = some (
      ("postgres_username", "monitor")
      ∷ ("postgres_dbname", "postgres")
      ∷ ("pgbouncer_username", "pgscv")
      ∷ ("pgbouncer_dbname", "pgbouncer")
      ∷ []);
  databases_re = some ".+";
  collectors_settings = some (
      (
        "postgres/activity",
        record {
          filters = ("user", record file_filters { exclude_re = some "system" }) ∷ [];
          subsystems =
              (
                "sub",
                record {
                  databases = "";
                  query = "select 1";
                  metrics =
                      record {
                        short_name = "total";
                        usage = "COUNTER";
                        labels = [];
                        value = "n";
                        labeled_values = none;
                        description = "All.";
                      }
                      ∷ [];
                },
              )
              ∷ [];
        },
      )
      ∷ []);
  throttling_interval = some (pos 0);
}

accepts : validate checks from_file ≡ ok accepted
unfolding validate string_eq
accepts = refl

validate-Valid_example : Valid checks from_file accepted
validate-Valid_example = validate-Valid checks from_file accepted accepts
