-- ===== src/Settings.antt =====
-- The application's configuration (`Config` of internal/pgscv/config.go, `AuthConfig` of
-- internal/http/http_server.go). `discovery`, whose type is any, and what is built from it are left out.
pub mod Auth
pub mod Merge
pub mod Env
pub mod Validate
mod Tests
use pgscv.Base.{String, Bool, false, Option, none, List, [], if◌then◌else◌}
use pgscv.Base.Dict.{Dict}
use pgscv.Base.Int.{ℤ, pos}
use pgscv.Base.External.{Regexps}
use pgscv.Model.{CollectorsSettings}
use pgscv.Service.Env.{ConnSetting}
use pgscv.Settings.Auth.{AuthConfig, no_auth}

-- `Config`. A map that is nil is none, and so is a pointer. A duration counts nanoseconds.
pub record Config (R : Regexps) : Type 0 where
  pub no_track_mode : Bool
  pub listen_address : String
  pub services_conns_settings : Option (Dict String ConnSetting)
  pub defaults : Option (Dict String String)
  pub disable_collectors : List String
  pub collectors_settings : Option (CollectorsSettings R)
  pub databases : String
  pub databases_re : Option R.Regexp
  pub auth_config : AuthConfig
  pub collect_top_table : ℤ
  pub collect_top_index : ℤ
  pub collect_top_query : ℤ
  pub skip_conn_error_mode : Bool
  pub conn_timeout : ℤ
  pub url_prefix : String
  pub throttling_interval : Option ℤ
  pub concurrency_limit : Option ℤ
  pub refresh_service_config_interval : ℤ

-- The Go zero value.
abbrev pub no_config : {R : Regexps} → Config R
no_config = record {
  no_track_mode = false;
  listen_address = "";
  services_conns_settings = none;
  defaults = none;
  disable_collectors = [];
  collectors_settings = none;
  databases = "";
  databases_re = none;
  auth_config = no_auth;
  collect_top_table = pos 0;
  collect_top_index = pos 0;
  collect_top_query = pos 0;
  skip_conn_error_mode = false;
  conn_timeout = pos 0;
  url_prefix = "";
  throttling_interval = none;
  concurrency_limit = none;
  refresh_service_config_interval = pos 0;
}
