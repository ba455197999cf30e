-- ===== src/Collector/Config.antt =====
-- The configuration that a service's collectors share (internal/collector/config.go).
pub mod Gather
use pgscv.Base.{ℕ, String, Bool, false, Option}
use pgscv.Base.Dict.{Dict}
use pgscv.Base.Int.{ℤ, pos}
use pgscv.Base.External.{Regexps}
use pgscv.Model.{CollectorsSettings}

-- `PostgresVersion`
pub record PostgresVersion : Type 0 where
  pub full : String
  pub short : String
  pub numeric : ℤ
  pub is_aws_aurora : Bool
  pub is_citus : Bool
  pub is_epas : Bool
  pub is_yandex : Bool
  pub is_pgpro : Bool

-- `postgresServiceConfig`
pub record ServiceConfig : Type 0 where
  pub local_service : Bool
  pub block_size : ℕ
  pub wal_segment_size : ℕ
  pub pg_version : PostgresVersion
  pub data_directory : String
  pub logging_collector : Bool
  pub log_destination : String
  pub pg_stat_statements : Bool
  pub pg_stat_statements_database : String
  pub pg_stat_statements_schema : String
  pub rol_conn_limit : ℤ

-- The zero values.
abbrev zero_version : PostgresVersion
zero_version = record {
  full = "";
  short = "";
  numeric = pos 0;
  is_aws_aurora = false;
  is_citus = false;
  is_epas = false;
  is_yandex = false;
  is_pgpro = false;
}

abbrev pub zero_service_config : ServiceConfig
zero_service_config = record {
  local_service = false;
  block_size = 0;
  wal_segment_size = 0;
  pg_version = zero_version;
  data_directory = "";
  logging_collector = false;
  log_destination = "";
  pg_stat_statements = false;
  pg_stat_statements_database = "";
  pg_stat_statements_schema = "";
  rol_conn_limit = pos 0;
}

-- `Config`
pub record Config (R : Regexps) : Type 0 where
  pub no_track_mode : Bool
  pub service_type : String
  pub conn_string : String
  pub base_url : String
  pub service_config : ServiceConfig
  pub databases_re : Option R.Regexp
  pub settings : CollectorsSettings R
  pub collect_top_table : ℤ
  pub collect_top_index : ℤ
  pub collect_top_query : ℤ
  pub const_labels : Option (Dict String String)
  pub target_labels : Option (Dict String String)
  pub conn_timeout : ℤ
  pub concurrency_limit : Option ℤ
