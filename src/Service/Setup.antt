-- ===== src/Service/Setup.antt =====
-- `setupServices` (internal/service/service.go): every service that has no collector yet gets one, which
-- is registered twice, with the default registerer and with a registry of the service's own. The
-- goroutines work on one service each; the order of the ids stands for their order.
pub mod Laws
use pgscv.Base.{
  ℕ, String, Bool, true, false, Option, none, some, List, [], ◌∷◌, string_eq, ◌==◌, if◌then◌else◌,
  is_some,
}
use pgscv.Base.Dict
use pgscv.Base.Dict.{Dict}
use pgscv.Base.Int.{ℤ, pos}
use pgscv.Base.External.{Regexps}
use pgscv.Model.{CollectorsSettings}
use pgscv.Collector.Factories.{
  Factories, register_system_collectors, register_postgres_collectors,
  register_pgbouncer_collectors, register_patroni_collectors,
}
use pgscv.Collector.Config as CollectorConfig
use pgscv.Collector.Config.{ServiceConfig, zero_service_config}
use pgscv.Collector.Create.{Makers, PgscvCollector, new_pgscv_collector}
use pgscv.Service.Env.{type_system, type_postgresql, type_pgbouncer, type_patroni}
use pgscv.Service.Fill.{labels_of}
use pgscv.Service.Repository.{
  Service, Registerer, Repository, get_service, get_service_ids, add_service, add_registry,
}

-- The part of `Config` that is read here.
pub record Config (R : Regexps) : Type 0 where
  pub no_track_mode : Bool
  pub databases_re : Option R.Regexp
  pub disabled_collectors : List String
  pub collectors_settings : CollectorsSettings R
  pub collect_top_table : ℤ
  pub collect_top_index : ℤ
  pub collect_top_query : ℤ
  pub const_labels : Option (Dict String (Option (Dict String String)))
  pub target_labels : Option (Dict String (Option (Dict String String)))
  pub conn_timeout : ℤ
  pub concurrency_limit : Option ℤ

-- `switch service.ConnSettings.ServiceType`: the factories of the type; `none` is `default: return`.
unfoldable pub factories_of : String → List String → Option Factories
factories_of stype disabled =
    if stype == type_system
    then some (register_system_collectors [] disabled)
    else if stype == type_postgresql
    then some (register_postgres_collectors [] disabled)
    else if stype == type_pgbouncer
    then some (register_pgbouncer_collectors [] disabled)
    else if stype == type_patroni
    then some (register_patroni_collectors [] disabled)
    else none

module _ {R : Regexps} (M : Makers R) where
  abbrev pub Collector : Type 0
  Collector = PgscvCollector M

  -- `collectorConfig` after the switch. `fill` is what `newPostgresServiceConfig` gives for a connection
  -- string; its error is logged and no more.
  unfoldable pub collector_config :
      (String → ServiceConfig) → Config R → String → Service Collector → CollectorConfig.Config R
  collector_config fill config id s =
      let stype = s.conn_settings.service_type in
      record {
        no_track_mode = config.no_track_mode;
        service_type = stype;
        conn_string = s.conn_settings.conninfo;
        base_url = if stype == type_patroni then s.conn_settings.base_url else "";
        service_config =
            if stype == type_postgresql then fill s.conn_settings.conninfo else zero_service_config;
        databases_re = config.databases_re;
        settings = config.collectors_settings;
        collect_top_table = config.collect_top_table;
        collect_top_index = config.collect_top_index;
        collect_top_query = config.collect_top_query;
        const_labels = labels_of id config.const_labels;
        target_labels = labels_of id config.target_labels;
        conn_timeout = config.conn_timeout;
        concurrency_limit = config.concurrency_limit;
      }

  module _ (P : Registerer Collector) (fill : String → ServiceConfig) (config : Config R) where
    -- `prometheus.MustRegister`, and the updated service and its registry put into the repository.
    unfoldable pub install :
        Service Collector
        → Collector
        → Repository Collector
        → P.State
        → Option (Repository Collector × P.State)
    unfolding add_service add_registry
    install s c repo p = elim (P.must_register c p) [
      | none ↦ none
      | some p' ↦
          some
            (add_registry s.service_id c (add_service (record s { collector = some c }) repo), p')
    ]

    -- One goroutine. `none` is a panic, which ends the program: where the collector cannot be made, its
    -- error is kept for later, but the nil collector is registered before that, and its `Describe` panics.
    unfoldable pub setup_one :
        String → Repository Collector → P.State → Option (Repository Collector × P.State)
    unfolding install
    setup_one id repo p =
        let s = get_service id repo in
        elim s.collector [
          | some c ↦ some (repo, p)
          | none ↦ elim (factories_of s.conn_settings.service_type config.disabled_collectors) [
            | none ↦ some (repo, p)
            | some factories ↦
                elim (new_pgscv_collector M s.service_id factories
                  (collector_config fill config id s)) [ none ↦ none | some c ↦ install s c repo p ]
          ]
        ]

    unfoldable pub setup_all :
        List String → Repository Collector → P.State → Option (Repository Collector × P.State)
    unfolding setup_one
    setup_all [] repo p = some (repo, p)
    setup_all (id ∷ ids) repo p = elim (setup_one id repo p) [
      | none ↦ none
      | some (repo', p') ↦ setup_all ids repo' p'
    ]

    unfoldable pub setup_services :
        Repository Collector → P.State → Option (Repository Collector × P.State)
    unfolding setup_all get_service_ids
    setup_services repo p = setup_all (get_service_ids repo) repo p
