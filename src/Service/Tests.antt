-- ===== src/Service/Tests.antt =====
-- A repository with a PgBouncer and a service of an unknown type.
use pgscv.Base.{
  ◌≡◌, ◌↔◌, refl, String, true, false, Option, none, some, List, [], ◌∷◌, arith, string_eq, nat_eq,
  is_some,
}
use pgscv.Base.Dict
use pgscv.Base.Dict.{Dict}
use pgscv.Base.Int.{pos}
use pgscv.Base.Samples.{exact_regexps}
use pgscv.Collector.Create.{Makers, PgscvCollector}
use pgscv.Service.Env.{dsn_setting, url_setting, type_pgbouncer, type_patroni}
use pgscv.Service.Repository.{
  Service, Registerer, Repository, zero_service, get_service, get_registry, flush_service_config,
}
use pgscv.Service.Repository.Laws.{flush_service_config_ok}
use pgscv.Service.Fill as Fill
use pgscv.Service.Fill.{Network, add_services_from_config, service_from}
use pgscv.Service.Fill.Answers.{IsFrom, Answers, lookup-add_services_from_config_new}
use pgscv.Service.Setup as Setup
use pgscv.Service.Setup.{setup_services}
use pgscv.Collector.Config.{zero_service_config}
use pgscv.Service.Setup.Laws.{
  RepoInv, type_of, collector_of, known_type, setup_services-ready, flush-setup_services,
}

abbrev makers : Makers exact_regexps
makers = record {
  Collector = String;
  parse_config = λ s. some ("h", "6432");
  make = λ f l s. some f;
}

abbrev C : Type 0
C = PgscvCollector makers

abbrev registerer : Registerer C
registerer = record { State = List C; must_register = λ c p. some (c ∷ p); unregister = λ c p. [] }

abbrev bouncer : Service C
bouncer = record zero_service { service_id = "b"; conn_settings = dsn_setting type_pgbouncer "b" }

abbrev odd : Service C
odd = record zero_service { service_id = "x"; conn_settings = dsn_setting "mysql" "x" }

abbrev one : Repository C
one = record { services = ("b", bouncer) ∷ []; registries = [] }

abbrev other : Repository C
other = record { services = ("x", odd) ∷ []; registries = [] }

one-RepoInv : RepoInv one
unfolding Dict.lookup
one-RepoInv = record { keyed = λ k s h. ground arith; consistent = λ k s c h e. ground arith }

other-RepoInv : RepoInv other
unfolding Dict.lookup
other-RepoInv = record { keyed = λ k s h. ground arith; consistent = λ k s c h e. ground arith }

abbrev config : Setup.Config exact_regexps
config = record {
  no_track_mode = false;
  databases_re = none;
  disabled_collectors = "pgbouncer/pools" ∷ "pgbouncer/stats" ∷ "pgbouncer/settings" ∷ [];
  collectors_settings = [];
  collect_top_table = pos 0;
  collect_top_index = pos 0;
  collect_top_query = pos 0;
  const_labels = none;
  target_labels = none;
  conn_timeout = pos 0;
  concurrency_limit = none;
}

or_other : Option (Repository C × List C) → Repository C × List C
or_other none = (other, [])
or_other (some r) = r

after : Repository C × List C
after = or_other (setup_services makers registerer (λ s. zero_service_config) config one [])

after_lem : setup_services makers registerer (λ s. zero_service_config) config one [] ≡ some after
unfolding after or_other setup_services Dict.keys get_service Dict.lookup string_eq
    Setup.factories_of pgscv.Collector.Create.new_pgscv_collector
    pgscv.Collector.Factories.register_pgbouncer_collectors pgscv.Collector.Factories.register_group
    pgscv.Collector.Factories.register_all pgscv.Collector.Factories.register Dict.insert
after_lem = refl

other_lem :
    setup_services makers registerer (λ s. zero_service_config) config other [] ≡ some (other, [])
unfolding setup_services Dict.keys get_service Dict.lookup string_eq Setup.factories_of
other_lem = refl

setup_services-ready_example :
    RepoInv after.0
    × ((k : String)
        → (is_some (Dict.lookup k after.0.services) ≡ is_some (Dict.lookup k one.services))
          × (type_of k after.0 ≡ type_of k one)
          × (is_some (Dict.lookup k one.services) ≡ true
              → known_type (type_of k one) ≡ true
              → (c : C) × (collector_of k after.0 ≡ some c) × (get_registry k after.0 ≡ some c)))
setup_services-ready_example =
    setup_services-ready registerer (λ s. zero_service_config) config one after.0 [] after.1
      one-RepoInv after_lem

flush-setup_services_example : flush_service_config (λ c. c) other ≡ none
unfolding Dict.lookup string_eq
flush-setup_services_example =
    flush-setup_services registerer (λ s. zero_service_config) config (λ c. c) other other [] [] "x"
      other-RepoInv refl refl refl other_lem

flush_service_config_ok_example : is_some (flush_service_config (λ c. c) one) ≡ false
flush_service_config_ok_example = flush_service_config_ok (λ c. c) one

abbrev network : Network
network = record { get = λ tls url. some 503; parses = λ s. true; connects = λ s. false }

abbrev filling : Fill.Config
filling = record {
  conns_settings = some (("p", url_setting type_patroni "http://p") ∷ []);
  skip_conn_error_mode = false;
  const_labels = none;
  target_labels = none;
}

lookup-add_services_from_config_new_example :
    let filled = (add_services_from_config network filling one).services in
    ((is_some (Dict.lookup "p" filled) ≡ true)
      ↔ Answers network filling (url_setting type_patroni "http://p"))
    × ((s : Service C)
        → Dict.lookup "p" filled ≡ some s
        → IsFrom filling "p" (url_setting type_patroni "http://p") s)
unfolding Dict.lookup string_eq
lookup-add_services_from_config_new_example =
    lookup-add_services_from_config_new network filling
      (("p", url_setting type_patroni "http://p") ∷ []) one "p"
      (url_setting type_patroni "http://p") refl (refl, tt) (λ same. cc) refl refl
