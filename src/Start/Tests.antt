-- ===== src/Start/Tests.antt =====
-- A start with one discovery that knows one database.
use pgscv.Base.{
  ◌≡◌, ◌≢◌, refl, ap, String, true, false, none, some, List, [], ◌∷◌, arith, string_eq, nat_eq,
  ◌==◌, inr,
}
use pgscv.Base.Dict
use pgscv.Base.Samples.{exact_regexps}
use pgscv.Collector.Create.{Makers, PgscvCollector}
use pgscv.Discovery.Types.{Engine}
use pgscv.Service.Fill.{Network}
use pgscv.Service.Repository.{Registerer}
use pgscv.Collector.Config.{zero_service_config}
use pgscv.Settings.{Config, no_config}
use pgscv.Start.{start, Running}
use pgscv.Start.First.{Started, start-Started}

abbrev makers : Makers exact_regexps
makers = record {
  Collector = String;
  parse_config = λ s. some ("h", "6432");
  make = λ f l s. some f;
}

abbrev C : Type 0
C = PgscvCollector makers

abbrev registerer : Registerer C
registerer = record { State = List C; must_register = λ c p. some (c ∷ p); unregister = λ c p. [] }

abbrev network : Network
network = record {
  get = λ tls url. none;
  parses = λ s. s == "postgresql://u:p@h:6432/d";
  connects = λ s. false;
}

abbrev config : Config exact_regexps
config = record no_config {
  disable_collectors = "system" ∷ "postgres" ∷ [];
  skip_conn_error_mode = true;
}

abbrev engine : Engine
engine = record {
  user = "u";
  password = "p";
  target_labels = none;
  dsn = ("h_d", record { dsn = "postgresql://u:p@h:6432/d"; name = "c"; labels = [] }) ∷ [];
  version = 1;
}

abbrev started : Running makers registerer network (λ s. zero_service_config) config
started =
    start makers registerer network (λ s. zero_service_config) config (some ((engine ∷ []) ∷ [])) []

started_lem : started.error ≡ none
unfolding start Dict.keys pgscv.Service.Fill.add_system Dict.insert
    pgscv.Service.Repository.get_service Dict.lookup string_eq pgscv.Service.Setup.factories_of
    pgscv.Collector.Create.new_pgscv_collector pgscv.Collector.Factories.register_system_collectors
    pgscv.Collector.Factories.register_group pgscv.Service.Fill.add_reachable
    pgscv.Collector.Factories.register_postgres_collectors
started_lem = refl

other_id : ◌≢◌ {A = String} "h_d" "system:0"
unfolding string_eq
other_id e = let same = ap (λ s. s == "system:0") e in ground (arith, same)

start-Started_example :
    Started makers registerer network
      (λ s. zero_service_config)
      config
      "h_d"
      other_id
      (engine ∷ [])
      started
unfolding string_eq
start-Started_example =
    start-Started makers registerer network (λ s. zero_service_config) config "h_d" other_id
      (engine ∷ []) [] tt (((λ _. (refl, inr refl)), tt), tt) started_lem
