-- ===== src/Collector/Tests.antt =====
-- A service with two collectors.
use pgscv.Base.{
  ℕ, ◌≡◌, ◌≢◌, ◌⊎◌, inr, refl, String, false, Option, none, some, [], ◌∷◌, arith, string_eq, nat_eq,
}
use pgscv.Base.Dict
use pgscv.Base.Dict.{Dict}
use pgscv.Base.Int.{ℤ, pos, negsuc, ◌≤ℤ◌}
use pgscv.Base.Samples.{exact_regexps}
use pgscv.Collector.Config.{Config, ServiceConfig}
use pgscv.Collector.Create.{
  Makers, PgscvCollector, new_pgscv_collector, const_labels, lookup-new_pgscv_collector,
}
use pgscv.Collector.Factories.{
  Factories, register_system_collectors, register_postgres_collectors,
  register_pgbouncer_collectors, register_patroni_collectors,
}
use pgscv.Collector.Factories.Laws.{lookup-register_collectors}
use pgscv.Collector.Launch.{concurrency_limit, panic, collect}
use pgscv.Collector.Launch.Laws.{concurrency_limit_bounds, collect_panics}
use pgscv.Collector.Pool.{Pool, start, Run, here, next, initial}
use pgscv.Collector.Pool.Safety.{WithinLimit, total, count, Run-safe}
use pgscv.Collector.Pool.Progress.{Done, Run-finishes}

abbrev makers : Makers exact_regexps
makers = record {
  Collector = String;
  parse_config = λ s. some ("h", "5432");
  make = λ f l s. some f;
}

abbrev asked : ServiceConfig
asked = record {
  local_service = false;
  block_size = 8192;
  wal_segment_size = 0;
  pg_version = record {
    full = "";
    short = "";
    numeric = pos 160000;
    is_aws_aurora = false;
    is_citus = false;
    is_epas = false;
    is_yandex = false;
    is_pgpro = false;
  };
  data_directory = "";
  logging_collector = false;
  log_destination = "";
  pg_stat_statements = false;
  pg_stat_statements_database = "";
  pg_stat_statements_schema = "";
  rol_conn_limit = negsuc 0;
}

abbrev config : Config exact_regexps
config = record {
  no_track_mode = false;
  service_type = "postgres";
  conn_string = "dsn";
  base_url = "";
  service_config = asked;
  databases_re = none;
  settings = [];
  collect_top_table = pos 0;
  collect_top_index = pos 0;
  collect_top_query = pos 0;
  const_labels = none;
  target_labels = none;
  conn_timeout = pos 0;
  concurrency_limit = some (negsuc 4);
}

abbrev factories : Factories
factories = ("postgres/wal", "W") ∷ []

abbrev made : PgscvCollector makers
made = record {
  config = config;
  collectors = ("postgres/wal", "W") ∷ [];
  anchor = ("s", ("service_id", "s") ∷ ("host", "h") ∷ ("port", "5432") ∷ []);
}

abbrev calm : PgscvCollector makers
calm = record made { config = record config { concurrency_limit = none } }

lookup-register_collectors_example :
    (Dict.lookup "system/cpu" (register_system_collectors [] ("postgres" ∷ []))
      ≡ some "NewCPUCollector")
    × (Dict.lookup "system/cpu" (register_postgres_collectors [] ("postgres" ∷ [])) ≡ none)
    × (Dict.lookup "system/cpu" (register_pgbouncer_collectors [] ("postgres" ∷ [])) ≡ none)
    × (Dict.lookup "system/cpu" (register_patroni_collectors [] ("postgres" ∷ [])) ≡ none)
unfolding string_eq mathlib.Core.Option.or_else Dict.lookup
lookup-register_collectors_example = lookup-register_collectors [] ("postgres" ∷ []) "system/cpu"

made_lem : new_pgscv_collector makers "s" factories config ≡ some made
unfolding new_pgscv_collector Dict.insert const_labels
made_lem = refl

lookup-new_pgscv_collector_example : Dict.lookup "postgres/wal" made.collectors ≡ some "W"
unfolding string_eq Dict.lookup
lookup-new_pgscv_collector_example =
    lookup-new_pgscv_collector makers "s" factories config made "h" "5432" "postgres/wal" refl
      made_lem

collect_panics_example : collect none made ≡ panic
collect_panics_example = collect_panics none made 4 refl (omega arith) refl

Run-finishes_example :
    (q : Pool ℕ) × Run 1 (initial ("a" ∷ "b" ∷ [])) q × Done (initial ("a" ∷ "b" ∷ [])) q
Run-finishes_example = Run-finishes 1 (initial ("a" ∷ "b" ∷ []))

abbrev one_runs : Pool ℕ
one_runs = record { waiting = "b" ∷ []; running = "a" ∷ []; finished = []; out = [] }

first_starts : Run 1 (initial ("a" ∷ "b" ∷ [])) one_runs
unfolding initial
first_starts = next here (start [] ("b" ∷ []) [] [] "a" [] (inr (omega arith)))

Run-safe_example :
    WithinLimit 1 one_runs × ((k : String) → total k one_runs ≡ count k ("a" ∷ "b" ∷ []))
Run-safe_example = Run-safe 1 ("a" ∷ "b" ∷ []) one_runs first_starts

concurrency_limit_bounds_example :
    ((user : ℤ)
      → config.service_type ≡ "postgres"
      → config.concurrency_limit ≡ some user
      → (concurrency_limit config 3 ≤ℤ user)
        × (concurrency_limit config 3 ≤ℤ pos 3)
        × ((concurrency_limit config 3 ≡ user) ⊎ (concurrency_limit config 3 ≡ pos 3)))
    × ((config.service_type ≢ "postgres") ⊎ (config.concurrency_limit ≡ none)
        → concurrency_limit config 3 ≡ pos 3)
concurrency_limit_bounds_example = concurrency_limit_bounds config 3

abbrev no_answer : Option ServiceConfig
no_answer = none
