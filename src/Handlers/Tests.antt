-- ===== src/Handlers/Tests.antt =====
-- Tests of the handlers. A collector is a text, and a limiter counts down.
use pgscv.Base.{◌≡◌, refl, ℕ, ◌-◌, String, true, Option, none, some, List, [], ◌∷◌, ltb, string_eq}
use pgscv.Base.Dict
use pgscv.Base.Dict.{Dict}
use pgscv.Base.Int.{ℤ, pos}
use pgscv.Service.Env.{dsn_setting}
use pgscv.Service.Repository.{Service, Repository}
use pgscv.Handlers.Metrics.{
  Limiters, MetricsState, Request, Response, skipped, metrics_of, not_registered,
}
use pgscv.Handlers.Metrics.Spacing.{run}
use pgscv.Handlers.Targets.{Target, group_targets, base_url, handle_targets}
use pgscv.Handlers.Targets.Groups.{expected, lookup-targets}

abbrev counters : Limiters
counters = record { Limiter = ℕ; new_limiter = 20; allow = λ now n. (ltb 0 n, n - 1) }

abbrev service : String → Option (Dict String String) → Service String
service id labels = record {
  service_id = id;
  conn_settings = dsn_setting "postgres" "";
  collector = some id;
  const_labels = none;
  target_labels = labels;
}

abbrev services : Dict String (Service String)
services =
    ("a", service "a" none)
    ∷ ("b", service "b" (some (("env", "prod") ∷ [])))
    ∷ ("c", service "c" none)
    ∷ []

abbrev repository : Repository String
repository = record { services = services; registries = ("a", "a") ∷ [] }

abbrev nothing_yet : MetricsState counters
nothing_yet = record { limiters = []; last_scrape_time = [] }

abbrev second : ℕ
second = 1000000000

abbrev at_times : List Request
at_times =
    record { target = "a"; now = 0; stamp = 0 }
    ∷ record { target = "a"; now = second; stamp = second }
    ∷ record { target = "b"; now = second; stamp = second }
    ∷ record { target = "a"; now = 6000000000; stamp = 6000000000 }
    ∷ []

abbrev every_five : Option ℤ
every_five = some (pos 5)

abbrev answers : List (Request × Response String)
answers =
    (record { target = "a"; now = 0; stamp = 0 }, metrics_of "a")
    ∷ (record { target = "a"; now = second; stamp = second }, skipped)
    ∷ (record { target = "b"; now = second; stamp = second }, not_registered "b")
    ∷ (record { target = "a"; now = 6000000000; stamp = 6000000000 }, metrics_of "a")
    ∷ []

answers_lem : run counters true every_five repository at_times nothing_yet ≡ answers
unfolding run Dict.lookup string_eq pgscv.Service.Repository.get_registry Dict.insert
answers_lem = refl

-- Labels as Go prints a map with one key.
abbrev show : Dict String String → String
show labels = "map[env:prod]"

targets_lem :
    handle_targets show "/pgscv/" true "host" repository
    ≡ record { targets = "pgscv/metrics?target=a" ∷ "pgscv/metrics?target=c" ∷ []; labels = none }
      ∷ record { targets = "pgscv/metrics?target=b" ∷ []; labels = some (("env", "prod") ∷ []) }
      ∷ []
unfolding handle_targets pgscv.Handlers.Targets.values Dict.insert string_eq Dict.lookup
targets_lem = refl

lookup-targets_example :
    Dict.lookup "no_labels" (group_targets show "host" services [])
    ≡ expected show "host" "no_labels" services
lookup-targets_example = lookup-targets show "host" "no_labels" services
