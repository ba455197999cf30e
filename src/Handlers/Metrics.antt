-- ===== src/Handlers/Metrics.antt =====
-- The handlers of `/metrics` and `/flush-services-config` (`getMetricsHandler`, `getFlushHandler`).
pub mod Spacing
use pgscv.Base.{
  ℕ, ◌-◌, ◌*◌, String, Bool, true, false, ◌&&◌, Option, none, some, List, [], ◌∷◌, ◌==◌, string_eq,
  if◌then◌else◌, ltb,
}
use pgscv.Base.Dict
use pgscv.Base.Dict.{Dict}
use pgscv.Base.Int.{ℤ, pos, pos_part, ltb_ℤ}
use pgscv.Service.Repository.{Repository, get_registry, flush_service_config}

-- `rate.Limiter` as `newLimiterFunc` makes it, and its `Allow` at a time.
pub record Limiters : Type 1 where
  pub Limiter : Type 0
  pub new_limiter : Limiter
  pub allow : ℕ → Limiter → Bool × Limiter

-- What the handler keeps between requests. Times are nanoseconds of the monotonic clock.
pub record MetricsState (L : Limiters) : Type 0 where
  pub limiters : Dict String L.Limiter
  pub last_scrape_time : Dict String ℕ

-- The target of a request, the time at which its age is taken, and the time that is noted.
pub record Request : Type 0 where
  pub target : String
  pub now : ℕ
  pub stamp : ℕ

pub data Response (C : Type 0) : Type 0 where
  too_many_requests : Response C
  skipped : Response C
  all_metrics : Response C
  metrics_of : C → Response C
  not_registered : String → Response C

-- `throttlingInterval != nil && *throttlingInterval > 0`
abbrev pub throttles : Option ℤ → Bool
throttles none = false
throttles (some n) = ltb_ℤ (pos 0) n

abbrev pub nanoseconds : Option ℤ → ℕ
nanoseconds none = 0
nanoseconds (some n) = pos_part n * 1000000000

-- `ok && time.Since(t) < interval`
abbrev pub too_early : ℕ → Option ℕ → ℕ → Bool
too_early now none interval = false
too_early now (some t) interval = ltb (now - t) interval

-- What is sent once the request may be served.
unfoldable pub serve : {C : Type 0} → Repository C → String → Response C
serve repo target =
    if target == ""
    then all_metrics
    else elim (get_registry target repo) [ none ↦ not_registered target | some c ↦ metrics_of c ]

module _ (L : Limiters) where
  -- The block on the limiters: whether the request goes on.
  unfoldable pub limit : Request → MetricsState L → Bool × MetricsState L
  limit r st = elim (Dict.lookup r.target st.limiters) [
    | some limiter ↦ (
      (L.allow r.now limiter).0,
      record st { limiters = Dict.insert r.target (L.allow r.now limiter).1 st.limiters },
    )
    | none ↦ (
      true,
      record st { limiters = Dict.insert r.target (L.allow r.now L.new_limiter).1 st.limiters },
    )
  ]

module _ {C : Type 0} (L : Limiters) where
  -- The block on the interval, and what follows it.
  unfoldable pub throttle :
      Option ℤ → Repository C → Request → MetricsState L → Response C × MetricsState L
  unfolding serve
  throttle interval repo r st =
      if throttles interval
      then (if too_early r.now (Dict.lookup r.target st.last_scrape_time) (nanoseconds interval)
          then (skipped, st)
          else (
            serve repo r.target,
            record st { last_scrape_time = Dict.insert r.target r.stamp st.last_scrape_time },
          ))
      else (serve repo r.target, st)

  -- The function that `getMetricsHandler` returns. `limited` tells that `newLimiterFunc` is not nil.
  unfoldable pub handle_metrics :
      Bool → Option ℤ → Repository C → Request → MetricsState L → Response C × MetricsState L
  unfolding limit throttle
  handle_metrics limited interval repo r st =
      if limited
      then (if (limit L r st).0
          then throttle interval repo r (limit L r st).1
          else (too_many_requests, (limit L r st).1))
      else throttle interval repo r st

  -- The function that `getFlushHandler` returns, with one limiter for all requests: whether it flushed,
  -- and what is kept. A panic of the flush is none.
  unfoldable pub handle_flush :
      (C → C)
      → Option L.Limiter
      → ℕ
      → Repository C
      → Option (Bool × Option L.Limiter × Repository C)
  handle_flush flush none now repo = elim (flush_service_config flush repo) [
    | none ↦ none
    | some repo' ↦ some (true, none, repo')
  ]
  handle_flush flush (some limiter) now repo =
      let kept = (L.allow now limiter).1 in
      elim (L.allow now limiter).0 [
        | false ↦ some (false, some kept, repo)
        | true ↦ elim (flush_service_config flush repo) [
          | none ↦ none
          | some repo' ↦ some (true, some kept, repo')
        ]
      ]
