-- ===== src/Handlers/Metrics/Spacing.antt =====
-- The scrapes of one target keep the throttling interval.
use pgscv.Base.{
  ◌≡◌, ℕ, String, Bool, true, false, ◌&&◌, Option, some, List, [], ◌∷◌, ◌==◌, string_eq,
}
use pgscv.Base.Dict
use pgscv.Base.Int.{ℤ}
use pgscv.Service.Repository.{Repository}
use pgscv.Handlers.Metrics.{
  Limiters, MetricsState, Request, Response, too_many_requests, skipped, handle_metrics, too_early,
  nanoseconds,
}

-- The response is neither a refusal nor the empty one of a request that comes too early.
abbrev pub is_served : {C : Type 0} → Response C → Bool
is_served too_many_requests = false
is_served skipped = false
is_served _ = true

-- Every request for the target that is served comes at least the interval after the last one that was.
abbrev pub Spaced :
    {C : Type 0} → (interval : ℕ) → String → List (Request × Response C) → Option ℕ → Type 0
Spaced interval target [] last = Unit
Spaced interval target ((r, answer) ∷ answers) last =
    elim (r.target == target && is_served answer) [
      | true ↦
          (too_early r.now last interval ≡ false) × Spaced interval target answers (some r.stamp)
      | false ↦ Spaced interval target answers last
    ]

module _ {C : Type 0} (L : Limiters) (limited : Bool) (interval : Option ℤ)
    (repo : Repository C) where
  -- The requests in their order, each with its response.
  unfoldable pub run : List Request → MetricsState L → List (Request × Response C)
  unfolding handle_metrics
  run [] st = []
  run (r ∷ requests) st =
      (r, (handle_metrics L limited interval repo r st).0)
      ∷ run requests (handle_metrics L limited interval repo r st).1

  -- One request that is not served keeps the time of the last scrape, and one that is comes late enough.
  abbrev Follows : String → Request → Response C × MetricsState L → Option ℕ → Type 0
  Follows target r done last = elim (r.target == target && is_served done.0) [
    | true ↦
        (too_early r.now last (nanoseconds interval) ≡ false)
        × (Dict.lookup target done.1.last_scrape_time ≡ some r.stamp)
    | false ↦ Dict.lookup target done.1.last_scrape_time ≡ last
  ]
