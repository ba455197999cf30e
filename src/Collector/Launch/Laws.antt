-- ===== src/Collector/Launch/Laws.antt =====
-- What `Collect` launches.
use pgscv.Base.{ℕ, ◌≡◌, ◌≢◌, ◌⊎◌, Option, none, some, arith, string_eq, nat_eq, length}
use pgscv.Base.Dict
use pgscv.Base.Int.{ℤ, pos, negsuc, ◌≤ℤ◌}
use pgscv.Base.External.{Regexps}
use pgscv.Collector.Config.{Config, ServiceConfig}
use pgscv.Collector.Create.{Makers, PgscvCollector}
use pgscv.Collector.Launch.{concurrency_limit, nothing, alone, pool, panic, collect}

-- The limit of the role where it has one, the number of collectors where it has not.
abbrev pub base_limit : ℤ → ℕ → ℤ
base_limit (pos rol) n = pos rol
base_limit (negsuc _) n = pos n

-- For a Postgres service with a limit of the user's, the limit is the lesser of that and of the role's
-- limit, or of the number of collectors if the role is unlimited; for every other service it is the
-- number of collectors.
pub concurrency_limit_bounds :
    {R : Regexps} (config : Config R) (n : ℕ)
    → ((user : ℤ)
        → config.service_type ≡ "postgres"
        → config.concurrency_limit ≡ some user
        → let base = base_limit config.service_config.rol_conn_limit n in
          let limit = concurrency_limit config n in
          (limit ≤ℤ user) × (limit ≤ℤ base) × ((limit ≡ user) ⊎ (limit ≡ base)))
      × ((config.service_type ≢ "postgres") ⊎ (config.concurrency_limit ≡ none)
          → concurrency_limit config n ≡ pos n)
unfolding concurrency_limit
concurrency_limit_bounds config n = (λ user p q. ground arith, λ h. ground arith)

module _ {R : Regexps} {M : Makers R} where
  -- A limit of the user's below zero makes `Collect` panic, for a Postgres service whose configuration
  -- is known.
  pub collect_panics :
      (fill : Option ServiceConfig) (n : PgscvCollector M) (k : ℕ)
      → n.config.service_type ≡ "postgres"
      → n.config.service_config.block_size ≢ 0
      → n.config.concurrency_limit ≡ some (negsuc k)
      → collect fill n ≡ panic
  unfolding collect
  collect_panics fill n k p q r = ground arith

  -- Without a limit of the user's, `Collect` runs all collectors, as many at once as there are; but if
  -- the server of a Postgres service cannot be asked for its configuration, which was not known before,
  -- it runs the activity collector alone, or nothing where that one is disabled.
  pub collect_cases :
      (fill : Option ServiceConfig) (n : PgscvCollector M)
      → n.config.concurrency_limit ≡ none
      → let names = Dict.keys n.collectors in
        ((fill ≢ none)
            ⊎ (n.config.service_type ≢ "postgres")
            ⊎ (n.config.service_config.block_size ≢ 0)
          → collect fill n ≡ pool names (length names))
        × (fill ≡ none
            → n.config.service_type ≡ "postgres"
            → n.config.service_config.block_size ≡ 0
            → collect fill n ≡ (elim (Dict.lookup "postgres/activity" n.collectors) [
              | none ↦ nothing
              | some c ↦ alone "postgres/activity" c
            ]))
  unfolding collect
  collect_cases fill n free = (λ h. ground arith, λ p q r. ground arith)
