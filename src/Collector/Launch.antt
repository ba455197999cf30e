-- ===== src/Collector/Launch.antt =====
-- How `Collect` decides what to run (internal/collector/collector.go).
pub mod Laws
use pgscv.Base.{
  ℕ, ◌≤◌, ◌≡◌, refl, ◌↔◌, ◌⊎◌, inl, inr, String, Bool, true, false, Option, none, some, List, [],
  ◌∷◌, arith, string_eq, ◌==◌, nat_eq, if◌then◌else◌, length,
}
use pgscv.Base.Dict
use pgscv.Base.Int.{ℤ, pos, negsuc, pos_part, neg_part, ◌≤ℤ◌, ltb_ℤ}
use pgscv.Base.External.{Regexps}
use pgscv.Collector.Config.{Config, ServiceConfig}
use pgscv.Collector.Create.{Makers, PgscvCollector}

-- The limit for a Postgres service with a limit of the user's.
abbrev role_limit : ℤ → ℕ → ℤ
role_limit rol n = if ltb_ℤ (negsuc 0) rol then rol else pos n

abbrev lower : ℤ → ℤ → ℤ
lower user limit = if ltb_ℤ user limit then user else limit

unfoldable pub concurrency_limit : {R : Regexps} → Config R → ℕ → ℤ
concurrency_limit config n =
    if config.service_type == "postgres"
    then (elim config.concurrency_limit [
      | none ↦ pos n
      | some user ↦ lower user (role_limit config.service_config.rol_conn_limit n)
    ])
    else pos n

-- What `Collect` launches: nothing, one collector alone, or all of them under a limit. A limit below
-- zero is the size of no channel, and `make` panics.
pub data Launch {R : Regexps} (M : Makers R) : Type 0 where
  nothing : Launch M
  alone : String → M.Collector → Launch M
  pool : List String → ℕ → Launch M
  panic : Launch M

module _ {R : Regexps} {M : Makers R} where
  abbrev with_limit : List String → ℤ → Launch M
  with_limit names (pos n) = pool names n
  with_limit names (negsuc n) = panic

  abbrev activity_alone : Option M.Collector → Launch M
  activity_alone none = nothing
  activity_alone (some c) = alone "postgres/activity" c

  abbrev run_all : PgscvCollector M → Config R → Launch M
  run_all n config =
      let names = Dict.keys n.collectors in
      with_limit names (concurrency_limit config (length names))

  -- `fill` is what `newPostgresServiceConfig` gives: `none` where the server cannot be asked. The method
  -- works on a copy of the collector, so what it fills in is forgotten afterwards.
  unfoldable pub collect : Option ServiceConfig → PgscvCollector M → Launch M
  unfolding concurrency_limit
  collect fill n =
      if n.config.service_type == "postgres"
      then (if n.config.service_config.block_size == 0
          then (elim fill [
            | none ↦ activity_alone (Dict.lookup "postgres/activity" n.collectors)
            | some filled ↦ run_all n (record n.config { service_config = filled })
          ])
          else run_all n n.config)
      else run_all n n.config
