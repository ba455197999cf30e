-- ===== src/Service/Fill/Laws.antt =====
-- Which services the configuration leaves in the repository.
use pgscv.Base.{
  ◌≡◌, refl, String, Option, none, some, [], ◌∷◌, arith, string_eq, ◌==◌, if◌then◌else◌,
}
use pgscv.Base.Dict
use pgscv.Base.Dict.{Dict, NodupKeys, lookup-insert, contains-keys}
use pgscv.Service.Env.{ConnSetting}
use pgscv.Service.Repository.{Service, Repository, add_service}
use pgscv.Service.Fill.{
  Network, Config, reachable, service_from, add_reachable, system_service, add_system,
  add_services_from_config,
}

-- The service that the settings give for a key, if they have one that can be reached; the old one else.
abbrev pub filled :
    {C : Type 0}
    → Network
    → Config
    → String
    → Option ConnSetting
    → Option (Service C)
    → Option (Service C)
filled net config k none old = old
filled net config k (some cs) old =
    if reachable net config cs then some (service_from config k cs) else old

abbrev pub or_system : {C : Type 0} → String → Option (Service C) → Option (Service C)
or_system k (some s) = some s
or_system k none = if k == "system:0" then some system_service else none

pub lookup-add_system :
    {C : Type 0} (k : String) (repo : Repository C)
    → (Dict.lookup k (add_system repo).services ≡ or_system k (Dict.lookup k repo.services))
      × ((add_system repo).registries ≡ repo.registries)
unfolding add_system
lookup-add_system k repo = ground (
  arith,
  lookup-insert k "system:0" system_service repo.services,
  contains-keys repo.services "system:0",
)

module _ {C : Type 0} (net : Network) (config : Config) where
  lookup-add_reachable :
      (k : String) (settings : Dict String ConnSetting) (repo : Repository C)
      → NodupKeys settings
      → Dict.lookup k (add_reachable net config settings repo).services
        ≡ filled net config k (Dict.lookup k settings) (Dict.lookup k repo.services)
  unfolding add_reachable Dict.lookup
  lookup-add_reachable k [] repo u = refl
  lookup-add_reachable k ((j, cs) ∷ settings) repo u = ground (
    arith,
    lookup-add_reachable k settings repo u.1,
    lookup-add_reachable k settings (add_service (service_from config j cs) repo) u.1,
    lookup-insert k j (service_from config j cs) repo.services,
  )

  add_reachable_registries :
      (settings : Dict String ConnSetting) (repo : Repository C)
      → (add_reachable net config settings repo).registries ≡ repo.registries
  unfolding add_reachable
  add_reachable_registries [] repo = refl
  add_reachable_registries ((j, cs) ∷ settings) repo = ground (
    arith,
    add_reachable_registries settings repo,
    add_reachable_registries settings (add_service (service_from config j cs) repo),
  )

  -- The system service is in the repository afterwards, unless it was there before; besides, each
  -- setting whose service can be reached, or whose connection error is skipped, has replaced what its
  -- key held, and nothing else has changed, the registries included.
  pub lookup-add_services_from_config :
      (settings : Dict String ConnSetting) (repo : Repository C) (k : String)
      → config.conns_settings ≡ some settings
      → NodupKeys settings
      → (Dict.lookup k (add_services_from_config net config repo).services
          ≡ filled net config k
              (Dict.lookup k settings)
              (or_system k (Dict.lookup k repo.services)))
        × ((add_services_from_config net config repo).registries ≡ repo.registries)
  unfolding add_services_from_config
  lookup-add_services_from_config settings repo k given u = ground (
    arith,
    lookup-add_reachable k settings (add_system repo) u,
    add_reachable_registries settings (add_system repo),
    lookup-add_system k repo,
  )
