-- ===== src/Service/Repository/Laws.antt =====
-- What the methods of the repository do to what it holds.
use pgscv.Base.{
  ◌≡◌, refl, String, true, false, some, [], ◌∷◌, arith, string_eq, ◌==◌, if◌then◌else◌, is_some,
  all,
}
use pgscv.Base.Dict
use pgscv.Base.Dict.{Dict, NodupKeys, lookup-insert, lookup-erase, contains-keys}
use pgscv.Service.Repository.{
  Service, Registerer, Repository, zero_service, add_service, get_registry, get_service,
  service_exists, remove_service, flush_all, flush_service_config,
}

module _ {C : Type 0} where
  -- An added service is found under its id, and the other services and all registries stay as they were.
  pub get_service-add_service :
      (s : Service C) (id : String) (repo : Repository C)
      → (get_service id (add_service s repo)
          ≡ (if id == s.service_id then s else get_service id repo))
        × (service_exists id (add_service s repo)
            ≡ (if id == s.service_id then true else service_exists id repo))
        × (get_registry id (add_service s repo) ≡ get_registry id repo)
  unfolding get_service add_service service_exists get_registry
  get_service-add_service s id repo = ground (
    arith,
    lookup-insert id s.service_id s repo.services,
    contains-keys repo.services id,
    contains-keys (Dict.insert s.service_id s repo.services) id,
  )

  -- A removed service is gone and the others stay; its collector is unregistered from the default
  -- registerer. Its registry stays in the repository.
  pub get_service-remove_service :
      (P : Registerer C) (id j : String) (repo : Repository C) (p : P.State)
      → let (repo', p') = remove_service P id repo p in
        (get_service j repo' ≡ (if j == id then zero_service else get_service j repo))
        × (service_exists j repo' ≡ (if j == id then false else service_exists j repo))
        × (get_registry j repo' ≡ get_registry j repo)
        × ((c : C) → (get_service id repo).collector ≡ some c → p' ≡ P.unregister c p)
  unfolding get_service remove_service service_exists get_registry
  get_service-remove_service P id j repo p = (
    ground (arith, lookup-erase j id repo.services),
    ground (
      arith,
      lookup-erase j id repo.services,
      contains-keys repo.services j,
      contains-keys (Dict.erase id repo.services) j,
    ),
    ground arith,
    λ c h. ground arith,
  )

  flush_all_ok :
      (flush : C → C) (services : Dict String (Service C))
      → is_some (flush_all flush services) ≡ all (λ (_, s). is_some s.collector) services
  unfolding flush_all
  flush_all_ok flush [] = refl
  flush_all_ok flush ((id, s) ∷ services) = ground (arith, flush_all_ok flush services)

  -- A flush goes through if every service has a collector, and panics if one has none.
  pub flush_service_config_ok :
      (flush : C → C) (repo : Repository C)
      → is_some (flush_service_config flush repo)
        ≡ all (λ (_, s). is_some s.collector) repo.services
  unfolding flush_service_config
  flush_service_config_ok flush repo = ground (arith, flush_all_ok flush repo.services)
