-- ===== src/Start/Registered.antt =====
-- What the announcements of a discovery leave in the repository.
use pgscv.Base.{
  ◌⊎◌, ◌≡◌, ◌≢◌, refl, String, Bool, true, false, not, ◌&&◌, ◌||◌, Option, none, some, List, [],
  ◌∷◌, arith, string_eq, ◌==◌, if◌then◌else◌, contains, is_some, Option-cases, inl, inr,
}
use pgscv.Base.Dict
use pgscv.Base.Dict.{Dict, NodupKeys, lookup-erase, contains-keys}
use pgscv.Base.External.{Regexps}
use pgscv.Collector.Config.{ServiceConfig}
use pgscv.Collector.Create.{Makers}
use pgscv.Discovery.Types as Discovery
use pgscv.Service.Env.{ConnSetting, type_postgresql, type_patroni}
use pgscv.Service.Fill as Fill
use pgscv.Service.Fill.{Network, reachable, service_from, add_services_from_config}
use pgscv.Service.Fill.Laws.{lookup-add_services_from_config}
use pgscv.Service.Repository.{Registerer, Repository, remove_service}
use pgscv.Service.Setup as Setup
use pgscv.Service.Setup.{Collector, setup_services}
use pgscv.Service.Setup.Laws.{RepoInv, setup_services-ready}
use pgscv.Settings.{Config}
use pgscv.Start.{
  fill_config, setup_config, settings_of, const_labels_of, target_labels_of, World, enter,
  add_discovered, remove_all,
}

-- The setting that an announced service becomes.
abbrev pub setting_for : Option Discovery.Service → Option ConnSetting
setting_for none = none
setting_for (some svc) = some (record {
  service_type = type_postgresql;
  conninfo = svc.dsn;
  base_url = "";
  target_labels = none;
})

lookup-settings_of :
    (k : String) (services : Dict String Discovery.Service)
    → Dict.lookup k (settings_of services) ≡ setting_for (Dict.lookup k services)
unfolding settings_of Dict.lookup
lookup-settings_of k [] = refl
lookup-settings_of k ((id, svc) ∷ services) = ground (arith, lookup-settings_of k services)

settings_of-NodupKeys :
    (services : Dict String Discovery.Service)
    → NodupKeys services
    → NodupKeys (settings_of services)
unfolding settings_of
settings_of-NodupKeys [] u = tt
settings_of-NodupKeys ((id, svc) ∷ services) (fresh, u) =
    (ground (arith, lookup-settings_of id services), settings_of-NodupKeys services u)

no_patroni : ◌==◌ {A = String} type_postgresql type_patroni ≡ false
unfolding string_eq
no_patroni = refl

-- A connection string that parses, and by which a connection can be made unless its errors are skipped.
abbrev pub Usable : Network → Bool → String → Type 0
Usable net skips dsn = (net.parses dsn ≡ true) × ((net.connects dsn ≡ true) ⊎ (skips ≡ true))

reachable_lem :
    (net : Network) (config : Fill.Config) (k : String) (services : Dict String Discovery.Service)
    (cs : ConnSetting)
    → ((svc : Discovery.Service)
        → Dict.lookup k services ≡ some svc
        → Usable net config.skip_conn_error_mode svc.dsn)
    → setting_for (Dict.lookup k services) ≡ some cs
    → reachable net config cs ≡ true
unfolding reachable
reachable_lem net config k services cs usable found = elim (Option-cases (Dict.lookup k services)) [
  | inl e ↦ absurd (ground arith)
  | inr (svc, e) ↦ ground (arith, no_patroni, usable svc e)
]

module _ {C : Type 0} (net : Network) (config : Fill.Config) (settings : Dict String ConnSetting)
    (given : config.conns_settings ≡ some settings) (u : NodupKeys settings) where
  pub add_services_from_config-RepoInv :
      (repo : Repository C) → RepoInv repo → RepoInv (add_services_from_config net config repo)
  unfolding service_from
  add_services_from_config-RepoInv repo inv = record {
    keyed = λ k s e.
        ground (
          arith,
          lookup-add_services_from_config net config settings repo k given u,
          inv.keyed k s,
        );
    consistent = λ k s c e e'. ground (
      arith,
      lookup-add_services_from_config net config settings repo k given u,
      inv.consistent k s c,
    );
  }

lookup-remove_service :
    {C : Type 0} (P : Registerer C) (id k : String) (repo : Repository C) (p : P.State)
    → Dict.lookup k (remove_service P id repo p).0.services
      ≡ (if k == id then none else Dict.lookup k repo.services)
unfolding remove_service
lookup-remove_service P id k repo p = ground (arith, lookup-erase k id repo.services)

remove_service_registries :
    {C : Type 0} (P : Registerer C) (id : String) (repo : Repository C) (p : P.State)
    → (remove_service P id repo p).0.registries ≡ repo.registries
unfolding remove_service
remove_service_registries P id repo p = ground arith

remove_service-RepoInv :
    {C : Type 0} (P : Registerer C) (id : String) (repo : Repository C) (p : P.State)
    → RepoInv repo
    → RepoInv (remove_service P id repo p).0
remove_service-RepoInv P id repo p inv = record {
  keyed = λ k s e. ground (arith, lookup-remove_service P id k repo p, inv.keyed k s);
  consistent = λ k s c e f. ground (
    arith,
    lookup-remove_service P id k repo p,
    remove_service_registries P id repo p,
    inv.consistent k s c,
  );
}

module _ {R : Regexps} (M : Makers R) (P : Registerer (Collector M)) (net : Network)
    (fill : String → ServiceConfig) (config : Config R) where
  abbrev pub Kept : World M P net fill config → Type 0
  Kept none = Unit
  Kept (some (repo, _)) = RepoInv repo

  abbrev pub has_service : String → World M P net fill config → Bool
  has_service k none = false
  has_service k (some (repo, _)) = is_some (Dict.lookup k repo.services)

  pub has_service-remove_all :
      (ids : List String) (k : String) (repo : Repository (Collector M)) (p : P.State)
      → RepoInv repo
      → (is_some (Dict.lookup k (remove_all M P net fill config ids (repo, p)).0.services)
          ≡ (not (contains ids k) && is_some (Dict.lookup k repo.services)))
        × RepoInv (remove_all M P net fill config ids (repo, p)).0
  unfolding remove_all
  has_service-remove_all [] k repo p inv = (refl, inv)
  has_service-remove_all (id ∷ ids) k repo p inv =
      let next = remove_service P id repo p in
      let later =
        has_service-remove_all ids k next.0 next.1 (remove_service-RepoInv P id repo p inv) in
      (ground (arith, later.0, lookup-remove_service P id k repo p), later.1)

  abbrev announced : Dict String Discovery.Service → Fill.Config
  announced services =
      fill_config config (some (settings_of services)) (some (const_labels_of services))
        (some (target_labels_of services))

  abbrev set_up : Dict String Discovery.Service → Setup.Config R
  set_up services =
      setup_config config none (some (const_labels_of services)) (some (target_labels_of services))

  module _ (k : String) (other : k ≢ "system:0") where
    -- The service that is announced under the id can be used.
    abbrev pub UsableAt : Dict String Discovery.Service → Type 0
    UsableAt services =
        (svc : Discovery.Service)
        → Dict.lookup k services ≡ some svc
        → Usable net config.skip_conn_error_mode svc.dsn

    filled_is_some :
        (services : Dict String Discovery.Service) (repo : Repository (Collector M))
        → NodupKeys services
        → UsableAt services
        → is_some (Dict.lookup k (add_services_from_config net (announced services) repo).services)
          ≡ (is_some (Dict.lookup k services) || is_some (Dict.lookup k repo.services))
    filled_is_some services repo u usable =
        let filling =
          (lookup-add_services_from_config net (announced services) (settings_of services) repo k
            refl (settings_of-NodupKeys services u)).0 in
        elim (Option-cases (Dict.lookup k services)) [
          | inl e ↦ ground (arith, filling, lookup-settings_of k services)
          | inr (svc, e) ↦ ground (
            arith,
            filling,
            lookup-settings_of k services,
            reachable_lem net (announced services) k services
                (record {
                  service_type = type_postgresql;
                  conninfo = svc.dsn;
                  base_url = "";
                  target_labels = none;
                })
                usable,
          )
        ]

    pub has_service-add_discovered :
        (services : Dict String Discovery.Service) (w : World M P net fill config)
        → Kept w
        → NodupKeys services
        → UsableAt services
        → (add_discovered M P net fill config services w).1 ≡ none
        → (has_service k (add_discovered M P net fill config services w).0
            ≡ (is_some (Dict.lookup k services) || has_service k w))
          × Kept (add_discovered M P net fill config services w).0
    unfolding add_discovered enter
    has_service-add_discovered services none ready u usable h = absurd (ground arith)
    has_service-add_discovered services (some (repo, p)) inv u usable h =
        let added = add_services_from_config net (announced services) repo in
        elim (Option-cases (setup_services M P fill (set_up services) added p)) [
          | inl e ↦ absurd (ground arith)
          | inr ((repo', p'), e) ↦
              let done =
                setup_services-ready P fill (set_up services) added repo' p p'
                  (add_services_from_config-RepoInv net (announced services) (settings_of services)
                    refl (settings_of-NodupKeys services u) repo inv)
                  e in
              (ground (arith, e, (done.1 k).0, filled_is_some services repo u usable), rw e done.0)
        ]
