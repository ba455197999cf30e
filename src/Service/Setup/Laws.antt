-- ===== src/Service/Setup/Laws.antt =====
-- What setting up leaves in the repository.
use pgscv.Base.{
  ◌≡◌, refl, ◌∙◌, sym, ◌⊎◌, inl, inr, String, Bool, true, false, ◌||◌, Option, none, some, List, [],
  ◌∷◌, arith, string_eq, ◌==◌, contains, if◌then◌else◌, is_some, all, Option-cases, Bool-cases,
}
use pgscv.Base.Dict
use pgscv.Base.Dict.{Dict, lookup-insert, contains-keys}
use pgscv.Base.External.{Regexps}
use pgscv.Collector.Config.{ServiceConfig}
use pgscv.Collector.Create.{Makers, new_pgscv_collector}
use pgscv.Service.Env.{type_system, type_postgresql, type_pgbouncer, type_patroni}
use pgscv.Service.Repository.{
  Service, Registerer, Repository, or_zero_service, get_service, get_service_ids, get_registry,
  flush_service_config, add_service, add_registry,
}
use pgscv.Service.Repository.Laws.{flush_service_config_ok}
use pgscv.Service.Setup.{
  Config, factories_of, collector_config, Collector, setup_one, setup_all, setup_services,
}

abbrev pub known_type : String → Bool
known_type t = t == type_system || t == type_postgresql || t == type_pgbouncer || t == type_patroni

module _ {C : Type 0} where
  -- Each service stands under its own id, and the registry of a service that has a collector gathers
  -- from that collector.
  pub record RepoInv (repo : Repository C) : Type 0 where
    pub keyed :
        (k : String) (s : Service C) → Dict.lookup k repo.services ≡ some s → s.service_id ≡ k
    pub consistent :
        (k : String) (s : Service C) (c : C)
        → Dict.lookup k repo.services ≡ some s
        → s.collector ≡ some c
        → Dict.lookup k repo.registries ≡ some c

  -- The service's collector, and its registry.
  abbrev pub collector_of : String → Repository C → Option C
  collector_of k repo = (or_zero_service (Dict.lookup k repo.services)).collector

  abbrev pub type_of : String → Repository C → String
  type_of k repo = (or_zero_service (Dict.lookup k repo.services)).conn_settings.service_type

not_all :
    {C : Type 0} (k : String) (services : Dict String (Service C))
    → is_some (Dict.lookup k services) ≡ true
    → (or_zero_service (Dict.lookup k services)).collector ≡ none
    → all (λ (_, s). is_some s.collector) services ≡ false
unfolding Dict.lookup
not_all k [] there bare = cc
not_all k ((j, s) ∷ services) there bare = ground (arith, not_all k services)

factories_of-known_type :
    (t : String) (disabled : List String) → is_some (factories_of t disabled) ≡ known_type t
unfolding factories_of
factories_of-known_type t disabled = ground arith

module _ {R : Regexps} {M : Makers R} (P : Registerer (Collector M)) (fill : String → ServiceConfig)
    (config : Config R) where
  -- The two outcomes of a goroutine that does not panic.
  setup_one_cases :
      (id : String) (repo repo' : Repository (Collector M)) (p p' : P.State)
      → setup_one M P fill config id repo p ≡ some (repo', p')
      → ((repo' ≡ repo)
          × ((is_some (get_service id repo).collector ≡ true)
              ⊎ (known_type (get_service id repo).conn_settings.service_type ≡ false)))
        ⊎ ((c : Collector M) × ((known_type (get_service id repo).conn_settings.service_type ≡ true)
              × (repo'
                  ≡ add_registry
                      (get_service id repo).service_id
                      c
                      (add_service (record (get_service id repo) { collector = some c }) repo))))
  unfolding setup_one
  setup_one_cases id repo repo' p p' h =
      let s = get_service id repo in
      let t = s.conn_settings.service_type in
      elim (Option-cases s.collector) [
        | inr (c, e) ↦ inl (ground arith, inl (ground arith))
        | inl e ↦ elim (Option-cases (factories_of t config.disabled_collectors)) [
          | inl e1 ↦ inl (
            ground arith,
            inr (ground (arith, factories_of-known_type t config.disabled_collectors)),
          )
          | inr (fs, e1) ↦
              elim (Option-cases
                (new_pgscv_collector M s.service_id fs (collector_config M fill config id s))) [
                  | inl e2 ↦ absurd (ground arith)
                  | inr (c, e2) ↦ inr (
                    c,
                    (
                      ground (arith, factories_of-known_type t config.disabled_collectors),
                      ground arith,
                    ),
                  )
                ]
        ]
      ]

  -- What one goroutine keeps of a service: its type, and its collector if it has one.
  Keeps : (k : String) (repo repo' : Repository (Collector M)) → Type 0
  Keeps k repo repo' =
      (is_some (Dict.lookup k repo'.services) ≡ is_some (Dict.lookup k repo.services))
      × (type_of k repo' ≡ type_of k repo)
      × (is_some (collector_of k repo) ≡ true → is_some (collector_of k repo') ≡ true)
      × (known_type (type_of k repo) ≡ false → collector_of k repo' ≡ collector_of k repo)

  installed : String → Collector M → Repository (Collector M) → Repository (Collector M)
  unfolding get_service add_service add_registry
  installed id c repo =
      let s = get_service id repo in
      add_registry s.service_id c (add_service (record s { collector = some c }) repo)

  module _ (id : String) (c : Collector M) (repo : Repository (Collector M)) (inv : RepoInv repo)
      (there : is_some (Dict.lookup id repo.services) ≡ true) where
    service_id-get_service : (get_service id repo).service_id ≡ id
    unfolding get_service
    service_id-get_service = elim (Option-cases (Dict.lookup id repo.services)) [
      | inl e ↦ absurd (ground arith)
      | inr (s, e) ↦ ground (arith, inv.keyed id s e)
    ]

    lookup-installed :
        (k : String)
        → (Dict.lookup k (installed id c repo).services ≡ (
            if k == id
            then some (record (get_service id repo) { collector = some c })
            else Dict.lookup k repo.services))
          × (Dict.lookup k (installed id c repo).registries
              ≡ (if k == id then some c else Dict.lookup k repo.registries))
    unfolding installed
    lookup-installed k = ground (
      arith,
      service_id-get_service,
      lookup-insert k (get_service id repo).service_id
          (record (get_service id repo) { collector = some c }) repo.services,
      lookup-insert k (get_service id repo).service_id c repo.registries,
    )

    installed-RepoInv : RepoInv (installed id c repo)
    installed-RepoInv = record {
      keyed = λ k s e. ground (arith, lookup-installed k, service_id-get_service, inv.keyed k s);
      consistent = λ k s c' e e'. ground (arith, lookup-installed k, inv.consistent k s c');
    }

    installed-Keeps :
        known_type (get_service id repo).conn_settings.service_type ≡ true
        → (k : String) → Keeps k repo (installed id c repo)
    unfolding Keeps get_service
    installed-Keeps known k = ground (arith, lookup-installed k)

    installed_ready : is_some (collector_of id (installed id c repo)) ≡ true
    installed_ready = ground (arith, lookup-installed id)

  -- One goroutine keeps the invariant and every service, and its own service, if its type is known, has a
  -- collector afterwards.
  After : String → Repository (Collector M) → Repository (Collector M) → Type 0
  After id repo repo' =
      RepoInv repo'
      × ((k : String) → Keeps k repo repo')
      × (known_type (type_of id repo) ≡ true → is_some (collector_of id repo') ≡ true)

  setup_one-After :
      (id : String) (repo repo' : Repository (Collector M)) (p p' : P.State)
      → RepoInv repo
      → is_some (Dict.lookup id repo.services) ≡ true
      → setup_one M P fill config id repo p ≡ some (repo', p')
      → After id repo repo'
  unfolding After Keeps installed get_service
  setup_one-After id repo repo' p p' inv there h = elim (setup_one_cases id repo repo' p p' h) [
    | inl (same, why) ↦
        rw same (inv, (λ k. (refl, refl, (λ r. r), λ _. refl)), λ known. ground arith)
    | inr (c, (is_known, made)) ↦ rw made (
      installed-RepoInv id c repo inv there,
      installed-Keeps id c repo inv there is_known,
      λ known. installed_ready id c repo inv there,
    )
  ]

  setup_all-After :
      (ids : List String) (repo repo' : Repository (Collector M)) (p p' : P.State)
      → RepoInv repo
      → ((k : String) → contains ids k ≡ true → is_some (Dict.lookup k repo.services) ≡ true)
      → setup_all M P fill config ids repo p ≡ some (repo', p')
      → RepoInv repo'
        × ((k : String) → Keeps k repo repo')
        × ((k : String)
            → contains ids k ≡ true
            → known_type (type_of k repo) ≡ true
            → is_some (collector_of k repo') ≡ true)
  unfolding setup_all After Keeps
  setup_all-After [] repo repo' p p' inv there h =
      let same : repo ≡ repo' = ground arith in
      rw (← same) (inv, (λ k. (refl, refl, (λ r. r), λ _. refl)), λ k m. cc)
  setup_all-After (id ∷ ids) repo repo' p p' inv there h =
      elim (Option-cases (setup_one M P fill config id repo p)) [
        | inl e ↦ absurd (ground arith)
        | inr ((mid, q), e) ↦
            let first = setup_one-After id repo mid p q inv (there id (ground arith)) e in
            let rest =
              setup_all-After ids mid repo' q p' first.0
                (λ k m. (first.1 k).0 ∙ there k (ground arith)) (ground arith) in
            (
              rest.0,
              (λ k. ground (arith, first.1 k, rest.1 k)),
              λ k m known. elim (Bool-cases (k == id)) [
                | inl own ↦ ground (arith, first.1 k, rest.1 k, first.2)
                | inr other ↦ ground (arith, first.1 k, rest.2 k)
              ],
            )
      ]

  with_registry :
      (k : String) (repo : Repository (Collector M))
      → RepoInv repo
      → is_some (collector_of k repo) ≡ true
      → (c : Collector M) × (collector_of k repo ≡ some c) × (get_registry k repo ≡ some c)
  unfolding get_registry
  with_registry k repo inv h = elim (Option-cases (Dict.lookup k repo.services)) [
    | inl e ↦ absurd (ground arith)
    | inr (s, e) ↦ elim (Option-cases s.collector) [
      | inl e' ↦ absurd (ground arith)
      | inr (c, e') ↦ (c, ground arith, inv.consistent k s c e e')
    ]
  ]

  -- Setting up, where it does not panic, keeps the invariant of the repository, drops and adds no
  -- service, and afterwards every service of a known type has a collector, whose registry is in the
  -- repository.
  pub setup_services-ready :
      (repo repo' : Repository (Collector M)) (p p' : P.State)
      → RepoInv repo
      → setup_services M P fill config repo p ≡ some (repo', p')
      → RepoInv repo'
        × ((k : String)
            → (is_some (Dict.lookup k repo'.services) ≡ is_some (Dict.lookup k repo.services))
              × (type_of k repo' ≡ type_of k repo)
              × (is_some (Dict.lookup k repo.services) ≡ true
                  → known_type (type_of k repo) ≡ true
                  → (c : Collector M) × (collector_of k repo' ≡ some c)
                    × (get_registry k repo' ≡ some c)))
  unfolding setup_services Keeps
  setup_services-ready repo repo' p p' inv h =
      let ids = get_service_ids repo in
      let done =
        setup_all-After ids repo repo' p p' inv (λ k m. sym (contains-keys repo.services k) ∙ m)
          h in
      (
        done.0,
        λ k. (
          (done.1 k).0,
          (done.1 k).1,
          λ there known.
              with_registry k repo' done.0 (done.2 k (contains-keys repo.services k ∙ there) known),
        ),
      )

  -- A service whose type is not known stays without a collector, and the next flush panics.
  pub flush-setup_services :
      (flush : Collector M → Collector M) (repo repo' : Repository (Collector M)) (p p' : P.State)
      (k : String)
      → RepoInv repo
      → is_some (Dict.lookup k repo.services) ≡ true
      → known_type (type_of k repo) ≡ false
      → collector_of k repo ≡ none
      → setup_services M P fill config repo p ≡ some (repo', p')
      → flush_service_config flush repo' ≡ none
  unfolding setup_services Keeps
  flush-setup_services flush repo repo' p p' k inv there unknown bare h =
      let ids = get_service_ids repo in
      let done =
        setup_all-After ids repo repo' p p' inv (λ j m. sym (contains-keys repo.services j) ∙ m)
          h in
      let (same, typed, kept, left) = done.1 k in
      ground (
        arith,
        flush_service_config_ok flush repo',
        not_all k repo'.services (same ∙ there) (left unknown ∙ bare),
      )
