-- ===== src/Start/First.antt =====
-- What is in the repository when the program has started, and from then on.
use pgscv.Base.{
  ◌≡◌, ◌≢◌, refl, ◌∙◌, ◌+◌, ℕ, String, false, Option, none, some, List, [], ◌∷◌, arith, string_eq,
  nat_eq, is_some, Option-cases, Bool-cases, ◌==◌, inl, inr,
}
use pgscv.Base.Dict
use pgscv.Base.Dict.{Dict, NodupKeys}
use pgscv.Base.External.{Regexps}
use pgscv.Collector.Config.{ServiceConfig}
use pgscv.Collector.Create.{Makers}
use pgscv.Discovery.Types as Discovery
use pgscv.Discovery.Types.{ClusterDsn, Engine, set_labels}
use pgscv.Discovery.Subscribers.{
  const_labels, call_add, subscribe_entries, subscribe_all, subscribe,
}
use pgscv.Discovery.Subscribers.Versions.{known}
use pgscv.Discovery.Subscribers.Rounds.{subscribe_all_services}
use pgscv.Service.Env.{ConnSetting}
use pgscv.Service.Fill as Fill
use pgscv.Service.Fill.{Network, add_system, add_services_from_config}
use pgscv.Service.Fill.Laws.{lookup-add_system, lookup-add_services_from_config}
use pgscv.Service.Repository.{Registerer, Repository, new_repository}
use pgscv.Service.Setup as Setup
use pgscv.Service.Setup.{Collector, setup_services}
use pgscv.Service.Setup.Laws.{RepoInv, setup_services-ready}
use pgscv.Settings.{Config}
use pgscv.Start.{
  World, fill_config, setup_config, subscriber_id, enter, subscribe_each, start, Running,
}
use pgscv.Start.Registered.{
  Usable, UsableAt, Kept, has_service, has_service-add_discovered, add_services_from_config-RepoInv,
}
use pgscv.Start.Rounds.{AllUsable, program, rounds, Agrees, rounds-Agrees}

subscribe_entries-NodupKeys :
    (e : Engine) (ds : Dict String ClusterDsn) (m : Dict String Discovery.Service)
    → NodupKeys m
    → NodupKeys (subscribe_entries e ds m)
unfolding subscribe_entries
subscribe_entries-NodupKeys e [] m u = u
subscribe_entries-NodupKeys e ((k, d) ∷ ds) m u =
    let labels : Dict String String = elim e.target_labels [
      | none ↦ []
      | some ls ↦ set_labels ls []
    ] in
    let svc : Discovery.Service = record {
      dsn = d.dsn;
      const_labels = const_labels d;
      target_labels = labels;
    } in
    subscribe_entries-NodupKeys e ds (Dict.insert k svc m) (Dict.insert-NodupKeys k svc m u)

subscribe_all-NodupKeys :
    (i : ℕ) (es : List Engine) (m : Dict String Discovery.Service) (v : Dict ℕ ℕ)
    → NodupKeys m
    → NodupKeys (subscribe_all i es m v).0
unfolding subscribe_all
subscribe_all-NodupKeys i [] m v u = u
subscribe_all-NodupKeys i (e ∷ es) m v u =
    subscribe_all-NodupKeys (i + 1) es (subscribe_entries e e.dsn m) (Dict.insert i e.version v)
      (subscribe_entries-NodupKeys e e.dsn m u)

-- The settings are a map that does not have the id.
abbrev pub WithoutId : String → Option (Dict String ConnSetting) → Type 0
WithoutId k none = Unit
WithoutId k (some settings) = NodupKeys settings × (Dict.lookup k settings ≡ none)

new_repository-RepoInv : {C : Type 0} → RepoInv {C = C} new_repository
unfolding new_repository Dict.lookup
new_repository-RepoInv = record {
  keyed = λ k s h. ground arith;
  consistent = λ k s c h e. ground arith;
}

add_system-RepoInv : {C : Type 0} (repo : Repository C) → RepoInv repo → RepoInv (add_system repo)
add_system-RepoInv repo inv = record {
  keyed = λ k s h. ground (arith, lookup-add_system k repo, inv.keyed k s);
  consistent = λ k s c h e. ground (arith, lookup-add_system k repo, inv.consistent k s c);
}

module _ {C : Type 0} (net : Network) (fill_with : Fill.Config) (k : String)
    (other : k ≢ "system:0") where
  lookup-new_repository : Dict.lookup k (new_repository {C = C}).services ≡ none
  unfolding new_repository Dict.lookup
  lookup-new_repository = refl

  first_fill :
      (settings : Option (Dict String ConnSetting))
      → fill_with.conns_settings ≡ settings
      → WithoutId k settings
      → RepoInv (add_services_from_config {C = C} net fill_with new_repository)
        × (Dict.lookup k (add_services_from_config {C = C} net fill_with new_repository).services
            ≡ none)
  unfolding add_services_from_config
  first_fill none given h = (
    rw (given, add_services_from_config) (add_system-RepoInv new_repository new_repository-RepoInv),
    ground (arith, given, lookup-add_system {C = C} k new_repository, lookup-new_repository),
  )
  first_fill (some settings) given (u, absent) = (
    add_services_from_config-RepoInv net fill_with settings given u new_repository
        new_repository-RepoInv,
    ground (
      arith,
      (lookup-add_services_from_config {C = C} net fill_with settings new_repository k given u).0,
      lookup-new_repository,
    ),
  )

module _ {R : Regexps} (M : Makers R) (P : Registerer (Collector M)) (net : Network)
    (fill : String → ServiceConfig) (config : Config R) (k : String) (other : k ≢ "system:0") where
  first_enter :
      (settings : Option (Dict String ConnSetting)) (setup_with : Setup.Config R) (p : P.State)
      → WithoutId k settings
      → (enter M P net fill config
          (fill_config config settings none none)
          setup_with
          (some (new_repository, p))).1
        ≡ none
      → let w =
          (enter M P net fill config
            (fill_config config settings none none)
            setup_with
            (some (new_repository, p))).0 in
        Kept M P net fill config w × (has_service M P net fill config k w ≡ false)
  unfolding enter
  first_enter settings setup_with p h fine =
      let fill_with = fill_config config settings none none in
      let (inv, absent) = first_fill {C = Collector M} net fill_with k other settings refl h in
      elim (Option-cases (
        setup_services M P fill setup_with (add_services_from_config net fill_with new_repository)
          p)) [
            | inl e ↦ absurd (ground (arith, e))
            | inr ((repo, q), e) ↦
                let done =
                  setup_services-ready P fill setup_with
                    (add_services_from_config net fill_with new_repository) repo p q inv e in
                (rw (e, enter) done.0, ground (arith, e, absent, (done.1 k).0))
          ]

  remembered :
      (engines : List Engine)
      → is_some (Dict.lookup k (subscribe_all 0 engines [] []).0) ≡ is_some (known k engines)
  unfolding Dict.lookup
  remembered engines = ground (arith, subscribe_all_services k 0 engines [] [])

  -- The entries of the engines under the id have connection strings that can be used.
  abbrev pub EntriesUsable : Dict String ClusterDsn → Type 0
  EntriesUsable [] = Unit
  EntriesUsable ((j, d) ∷ ds) =
      (j ≡ k → Usable net config.skip_conn_error_mode d.dsn) × EntriesUsable ds

  abbrev pub EnginesUsable : List Engine → Type 0
  EnginesUsable [] = Unit
  EnginesUsable (e ∷ es) = EntriesUsable e.dsn × EnginesUsable es

  insert-UsableAt :
      (j : String) (svc : Discovery.Service) (m : Dict String Discovery.Service)
      → (j ≡ k → Usable net config.skip_conn_error_mode svc.dsn)
      → UsableAt M P net fill config k other m
      → UsableAt M P net fill config k other (Dict.insert j svc m)
  insert-UsableAt j svc m here there svc' found = elim (Bool-cases (k == j)) [
    | inl same ↦
        let own : svc ≡ svc' = ground (arith, Dict.lookup-insert k j svc m) in
        rw (← own) (here (ground arith))
    | inr not_same ↦ there svc' (ground (arith, Dict.lookup-insert k j svc m))
  ]

  subscribe_entries-UsableAt :
      (e : Engine) (ds : Dict String ClusterDsn) (m : Dict String Discovery.Service)
      → EntriesUsable ds
      → UsableAt M P net fill config k other m
      → UsableAt M P net fill config k other (subscribe_entries e ds m)
  unfolding subscribe_entries
  subscribe_entries-UsableAt e [] m _ usable = usable
  subscribe_entries-UsableAt e ((j, d) ∷ ds) m (here, later) usable =
      let labels : Dict String String = elim e.target_labels [
        | none ↦ []
        | some ls ↦ set_labels ls []
      ] in
      let svc : Discovery.Service = record {
        dsn = d.dsn;
        const_labels = const_labels d;
        target_labels = labels;
      } in
      subscribe_entries-UsableAt e ds (Dict.insert j svc m) later
        (insert-UsableAt j svc m here usable)

  subscribe_all-UsableAt :
      (i : ℕ) (es : List Engine) (m : Dict String Discovery.Service) (v : Dict ℕ ℕ)
      → EnginesUsable es
      → UsableAt M P net fill config k other m
      → UsableAt M P net fill config k other (subscribe_all i es m v).0
  unfolding subscribe_all
  subscribe_all-UsableAt i [] m v _ usable = usable
  subscribe_all-UsableAt i (e ∷ es) m v (here, later) usable =
      subscribe_all-UsableAt (i + 1) es (subscribe_entries e e.dsn m) (Dict.insert i e.version v)
        later (subscribe_entries-UsableAt e e.dsn m here usable)

  nothing-UsableAt : UsableAt M P net fill config k other []
  unfolding Dict.lookup
  nothing-UsableAt svc found = absurd (ground arith)

  -- The first announcement, if there is one.
  first_call :
      (versions : Dict ℕ ℕ) (services : Dict String Discovery.Service)
      (w : World M P net fill config)
      → NodupKeys services
      → UsableAt M P net fill config k other services
      → Kept M P net fill config w
      → has_service M P net fill config k w ≡ false
      → (call_add (program M P net fill config versions services) services w).1 ≡ none
      → Agrees M P net fill config k other services
          (call_add (program M P net fill config versions services) services w).0
  unfolding Dict.lookup
  first_call versions [] w u usable ready absent fine = (u, ready, absent)
  first_call versions (svc ∷ services) w u usable ready absent fine =
      let (added, kept) =
        has_service-add_discovered M P net fill config k other (svc ∷ services) w ready u usable
          fine in
      (u, kept, ground (arith, added, absent))

  subscribe_each-Agrees :
      (engines : List Engine) (w : World M P net fill config)
      → EnginesUsable engines
      → Kept M P net fill config w
      → has_service M P net fill config k w ≡ false
      → (subscribe_each M P net fill config (engines ∷ []) w).error ≡ none
      → let all = subscribe_all 0 engines [] [] in
        let r = subscribe_each M P net fill config (engines ∷ []) w in
        (r.subscribers ≡ ((subscriber_id, program M P net fill config all.1 all.0) ∷ []) ∷ [])
        × Agrees M P net fill config k other all.0 r.world
  unfolding subscribe_each subscribe Dict.insert
  subscribe_each-Agrees engines w usable ready absent fine =
      let all = subscribe_all 0 engines [] [] in
      let s = program M P net fill config all.1 all.0 in
      elim (Option-cases (call_add s all.0 w).1) [
        | inl quiet ↦ (
          ground (arith, quiet),
          rw (quiet, subscribe_each)
              (first_call all.1 all.0 w (subscribe_all-NodupKeys 0 engines [] [] tt)
                (subscribe_all-UsableAt 0 engines [] [] usable nothing-UsableAt) ready absent
                quiet),
        )
        | inr (e, failed) ↦ absurd (ground (arith, failed))
      ]

  -- The world and the subscriber after the start with one discovery, and what it remembers.
  abbrev pub Started : List Engine → Running M P net fill config → Type 0
  Started engines r =
      (versions : Dict ℕ ℕ) × (services : Dict String Discovery.Service) × (r.subscribers
        ≡ ((subscriber_id, program M P net fill config versions services) ∷ []) ∷ [])
      × (has_service M P net fill config k r.world ≡ is_some (known k engines))
      × ((found : List (List Engine))
          → let after = rounds M P net fill config found versions services r.world in
            AllUsable M P net fill config k found
            → after.2 ≡ none
            → has_service M P net fill config k after.1 ≡ is_some (Dict.lookup k after.0.1))

  -- For an id other than system:0 that the settings, whose keys are distinct, do not have: if the program
  -- starts with one discovery without an error, and the connection strings that its engines have for the id
  -- parse and a connection can be made by them, unless connection errors are skipped, then its subscriber is
  -- registered and the repository has the id just when the engines know it; and after any rounds that end
  -- without an error, in which what the engines have for the id can be used in the same way, the repository
  -- has it just when the subscriber remembers it.
  pub start-Started :
      (engines : List Engine) (p : P.State)
      → WithoutId k config.services_conns_settings
      → EnginesUsable engines
      → (start M P net fill config (some (engines ∷ [])) p).error ≡ none
      → Started engines (start M P net fill config (some (engines ∷ [])) p)
  unfolding start
  start-Started engines p h usable fine =
      let settings = config.services_conns_settings in
      let setup_with = setup_config config config.databases_re none none in
      let entered =
        enter M P net fill config (fill_config config settings none none) setup_with
          (some (new_repository, p)) in
      elim (Option-cases entered.1) [
        | inr (e, failed) ↦ absurd (ground (arith, failed))
        | inl quiet ↦
            let (ready, absent) = first_enter settings setup_with p h quiet in
            let all = subscribe_all 0 engines [] [] in
            let done =
              subscribe_each-Agrees engines entered.0 usable ready absent (ground (arith, quiet)) in
            rw (quiet, start)
              (
                all.1,
                all.0,
                done.0,
                done.1.2 ∙ remembered engines,
                λ found usable_later none_failed.
                    (rounds-Agrees M P net fill config k other found all.1 all.0
                      (subscribe_each M P net fill config (engines ∷ []) entered.0).world done.1
                      usable_later none_failed).2,
              )
      ]
