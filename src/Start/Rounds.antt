-- ===== src/Start/Rounds.antt =====
-- From the start of the program on, the repository follows the discovery.
use pgscv.Base.{
  ◌≡◌, ◌≢◌, refl, ℕ, String, not, ◌&&◌, Option, none, some, List, [], ◌∷◌, arith, string_eq,
  contains, is_some, Option-cases, Bool-cases, inl, inr,
}
use pgscv.Base.Dict
use pgscv.Base.Dict.{Dict, NodupKeys}
use pgscv.Base.External.{Regexps}
use pgscv.Mapops.{Joined, left_only, both, right_only, full_join}
use pgscv.Collector.Config.{ServiceConfig}
use pgscv.Collector.Create.{Makers}
use pgscv.Discovery.Types as Discovery
use pgscv.Discovery.Types.{ClusterDsn, Engine}
use pgscv.Discovery.Subscribers.{
  Subscriber, Changes, or_zero, service_of, change, changes, plan, sync_one,
}
use pgscv.Discovery.Subscribers.Versions.{known}
use pgscv.Discovery.Subscribers.Registered.{Registrar, sync_one-registered}
use pgscv.Service.Fill.{Network}
use pgscv.Service.Repository.{Registerer}
use pgscv.Service.Setup.{Collector}
use pgscv.Settings.{Config}
use pgscv.Start.{World, add_discovered, remove_discovered}
use pgscv.Start.Registered.{
  Usable, Kept, has_service, has_service-add_discovered, has_service-remove_all,
}

change-synced :
    (services : Dict String ClusterDsn) (j : Joined String) (c : Changes)
    → NodupKeys c.synced
    → NodupKeys (change services j c).synced
unfolding change
change-synced services (left_only k) c u =
    Dict.insert-NodupKeys k (service_of (or_zero (Dict.lookup k services))) c.synced u
change-synced services (both k) c u = u
change-synced services (right_only k) c u = Dict.erase-NodupKeys k c.synced u

changes-synced :
    (services : Dict String ClusterDsn) (js : List (Joined String)) (c : Changes)
    → NodupKeys c.synced
    → NodupKeys (changes services js c).synced
unfolding changes
changes-synced services [] c u = u
changes-synced services (j ∷ js) c u =
    changes-synced services js (change services j c) (change-synced services j c u)

sync_one-synced :
    {W : Type 0} (engines : List Engine) (s : Subscriber W) (w : W)
    → NodupKeys s.synced_services
    → NodupKeys (sync_one engines s w).0.synced_services
unfolding sync_one plan
sync_one-synced engines s w u = elim (Bool-cases (plan engines s).0.need_sync) [
  | inl new ↦
      let found = (plan engines s).0 in
      rw new (
        changes-synced found.services (full_join found.services s.synced_services)
          (record { remove_svc = []; append_svc = []; synced = s.synced_services }) u)
  | inr old ↦ rw old u
]

module _ {R : Regexps} (M : Makers R) (P : Registerer (Collector M)) (net : Network)
    (fill : String → ServiceConfig) (config : Config R) where
  -- The subscriber of the program, with what it remembers.
  abbrev pub program :
      Dict ℕ ℕ → Dict String Discovery.Service → Subscriber (World M P net fill config)
  program versions services = record {
    add_service = add_discovered M P net fill config;
    remove_service = remove_discovered M P net fill config;
    synced_version = versions;
    synced_services = services;
  }

  -- The rounds of a discovery that finds these engines, up to the first error.
  abbrev pub rounds :
      List (List Engine)
      → Dict ℕ ℕ
      → Dict String Discovery.Service
      → World M P net fill config
      → (Dict ℕ ℕ × Dict String Discovery.Service) × World M P net fill config × Option String
  rounds [] versions services w = ((versions, services), w, none)
  rounds (engines ∷ later) versions services w =
      let (s, w', error) = sync_one engines (program versions services) w in
      let rest = rounds later s.synced_version s.synced_services w' in
      elim error [ some e ↦ ((s.synced_version, s.synced_services), w', some e) | none ↦ rest ]

  sync_one-program :
      (engines : List Engine) (versions : Dict ℕ ℕ) (services : Dict String Discovery.Service)
      (w : World M P net fill config)
      → let s = (sync_one engines (program versions services) w).0 in
        s ≡ program s.synced_version s.synced_services
  unfolding sync_one
  sync_one-program engines versions services w =
      elim (Bool-cases (plan engines (program versions services)).0.need_sync) [
        | inl new ↦ rw new refl
        | inr old ↦ rw old refl
      ]

  -- The connection string that the engines have for the id, if any, can be used.
  abbrev pub UsableIn : String → List Engine → Type 0
  UsableIn k engines =
      (d : ClusterDsn) → known k engines ≡ some d → Usable net config.skip_conn_error_mode d.dsn

  abbrev pub AllUsable : String → List (List Engine) → Type 0
  AllUsable k [] = Unit
  AllUsable k (engines ∷ found) = UsableIn k engines × AllUsable k found

  module _ (k : String) (other : k ≢ "system:0") where
    program_registrar :
        (versions : Dict ℕ ℕ) (services : Dict String Discovery.Service)
        → Registrar (program versions services) k
    unfolding remove_discovered
    program_registrar versions services = record {
      Ok = Kept M P net fill config;
      registered = has_service M P net fill config k;
      Fit = Usable net config.skip_conn_error_mode;
      adds = λ services w ready u fit h.
          has_service-add_discovered M P net fill config k other services w ready u fit h;
      removes = λ ids w ready h. removes ids w ready h;
    }
      where
        removes :
            (ids : List String) (w : World M P net fill config)
            → Kept M P net fill config w
            → (remove_discovered M P net fill config ids w).1 ≡ none
            → (has_service M P net fill config k (remove_discovered M P net fill config ids w).0
                ≡ (not (contains ids k) && has_service M P net fill config k w))
              × Kept M P net fill config (remove_discovered M P net fill config ids w).0
        removes ids none ready h = absurd (ground arith)
        removes ids (some (repo, p)) inv h =
            has_service-remove_all M P net fill config ids k repo p inv

    -- What the subscriber remembers is what the repository has.
    abbrev pub Agrees : Dict String Discovery.Service → World M P net fill config → Type 0
    Agrees services w =
        NodupKeys services
        × Kept M P net fill config w
        × (has_service M P net fill config k w ≡ is_some (Dict.lookup k services))

    sync_one-Agrees :
        (engines : List Engine) (versions : Dict ℕ ℕ) (services : Dict String Discovery.Service)
        (w : World M P net fill config)
        → Agrees services w
        → UsableIn k engines
        → (sync_one engines (program versions services) w).2 ≡ none
        → Agrees
            (sync_one engines (program versions services) w).0.synced_services
            (sync_one engines (program versions services) w).1
    unfolding program_registrar
    sync_one-Agrees engines versions services w (u, ready, same) usable h =
        let s = program versions services in
        let after =
          sync_one-registered s k (program_registrar versions services) engines w u ready usable
            same h in
        (sync_one-synced engines s w u, after.1, after.0)

    -- The repository follows the discovery: for an id other than system:0, if the repository has it just when
    -- the subscriber remembers it, and what the engines have for it can be used, then, after any rounds that
    -- end without an error, the repository has it just when the subscriber remembers it, and the invariant of
    -- the repository is kept.
    pub rounds-Agrees :
        (found : List (List Engine)) (versions : Dict ℕ ℕ)
        (services : Dict String Discovery.Service) (w : World M P net fill config)
        → Agrees services w
        → AllUsable k found
        → (rounds found versions services w).2 ≡ none
        → Agrees (rounds found versions services w).0.1 (rounds found versions services w).1
    rounds-Agrees [] versions services w agrees _ h = agrees
    rounds-Agrees (engines ∷ later) versions services w agrees (usable, usable_later) h =
        elim (Option-cases (sync_one engines (program versions services) w).2) [
          | inl fine ↦
              let s = (sync_one engines (program versions services) w).0 in
              rw (fine, rounds)
                (rounds-Agrees later s.synced_version s.synced_services
                  (sync_one engines (program versions services) w).1
                  (sync_one-Agrees engines versions services w agrees usable fine) usable_later
                  (ground (arith, fine)))
          | inr (e, failed) ↦ absurd (ground (arith, failed))
        ]
