-- ===== src/Discovery/Subscribers.antt =====
-- `Subscribe`, `Unsubscribe` and `Sync` (internal/discovery/service/yandex.go). A callback of a
-- subscriber acts on a world `W` and may fail; the error is its text.
pub mod Join
pub mod Versions
pub mod Rounds
pub mod Registered
use pgscv.Base.{
  ℕ, ◌+◌, String, Bool, true, false, Option, none, some, List, [], ◌∷◌, ◌++◌, nat_eq, string_eq,
  ◌==◌, if◌then◌else◌, length,
}
use pgscv.Base.Dict
use pgscv.Base.Dict.{Dict}
use pgscv.Mapops.{Joined, left_only, both, right_only, full_join}
use pgscv.Discovery.Types.{Label, ClusterDsn, Service, Engine, zero_dsn, set_labels}

-- `subscriber`
pub record Subscriber (W : Type 0) : Type 0 where
  pub add_service : Dict String Service → W → W × Option String
  pub remove_service : List String → W → W × Option String
  pub synced_version : Dict ℕ ℕ
  pub synced_services : Dict String Service

abbrev pub or_zero : Option ClusterDsn → ClusterDsn
or_zero none = zero_dsn
or_zero (some d) = d

abbrev pub version_or_zero : Option ℕ → ℕ
version_or_zero none = 0
version_or_zero (some v) = v

abbrev pub const_labels : ClusterDsn → Dict String String
const_labels d = ("mdb_cluster", d.name) ∷ ("provider", "yandex-mdb") ∷ []

-- The service that `Sync` announces for an entry of an engine.
unfoldable pub service_of : ClusterDsn → Service
unfolding set_labels
service_of d = record {
  dsn = d.dsn;
  const_labels = const_labels d;
  target_labels = set_labels d.labels [];
}

-- What the first loop of `Sync` finds out: the versions to remember, whether one has changed, and the
-- services of all engines, where a later engine overrides an earlier one.
pub record Scan : Type 0 where
  pub versions : Dict ℕ ℕ
  pub need_sync : Bool
  pub services : Dict String ClusterDsn

unfoldable pub scan_engine : ℕ → Engine → Scan → Scan
scan_engine i e s =
    let s' = record s { services = Dict.copy s.services e.dsn } in
    if version_or_zero (Dict.lookup i s.versions) == e.version
    then s'
    else record s' { versions = Dict.insert i e.version s.versions; need_sync = true }

unfoldable pub scan : ℕ → List Engine → Scan → Scan
unfolding scan_engine
scan i [] s = s
scan i (e ∷ es) s = scan (i + 1) es (scan_engine i e s)

-- The loop over the join.
pub record Changes : Type 0 where
  pub remove_svc : List String
  pub append_svc : Dict String Service
  pub synced : Dict String Service

unfoldable pub change : Dict String ClusterDsn → Joined String → Changes → Changes
unfolding service_of
change services (right_only k) c = record c {
  remove_svc = c.remove_svc ++ (k ∷ []);
  synced = Dict.erase k c.synced;
}
change services (left_only k) c =
    let svc = service_of (or_zero (Dict.lookup k services)) in
    record c { append_svc = Dict.insert k svc c.append_svc; synced = Dict.insert k svc c.synced }
change services (both k) c = c

unfoldable pub changes : Dict String ClusterDsn → List (Joined String) → Changes → Changes
unfolding change
changes services [] c = c
changes services (j ∷ js) c = changes services js (change services j c)

-- The loop of `Subscribe` over one engine's entries, with the labels of the engine's configuration.
unfoldable pub subscribe_entries :
    Engine → Dict String ClusterDsn → Dict String Service → Dict String Service
unfolding set_labels
subscribe_entries e [] m = m
subscribe_entries e ((k, d) ∷ ds) m = subscribe_entries e ds (
    Dict.insert k
      (record {
        dsn = d.dsn;
        const_labels = const_labels d;
        target_labels = elim e.target_labels [ none ↦ [] | some ls ↦ set_labels ls [] ];
      })
      m)

-- The loop over the engines: the services of all of them, and their versions.
unfoldable pub subscribe_all :
    ℕ → List Engine → Dict String Service → Dict ℕ ℕ → Dict String Service × Dict ℕ ℕ
unfolding subscribe_entries
subscribe_all i [] services versions = (services, versions)
subscribe_all i (e ∷ es) services versions =
    subscribe_all (i + 1) es (subscribe_entries e e.dsn services) (Dict.insert i e.version versions)

module _ {W : Type 0} where
  -- `if len(removeSvc) > 0 { … }`
  abbrev pub call_remove : Subscriber W → List String → W → W × Option String
  call_remove s [] w = (w, none)
  call_remove s (k ∷ ks) w = s.remove_service (k ∷ ks) w

  -- `if len(appendSvc) > 0 { … }`
  abbrev pub call_add : Subscriber W → Dict String Service → W → W × Option String
  call_add s [] w = (w, none)
  call_add s (svc ∷ svcs) w = s.add_service (svc ∷ svcs) w

  -- The two calls, the second only where the first gave no error.
  unfoldable pub announce : Subscriber W → Changes → W → W × Option String
  announce s c w =
      let (w', error) = call_remove s c.remove_svc w in
      elim error [ some e ↦ (w', some e) | none ↦ call_add s c.append_svc w' ]

  -- What one round would do to a subscriber.
  unfoldable pub plan : List Engine → Subscriber W → Scan × Changes
  unfolding scan changes
  plan engines s =
      let found =
        scan 0 engines (record { versions = s.synced_version; need_sync = false; services = [] }) in
      (
        found,
        changes found.services (full_join found.services s.synced_services)
            (record { remove_svc = []; append_svc = []; synced = s.synced_services }),
      )

  -- The body of the loop of `Sync` over the subscribers. Their maps are written before the calls.
  unfoldable pub sync_one : List Engine → Subscriber W → W → Subscriber W × W × Option String
  unfolding plan announce
  sync_one engines s w =
      let (found, c) = plan engines s in
      if found.need_sync
      then (let (w', error) = announce s c w in
          (record s { synced_version = found.versions; synced_services = c.synced }, w', error))
      else (record s { synced_version = found.versions }, w, none)

  -- `Sync`: the first error ends it.
  unfoldable pub sync :
      List Engine → Dict String (Subscriber W) → W → Dict String (Subscriber W) × W × Option String
  unfolding sync_one
  sync engines [] w = ([], w, none)
  sync engines ((id, s) ∷ subs) w =
      let (s', w', error) = sync_one engines s w in
      let rest = sync engines subs w' in
      elim error [
        | some e ↦ ((id, s') ∷ subs, w', some e)
        | none ↦ ((id, s') ∷ rest.0, rest.1, rest.2)
      ]

  -- `Subscribe`: the subscriber is in the map also where its callback fails.
  unfoldable pub subscribe :
      List Engine
      → String
      → (Dict String Service → W → W × Option String)
      → (List String → W → W × Option String)
      → Dict String (Subscriber W)
      → W
      → Dict String (Subscriber W) × W × Option String
  unfolding subscribe_all
  subscribe engines id add_service remove_service subs w =
      let (services, versions) = subscribe_all 0 engines [] [] in
      let s : Subscriber W = record {
        add_service = add_service;
        remove_service = remove_service;
        synced_version = versions;
        synced_services = services;
      } in
      let (w', error) = call_add s services w in (Dict.insert id s subs, w', error)

  -- `Unsubscribe`: the subscriber leaves the map whether or not its callback fails.
  unfoldable pub unsubscribe :
      String → Dict String (Subscriber W) → W → Dict String (Subscriber W) × W × Option String
  unsubscribe id subs w = elim (Dict.lookup id subs) [
    | none ↦ (subs, w, none)
    | some s ↦
        let (w', error) = s.remove_service (Dict.keys s.synced_services) w in
        (Dict.erase id subs, w', error)
  ]
