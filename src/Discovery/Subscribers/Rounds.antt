-- ===== src/Discovery/Subscribers/Rounds.antt =====
-- One round of `Sync` for one subscriber, and a round that follows another or a `Subscribe`.
use mathlib.Core.Option
use mathlib.Core.Option.{or_else}
use pgscv.Base.{
  ℕ, ◌+◌, ◌≡◌, refl, ap, String, Bool, false, not, ◌&&◌, ◌||◌, ◌<◌, Option, none, some, List, [],
  ◌∷◌, arith, string_eq, nat_eq, contains, if◌then◌else◌, is_some, Bool-cases, inl, inr,
}
use pgscv.Base.Dict
use pgscv.Base.Dict.{Dict, NodupKeys, lookup-insert}
use pgscv.Mapops.{full_join, entry-full_join, full_join-NodupEntries}
use pgscv.Discovery.Types.{ClusterDsn, Service, Engine, set_labels}
use pgscv.Discovery.Subscribers.{
  Subscriber, Scan, Changes, service_of, call_add, scan, const_labels, plan, sync_one,
  subscribe_entries, subscribe_all, subscribe,
}
use pgscv.Discovery.Types.LastLabel.{last_value, lookup-set_labels}
use pgscv.Discovery.Subscribers.Join.{changes_synced, changes_append_svc, changes_remove_svc}
use pgscv.Discovery.Subscribers.Versions.{
  known, Current, lookup-scan, scan-NodupKeys, scan-Current, scan_same, Current-of_scan,
}

module _ {W : Type 0} (engines : List Engine) (s : Subscriber W) where
  -- The remembered services after a round that has something to do: one entry of each service of the
  -- engines, the old one where there was one.
  abbrev pub wanted : String → Option Service
  wanted k = elim (known k engines) [
    | none ↦ none
    | some d ↦ or_else (Dict.lookup k s.synced_services) (some (service_of d))
  ]

  -- A service is to be taken away if it was remembered and no engine has it any more.
  abbrev pub gone : String → Bool
  gone k = is_some (Dict.lookup k s.synced_services) && not (is_some (known k engines))

  -- A service is to be added if an engine has it and it was not remembered.
  abbrev pub fresh : String → Option Service
  fresh k =
      if is_some (Dict.lookup k s.synced_services)
      then none
      else Option.map service_of (known k engines)

  abbrev found : Scan
  found = (plan engines s).0

  module _ (u : NodupKeys s.synced_services) (k : String) where
    pub plan_facts :
        (Dict.lookup k (plan engines s).1.synced ≡ wanted k)
        × (Dict.lookup k (plan engines s).1.append_svc ≡ fresh k)
        × (contains (plan engines s).1.remove_svc k ≡ gone k)
    unfolding plan or_else Dict.lookup
    plan_facts =
        let start : Scan = record {
          versions = s.synced_version;
          need_sync = false;
          services = [];
        } in
        let services = (scan 0 engines start).services in
        let join = full_join services s.synced_services in
        let zero : Changes = record {
          remove_svc = [];
          append_svc = [];
          synced = s.synced_services;
        } in
        let nodup =
          full_join-NodupEntries services s.synced_services (scan-NodupKeys 0 engines start tt) u in
        let which = entry-full_join k services s.synced_services in
        let all = lookup-scan k 0 engines start in
        (
          ground (arith, changes_synced services k join zero nodup, which, all),
          ground (arith, changes_append_svc services k join zero nodup, which, all),
          ground (arith, changes_remove_svc services k join zero nodup, which, all),
        )

sync_one-Current :
    {W : Type 0} (engines : List Engine) (s : Subscriber W) (w : W)
    → Current 0 engines s.synced_version
    → sync_one engines s w ≡ (s, w, none)
unfolding sync_one
sync_one-Current engines s w h =
    let start : Scan = record { versions = s.synced_version; need_sync = false; services = [] } in
    let (same, idle) = scan_same 0 engines start h in rw (idle, same)

-- The service that an engine's entry should become: its connection string, the cluster and the provider as
-- constant labels, and the labels of the engine, of which the last of a name counts.
abbrev pub IsAnnounced : ClusterDsn → Service → Type 0
IsAnnounced d svc =
    (svc.dsn ≡ d.dsn)
    × (svc.const_labels ≡ ("mdb_cluster", d.name) ∷ ("provider", "yandex-mdb") ∷ [])
    × ((name : String) → Dict.lookup name svc.target_labels ≡ last_value name d.labels)

-- What should be remembered of an id, by what was and by what the engines know.
abbrev pub Remembers : Option Service → Option ClusterDsn → Option Service → Type 0
Remembers old none new = new ≡ none
Remembers (some svc) (some d) new = new ≡ some svc
Remembers none (some d) new = (svc : Service) × (new ≡ some svc) × IsAnnounced d svc

service_of-IsAnnounced : (d : ClusterDsn) → IsAnnounced d (service_of d)
unfolding service_of
service_of-IsAnnounced d = (refl, refl, λ name. lookup-set_labels name d.labels)

abbrev wanted_of : Option Service → Option ClusterDsn → Option Service
wanted_of old none = none
wanted_of old (some d) = or_else old (some (service_of d))

wanted_of-Remembers :
    (old : Option Service) (o : Option ClusterDsn) → Remembers old o (wanted_of old o)
unfolding or_else
wanted_of-Remembers old none = refl
wanted_of-Remembers (some svc) (some d) = refl
wanted_of-Remembers none (some d) = (service_of d, refl, service_of-IsAnnounced d)

-- Where the remembered versions are those of the engines, a round does nothing at all: it calls no callback.
-- Otherwise it remembers their versions and exactly the services that they have: a service that it
-- remembered before keeps its entry, and a new one has the labels and the connection string of its engine.
pub lookup-sync_one :
    {W : Type 0} (engines : List Engine) (s : Subscriber W) (w : W) (k : String)
    → NodupKeys s.synced_services
    → (Current 0 engines s.synced_version → sync_one engines s w ≡ (s, w, none))
      × (¬ Current 0 engines s.synced_version
          → let s' = (sync_one engines s w).0 in
            Current 0 engines s'.synced_version
            × Remembers
                (Dict.lookup k s.synced_services)
                (known k engines)
                (Dict.lookup k s'.synced_services))
unfolding sync_one
lookup-sync_one engines s w k u =
    let start : Scan = record { versions = s.synced_version; need_sync = false; services = [] } in
    (
      sync_one-Current engines s w,
      λ stale. elim (Bool-cases (plan engines s).0.need_sync) [
        | inl new ↦ rw new (
          scan-Current 0 engines start,
          rw ((plan_facts engines s u k).0)
              (wanted_of-Remembers (Dict.lookup k s.synced_services) (known k engines)),
        )
        | inr old ↦ absurd (stale (Current-of_scan 0 engines start old).1)
      ],
    )

-- A second round over unchanged engines calls no callback and changes nothing.
pub sync_one_again :
    {W : Type 0} (engines : List Engine) (s : Subscriber W) (w w' : W)
    → let s' = (sync_one engines s w).0 in sync_one engines s' w' ≡ (s', w', none)
unfolding sync_one
sync_one_again engines s w w' =
    let start : Scan = record { versions = s.synced_version; need_sync = false; services = [] } in
    sync_one-Current engines (sync_one engines s w).0 w'
      (elim (Bool-cases (plan engines s).0.need_sync) [
        | inl new ↦ rw new (scan-Current 0 engines start)
        | inr old ↦ rw old (scan-Current 0 engines start)
      ])

lookup-subscribe_entries :
    (k : String) (e : Engine) (ds : Dict String ClusterDsn) (m : Dict String Service)
    → is_some (Dict.lookup k (subscribe_entries e ds m))
      ≡ (is_some (Dict.lookup k ds) || is_some (Dict.lookup k m))
unfolding subscribe_entries Dict.lookup
lookup-subscribe_entries k e [] m = refl
lookup-subscribe_entries k e ((j, d) ∷ ds) m =
    let svc : Service = record {
      dsn = d.dsn;
      const_labels = const_labels d;
      target_labels = elim e.target_labels [ none ↦ [] | some ls ↦ set_labels ls [] ];
    } in
    ground (arith, lookup-subscribe_entries k e ds (Dict.insert j svc m), lookup-insert k j svc m)

pub subscribe_all_services :
    (k : String) (i : ℕ) (es : List Engine) (m : Dict String Service) (v : Dict ℕ ℕ)
    → is_some (Dict.lookup k (subscribe_all i es m v).0)
      ≡ (is_some (known k es) || is_some (Dict.lookup k m))
unfolding subscribe_all or_else
subscribe_all_services k i [] m v = refl
subscribe_all_services k i (e ∷ es) m v = ground (
  arith,
  subscribe_all_services k (i + 1) es (subscribe_entries e e.dsn m) (Dict.insert i e.version v),
  lookup-subscribe_entries k e e.dsn m,
)

subscribe_all_below :
    (j i : ℕ) (es : List Engine) (m : Dict String Service) (v : Dict ℕ ℕ)
    → j < i
    → Dict.lookup j (subscribe_all i es m v).1 ≡ Dict.lookup j v
unfolding subscribe_all
subscribe_all_below j i [] m v h = refl
subscribe_all_below j i (e ∷ es) m v h = ground (
  arith,
  subscribe_all_below j (i + 1) es (subscribe_entries e e.dsn m) (Dict.insert i e.version v),
  lookup-insert j i e.version v,
)

subscribe_all-Current :
    (i : ℕ) (es : List Engine) (m : Dict String Service) (v : Dict ℕ ℕ)
    → Current i es (subscribe_all i es m v).1
unfolding subscribe_all
subscribe_all-Current i [] m v = tt
subscribe_all-Current i (e ∷ es) m v =
    let m' = subscribe_entries e e.dsn m in
    let v' = Dict.insert i e.version v in
    (
      ground (arith, subscribe_all_below i (i + 1) es m' v', lookup-insert i i e.version v),
      subscribe_all-Current (i + 1) es m' v',
    )

-- The call of a callback, which is left out where there is nothing to add.
abbrev pub told :
    {W : Type 0}
    → (Dict String Service → W → W × Option String)
    → Dict String Service
    → W
    → W × Option String
told add_service [] w = (w, none)
told add_service (svc ∷ services) w = add_service (svc ∷ services) w

call_add-told :
    {W : Type 0} (s : Subscriber W) (services : Dict String Service) (w : W)
    → call_add s services w ≡ told s.add_service services w
call_add-told s [] w = refl
call_add-told s (svc ∷ services) w = refl

-- A subscriber is told at once of all services that the engines have: its callback is called with services
-- whose ids are those that the engines know, unless they know none, and what it does to the world and its
-- error are those of `Subscribe`. The map then holds the subscriber, with its callbacks, with just these
-- services remembered and the versions of the engines, and the next round finds nothing to do for it.
pub sync_one-subscribe :
    {W : Type 0} (engines : List Engine) (id : String)
    (add_service : Dict String Service → W → W × Option String)
    (remove_service : List String → W → W × Option String) (subs : Dict String (Subscriber W))
    (w w' : W)
    → (versions : Dict ℕ ℕ) × (services : Dict String Service) × (Dict.lookup id
          (subscribe engines id add_service remove_service subs w).0
        ≡ some (record {
          add_service = add_service;
          remove_service = remove_service;
          synced_version = versions;
          synced_services = services;
        }))
      × ((subscribe engines id add_service remove_service subs w).1
          ≡ (told add_service services w).0)
      × ((subscribe engines id add_service remove_service subs w).2
          ≡ (told add_service services w).1)
      × ((k : String) → is_some (Dict.lookup k services) ≡ is_some (known k engines))
      × Current 0 engines versions
      × (sync_one engines
            (record {
              add_service = add_service;
              remove_service = remove_service;
              synced_version = versions;
              synced_services = services;
            })
            w'
          ≡ (
            record {
              add_service = add_service;
              remove_service = remove_service;
              synced_version = versions;
              synced_services = services;
            },
            w',
            none,
          ))
unfolding subscribe Dict.lookup
sync_one-subscribe {W} engines id add_service remove_service subs w w' =
    let all = subscribe_all 0 engines [] [] in
    let s : Subscriber W = record {
      add_service = add_service;
      remove_service = remove_service;
      synced_version = all.1;
      synced_services = all.0;
    } in
    (
      all.1,
      all.0,
      ground (arith, lookup-insert id id s subs),
      ap (λ r. r.0) (call_add-told s all.0 w),
      ap (λ r. r.1) (call_add-told s all.0 w),
      (λ k. ground (arith, subscribe_all_services k 0 engines [] [])),
      subscribe_all-Current 0 engines [] [],
      sync_one-Current engines s w' (subscribe_all-Current 0 engines [] []),
    )
