-- ===== src/Discovery/Subscribers/Registered.antt =====
-- What the callbacks of a subscriber leave in the world that they act on.
use mathlib.Core.Option.{or_else}
use pgscv.Base.{
  some, false, ◌≡◌, refl, String, Bool, not, ◌&&◌, ◌||◌, none, List, [], ◌∷◌, arith, string_eq,
  contains, is_some, Bool-cases, Option-cases, inl, inr,
}
use pgscv.Base.Dict
use pgscv.Base.Dict.{Dict, NodupKeys}
use pgscv.Discovery.Types.{ClusterDsn, Service, Engine}
use pgscv.Mapops.{Joined, left_only, both, right_only, full_join}
use pgscv.Discovery.Subscribers.{
  Subscriber, Scan, Changes, or_zero, service_of, change, changes, call_remove, call_add, plan,
  announce, sync_one,
}
use pgscv.Discovery.Subscribers.Versions.{known, Current, Current-of_scan}
use pgscv.Discovery.Subscribers.Rounds.{plan_facts}

-- A view of a world that says of one service id whether it is registered, for which a callback that gives
-- no error has done what it was told: the service is in, or it is out. The callbacks keep what holds of the
-- world; the services that they are given are a map, and the connection string of the one under the id is
-- fit.
pub record Registrar {W : Type 0} (s : Subscriber W) (k : String) : Type 1 where
  pub Ok : W → Type 0
  pub registered : W → Bool
  pub Fit : String → Type 0
  pub adds :
      (services : Dict String Service) (w : W)
      → Ok w
      → NodupKeys services
      → ((svc : Service) → Dict.lookup k services ≡ some svc → Fit svc.dsn)
      → (s.add_service services w).1 ≡ none
      → (registered (s.add_service services w).0
          ≡ (is_some (Dict.lookup k services) || registered w))
        × Ok (s.add_service services w).0
  pub removes :
      (ids : List String) (w : W)
      → Ok w
      → (s.remove_service ids w).1 ≡ none
      → (registered (s.remove_service ids w).0 ≡ (not (contains ids k) && registered w))
        × Ok (s.remove_service ids w).0

change-NodupKeys :
    (services : Dict String ClusterDsn) (j : Joined String) (c : Changes)
    → NodupKeys c.append_svc
    → NodupKeys (change services j c).append_svc
unfolding change
change-NodupKeys services (left_only k) c u =
    Dict.insert-NodupKeys k (service_of (or_zero (Dict.lookup k services))) c.append_svc u
change-NodupKeys services (both k) c u = u
change-NodupKeys services (right_only k) c u = u

changes-NodupKeys :
    (services : Dict String ClusterDsn) (js : List (Joined String)) (c : Changes)
    → NodupKeys c.append_svc
    → NodupKeys (changes services js c).append_svc
unfolding changes
changes-NodupKeys services [] c u = u
changes-NodupKeys services (j ∷ js) c u =
    changes-NodupKeys services js (change services j c) (change-NodupKeys services j c u)

plan-NodupKeys :
    {W : Type 0} (engines : List Engine) (s : Subscriber W)
    → NodupKeys (plan engines s).1.append_svc
unfolding plan
plan-NodupKeys engines s =
    let found = (plan engines s).0 in
    changes-NodupKeys found.services (full_join found.services s.synced_services)
      (record { remove_svc = []; append_svc = []; synced = s.synced_services }) tt

-- What the first loop of a round begins with.
abbrev unscanned : {W : Type 0} → Subscriber W → Scan
unscanned s = record { versions = s.synced_version; need_sync = false; services = [] }

module _ {W : Type 0} (s : Subscriber W) (k : String) (r : Registrar s k) where
  call_remove_registered :
      (ids : List String) (w : W)
      → r.Ok w
      → (call_remove s ids w).1 ≡ none
      → (r.registered (call_remove s ids w).0 ≡ (not (contains ids k) && r.registered w))
        × r.Ok (call_remove s ids w).0
  call_remove_registered [] w ready h = (refl, ready)
  call_remove_registered (i ∷ ids) w ready h = r.removes (i ∷ ids) w ready h

  call_add_registered :
      (services : Dict String Service) (w : W)
      → r.Ok w
      → NodupKeys services
      → ((svc : Service) → Dict.lookup k services ≡ some svc → r.Fit svc.dsn)
      → (call_add s services w).1 ≡ none
      → (r.registered (call_add s services w).0
          ≡ (is_some (Dict.lookup k services) || r.registered w))
        × r.Ok (call_add s services w).0
  unfolding Dict.lookup
  call_add_registered [] w ready u fit h = (refl, ready)
  call_add_registered (svc ∷ services) w ready u fit h = r.adds (svc ∷ services) w ready u fit h

  announce_registered :
      (c : Changes) (w : W)
      → r.Ok w
      → NodupKeys c.append_svc
      → ((svc : Service) → Dict.lookup k c.append_svc ≡ some svc → r.Fit svc.dsn)
      → (announce s c w).1 ≡ none
      → (r.registered (announce s c w).0 ≡ (
          is_some (Dict.lookup k c.append_svc)
          || (not (contains c.remove_svc k) && r.registered w)))
        × r.Ok (announce s c w).0
  unfolding announce
  announce_registered c w ready u fit h = elim (Option-cases (call_remove s c.remove_svc w).1) [
    | inl fine ↦
        let gone = call_remove_registered c.remove_svc w ready fine in
        let came =
          call_add_registered c.append_svc (call_remove s c.remove_svc w).0 gone.1 u fit
            (ground arith) in
        (ground (arith, gone.0, came.0), rw (fine, announce) came.1)
    | inr (e, failed) ↦ absurd (ground arith)
  ]

  -- What is announced under the id has the connection string that the engines have.
  announced_dsn :
      (engines : List Engine)
      → NodupKeys s.synced_services
      → ((d : ClusterDsn) → known k engines ≡ some d → r.Fit d.dsn)
      → (svc : Service) → Dict.lookup k (plan engines s).1.append_svc ≡ some svc
      → r.Fit svc.dsn
  unfolding service_of
  announced_dsn engines u fit svc there =
      let (_, appended, _) = plan_facts engines s u k in
      elim (Option-cases (known k engines)) [
        | inl absent ↦ absurd (ground (arith, appended))
        | inr (d, found) ↦
            let same : d.dsn ≡ svc.dsn = ground (arith, appended) in rw (← same) (fit d found)
      ]

  -- Where what should hold of the world holds, the connection string that the engines have for the id, if
  -- any, is fit, the remembered services are a map and whether the id is remembered says whether it is
  -- registered, a round whose callbacks give no error keeps all this so; and if an engine's version is not the
  -- one remembered, the id is then registered just when the engines know it.
  pub sync_one-registered :
      (engines : List Engine) (w : W)
      → NodupKeys s.synced_services
      → r.Ok w
      → ((d : ClusterDsn) → known k engines ≡ some d → r.Fit d.dsn)
      → r.registered w ≡ is_some (Dict.lookup k s.synced_services)
      → (sync_one engines s w).2 ≡ none
      → (r.registered (sync_one engines s w).1
          ≡ is_some (Dict.lookup k (sync_one engines s w).0.synced_services))
        × r.Ok (sync_one engines s w).1
        × (¬ Current 0 engines s.synced_version
            → r.registered (sync_one engines s w).1 ≡ is_some (known k engines))
  unfolding sync_one or_else
  sync_one-registered engines w u ready fit same h =
      let (synced, appended, removed) = plan_facts engines s u k in
      elim (Bool-cases (plan engines s).0.need_sync) [
        | inl new ↦
            let told =
              announce_registered (plan engines s).1 w ready (plan-NodupKeys engines s)
                (announced_dsn engines u fit) (ground arith) in
            (ground (arith, told.0), rw new told.1, λ _. ground (arith, told.0))
        | inr old ↦ (
          ground arith,
          rw old ready,
          λ stale. absurd (stale (Current-of_scan 0 engines (unscanned s) old).1),
        )
      ]
