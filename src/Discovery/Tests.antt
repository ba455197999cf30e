-- ===== src/Discovery/Tests.antt =====
-- An engine, its refresh and a subscriber over a small cloud folder.
use pgscv.Base.{
  ℕ, ◌≡◌, refl, String, Bool, true, false, not, ◌&&◌, ◌||◌, none, some, [], ◌∷◌, string_eq, nat_eq,
  contains, is_some,
}
use pgscv.Base.Dict
use pgscv.Base.Dict.{Dict}
use pgscv.Discovery.Types.{ClusterDsn, Engine, Service}
use pgscv.Discovery.Engine.{Cluster, refresh, add_clusters, append_new, drop_gone, host_db, dsn_of}
use pgscv.Discovery.Engine.Names.{make_valid_metric_name}
use pgscv.Discovery.Engine.Refresh.{lookup-refresh}
use pgscv.Discovery.Subscribers.{Subscriber, sync_one, service_of, subscribe}
use pgscv.Discovery.Subscribers.Versions.{known, Current}
use pgscv.Discovery.Subscribers.Rounds.{
  Remembers, told, lookup-sync_one, sync_one_again, sync_one-subscribe,
}
use pgscv.Discovery.Subscribers.Registered.{Registrar, sync_one-registered}

abbrev cluster : Cluster
cluster = record { name = "c"; hosts = "h" ∷ []; databases = "d" ∷ [] }

abbrev idle : Engine
idle = record { user = "u"; password = "p"; target_labels = none; dsn = []; version = 0 }

abbrev entry_d : ClusterDsn
entry_d = record { dsn = "postgresql://u:p@h:6432/d"; name = "c"; labels = [] }

abbrev running : Engine
running = record idle { dsn = ("h_d", entry_d) ∷ []; version = 1 }

valid_names : make_valid_metric_name "1a-b.mdb.yandexcloud.net_x" ≡ "_a_b_x"
unfolding make_valid_metric_name nat_eq
valid_names = refl

first_refresh : refresh (some (cluster ∷ [])) idle ≡ running
unfolding refresh add_clusters host_db dsn_of make_valid_metric_name string_eq nat_eq Dict.lookup
    drop_gone Dict.keys append_new pgscv.Discovery.Engine.add_hosts
    pgscv.Discovery.Engine.add_databases Dict.insert
first_refresh = refl

lookup-refresh_example : Dict.lookup "h_d" (refresh (some (cluster ∷ [])) idle).dsn ≡ some entry_d
unfolding add_clusters host_db dsn_of make_valid_metric_name string_eq nat_eq Dict.lookup
    pgscv.Discovery.Engine.add_hosts pgscv.Discovery.Engine.add_databases Dict.insert
    mathlib.Core.Option.or_else
lookup-refresh_example = lookup-refresh "h_d" (cluster ∷ []) idle

-- A world that is the set of the registered services.
abbrev World : Type 0
World = String → Bool

abbrev listener : Subscriber World
listener = record {
  add_service = λ services w. (λ k. is_some (Dict.lookup k services) || w k, none);
  remove_service = λ ids w. (λ k. not (contains ids k) && w k, none);
  synced_version = [];
  synced_services = [];
}

abbrev registrar : Registrar listener "h_d"
registrar = record {
  Ok = λ w. Unit {0};
  Fit = λ dsn. Unit {0};
  registered = λ w. w "h_d";
  adds = λ services w ready u fit h. (refl, tt);
  removes = λ ids w ready h. (refl, tt);
}

abbrev nobody : World
nobody k = false

lookup-sync_one_example :
    (Current 0 (running ∷ []) listener.synced_version
      → sync_one (running ∷ []) listener nobody ≡ (listener, nobody, none))
    × (¬ Current 0 (running ∷ []) listener.synced_version
        → let s' = (sync_one (running ∷ []) listener nobody).0 in
          Current 0 (running ∷ []) s'.synced_version
          × Remembers
              (Dict.lookup "h_d" listener.synced_services)
              (known "h_d" (running ∷ []))
              (Dict.lookup "h_d" s'.synced_services))
unfolding pgscv.Discovery.Subscribers.plan nat_eq Dict.lookup mathlib.Core.Option.or_else string_eq
lookup-sync_one_example = lookup-sync_one (running ∷ []) listener nobody "h_d" tt

sync_one_again_example :
    let s = (sync_one (running ∷ []) listener nobody).0 in
    sync_one (running ∷ []) s nobody ≡ (s, nobody, none)
sync_one_again_example = sync_one_again (running ∷ []) listener nobody nobody

sync_one-subscribe_example :
    let r =
      subscribe (running ∷ []) "pgscv" listener.add_service listener.remove_service [] nobody in
    (versions : Dict ℕ ℕ) × (services : Dict String Service) × (Dict.lookup "pgscv" r.0
      ≡ some (record {
        add_service = listener.add_service;
        remove_service = listener.remove_service;
        synced_version = versions;
        synced_services = services;
      }))
    × (r.1 ≡ (told listener.add_service services nobody).0)
    × (r.2 ≡ (told listener.add_service services nobody).1)
    × ((k : String) → is_some (Dict.lookup k services) ≡ is_some (known k (running ∷ [])))
    × Current 0 (running ∷ []) versions
    × (sync_one
          (running ∷ [])
          (record {
            add_service = listener.add_service;
            remove_service = listener.remove_service;
            synced_version = versions;
            synced_services = services;
          })
          nobody
        ≡ (
          record {
            add_service = listener.add_service;
            remove_service = listener.remove_service;
            synced_version = versions;
            synced_services = services;
          },
          nobody,
          none,
        ))
sync_one-subscribe_example =
    sync_one-subscribe (running ∷ []) "pgscv" listener.add_service listener.remove_service [] nobody
      nobody

sync_one-registered_example :
    ((sync_one (running ∷ []) listener nobody).1 "h_d" ≡ true)
    × Unit {0}
    × (¬ Current 0 (running ∷ []) listener.synced_version
        → (sync_one (running ∷ []) listener nobody).1 "h_d" ≡ true)
unfolding Dict.lookup sync_one nat_eq pgscv.Mapops.full_join Dict.copy string_eq
    mathlib.Core.Option.or_else
sync_one-registered_example =
    sync_one-registered listener "h_d" registrar (running ∷ []) nobody tt tt (λ d found. tt) refl
      refl
