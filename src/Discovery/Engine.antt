-- ===== src/Discovery/Engine.antt =====
-- One round of an engine (internal/discovery/service/yandex_engine.go): the answer of the cloud is
-- flattened into a map by host and database, and the engine's map follows it.
pub mod Names
pub mod Refresh
use pgscv.Base.{
  ℕ, ◌+◌, String, ◌<>◌, Option, none, some, List, [], ◌∷◌, string_eq, if◌then◌else◌, is_some,
}
use pgscv.Base.Dict
use pgscv.Base.Dict.{Dict}
use pgscv.Discovery.Types.{Label, ClusterDsn, Engine, u64}
use Names.{make_valid_metric_name}

-- What `GetPostgreSQLClusters` answers, as far as the engine reads it.
pub record Cluster : Type 0 where
  pub name : String
  pub hosts : List String
  pub databases : List String

unfoldable pub host_db : String → String → String
host_db host database = make_valid_metric_name (host <> "_" <> database)

unfoldable pub dsn_of : Engine → Cluster → String → String → ClusterDsn
dsn_of e c host database = record {
  dsn = "postgresql://" <> e.user <> ":" <> e.password <> "@" <> host <> ":6432/" <> database;
  name = c.name;
  labels = elim e.target_labels [ none ↦ [] | some labels ↦ labels ];
}

-- The three nested loops that fill `clustersMap`.
unfoldable pub add_databases :
    Engine → Cluster → String → List String → Dict String ClusterDsn → Dict String ClusterDsn
add_databases e c host [] m = m
add_databases e c host (database ∷ rest) m =
    add_databases e c host rest (Dict.insert (host_db host database) (dsn_of e c host database) m)

unfoldable pub add_hosts :
    Engine → Cluster → List String → Dict String ClusterDsn → Dict String ClusterDsn
add_hosts e c [] m = m
add_hosts e c (host ∷ rest) m = add_hosts e c rest (add_databases e c host c.databases m)

unfoldable pub add_clusters :
    Engine → List Cluster → Dict String ClusterDsn → Dict String ClusterDsn
add_clusters e [] m = m
add_clusters e (c ∷ rest) m = add_clusters e rest (add_hosts e c c.hosts m)

-- The engine's map and its version, which counts each key that comes or goes.
pub record Known : Type 0 where
  pub dsn : Dict String ClusterDsn
  pub version : ℕ

-- `for hostDb := range maps.Keys(clustersMap)`
unfoldable pub append_new : Dict String ClusterDsn → Known → Known
append_new [] s = s
append_new ((k, d) ∷ found) s = append_new found (
    if is_some (Dict.lookup k s.dsn)
    then s
    else record s { dsn = Dict.insert k d s.dsn; version = u64 (s.version + 1) })

-- `for hostDb := range maps.Keys(ye.dsn)`, over the keys that the map had when the loop began.
unfoldable pub drop_gone : List String → Dict String ClusterDsn → Known → Known
drop_gone [] found s = s
drop_gone (k ∷ ks) found s = drop_gone ks found (
    if is_some (Dict.lookup k found)
    then s
    else record s { dsn = Dict.erase k s.dsn; version = u64 (s.version + 1) })

-- One pass of the engine's loop. `none` is an error of the cloud: the engine sleeps and tries again.
unfoldable pub refresh : Option (List Cluster) → Engine → Engine
refresh none e = e
refresh (some clusters) e =
    let found = add_clusters e clusters [] in
    let added = append_new found (record { dsn = e.dsn; version = e.version }) in
    let done = drop_gone (Dict.keys added.dsn) found added in
    record e { dsn = done.dsn; version = done.version }
