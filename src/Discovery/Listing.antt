-- ===== src/Discovery/Listing.antt =====
-- The clusters of a folder that the filters keep (`GetPostgreSQLClusters` of
-- internal/discovery/cloud/yandex/postgresql.go).
pub mod Pages
pub mod Chosen
mod Tests
use pgscv.Base.{
  ℕ, zero, suc, String, Bool, true, false, not, ◌||◌, Option, none, some, List, [], ◌∷◌, ◌++◌, ◌==◌,
  string_eq, if◌then◌else◌,
}
use pgscv.Base.External.{Regexps}
use pgscv.Discovery.CloudFilter.{CloudFilter, match_name, match_db}

pub data Status : Type 0 where
  running : Status
  updating : Status
  other_status : Status

pub data Health : Type 0 where
  alive : Health
  other_health : Health

-- `Database`, `Host` and `Cluster`, and what the cloud answers with.
pub record Database : Type 0 where
  pub name : String
  pub owner : String

pub record Host : Type 0 where
  pub name : String
  pub zone_id : String
  pub role : String
  pub health : Health

pub record Cluster : Type 0 where
  pub id : String
  pub name : String
  pub folder_id : String
  pub health : String
  pub status : Status
  pub resource_preset_id : String
  pub disk_type_id : String
  pub disk_size : ℕ
  pub hosts : List Host
  pub databases : List Database

-- The cloud: whether the client can be built, the page of clusters and of databases at a token with the
-- token of the next page, none at an error, and the hosts, whose iterator hides its errors.
-- The clusters of a page have no hosts and databases yet.
pub record Api : Type 0 where
  pub builds : Bool
  pub clusters : String → Option (List Cluster × String)
  pub hosts : String → List Host
  pub databases : String → String → Option (List Database × String)

-- The answer of a loop over pages: none where the fuel does not reach, an error, or a value.
pub data Answer {ℓ} (A : Type ℓ) : Type ℓ where
  out_of_fuel : Answer A
  failed : Answer A
  listed : A → Answer A

abbrev pub after_page {ℓ} : {A : Type ℓ} → List A → Answer (List A) → Answer (List A)
after_page xs (listed ys) = listed (xs ++ ys)
after_page xs failed = failed
after_page xs out_of_fuel = out_of_fuel

abbrev pub is_running : Status → Bool
is_running running = true
is_running updating = true
is_running other_status = false

abbrev pub is_alive : Health → Bool
is_alive alive = true
is_alive other_health = false

-- The loop over the hosts.
unfoldable pub alive_hosts : List Host → List Host
alive_hosts [] = []
alive_hosts (h ∷ hosts) =
    let rest = alive_hosts hosts in if not (is_alive h.health) then rest else h ∷ rest

module _ ⦃R : Regexps⦄ where
  -- The filters that match the name of a cluster; the code keeps their indices.
  unfoldable pub matched : List (CloudFilter R) → String → List (CloudFilter R)
  unfolding match_name
  matched [] name = []
  matched (f ∷ filters) name =
      let rest = matched filters name in if not (match_name f name) then rest else f ∷ rest

  -- The loop over the matched filters, up to the first that takes the database.
  unfoldable pub takes : List (CloudFilter R) → String → Bool
  unfolding match_db
  takes [] name = false
  takes (f ∷ filters) name =
      let rest = takes filters name in if not (match_db f name) then rest else true

  unfoldable pub wanted : List (CloudFilter R) → List Database → List Database
  unfolding takes
  wanted filters [] = []
  wanted filters (d ∷ databases) =
      let rest = wanted filters databases in if takes filters d.name then d ∷ rest else rest

  -- The loop over the pages of databases.
  unfoldable pub list_databases :
      Api → ℕ → String → List (CloudFilter R) → String → Answer (List Database)
  unfolding wanted
  list_databases api zero id filters token = out_of_fuel
  list_databases api (suc fuel) id filters token = elim (api.databases id token) [
    | none ↦ failed
    | some (databases, next) ↦
        let rest = list_databases api fuel id filters next in
        if next == ""
        then listed (wanted filters databases)
        else after_page (wanted filters databases) rest
  ]

  abbrev pub is_empty {ℓ} : {A : Type ℓ} → List A → Bool
  is_empty [] = true
  is_empty (_ ∷ _) = false

  unfoldable pub with_databases : Api → Cluster → List Database → List Cluster
  unfolding alive_hosts
  with_databases api c [] = []
  with_databases api c (d ∷ databases) =
      (record c { hosts = alive_hosts (api.hosts c.id); databases = d ∷ databases }) ∷ []

  unfoldable pub cluster_of : Api → Cluster → Answer (List Database) → Answer (List Cluster)
  unfolding with_databases
  cluster_of api c out_of_fuel = out_of_fuel
  cluster_of api c failed = failed
  cluster_of api c (listed databases) = listed (with_databases api c databases)

  -- The body of the loop over the clusters of a page: none or one is kept.
  unfoldable pub list_cluster : Api → ℕ → List (CloudFilter R) → Cluster → Answer (List Cluster)
  unfolding matched list_databases cluster_of
  list_cluster api fuel filters c =
      if not (is_running c.status)
      then listed []
      else if is_empty (matched filters c.name)
      then listed []
      else cluster_of api c (list_databases api fuel c.id (matched filters c.name) "")

  abbrev pub then_clusters : Answer (List Cluster) → Answer (List Cluster) → Answer (List Cluster)
  then_clusters out_of_fuel later = out_of_fuel
  then_clusters failed later = failed
  then_clusters (listed cs) later = after_page cs later

  unfoldable pub list_page : Api → ℕ → List (CloudFilter R) → List Cluster → Answer (List Cluster)
  unfolding list_cluster
  list_page api fuel filters [] = listed []
  list_page api fuel filters (c ∷ clusters) =
      then_clusters (list_cluster api fuel filters c) (list_page api fuel filters clusters)

  -- The loop over the pages of clusters.
  unfoldable pub list_clusters : Api → ℕ → ℕ → List (CloudFilter R) → String → Answer (List Cluster)
  unfolding list_page
  list_clusters api database_fuel zero filters token = out_of_fuel
  list_clusters api database_fuel (suc fuel) filters token = elim (api.clusters token) [
    | none ↦ failed
    | some (clusters, next) ↦
        let page = list_page api database_fuel filters clusters in
        let rest = list_clusters api database_fuel fuel filters next in
        if next == "" then page else then_clusters page rest
  ]

  -- `GetPostgreSQLClusters`, with the fuel of the two loops.
  unfoldable pub get_postgresql_clusters :
      Api → ℕ → ℕ → List (CloudFilter R) → Answer (List Cluster)
  unfolding list_clusters
  get_postgresql_clusters api database_fuel fuel filters =
      if not api.builds then failed else list_clusters api database_fuel fuel filters ""
