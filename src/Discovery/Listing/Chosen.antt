-- ===== src/Discovery/Listing/Chosen.antt =====
-- Which clusters should be listed, by what the filters say and what the cloud says of its hosts.
use pgscv.Base.{
  ◌≡◌, refl, ap, ◌∙◌, ℕ, ◌≤◌, String, Bool, true, false, not, ◌&&◌, Option, none, some, List, [],
  ◌∷◌, ◌++◌, arith, string_eq, if◌then◌else◌, length, keep, any,
}
use pgscv.Base.External.{Regexps}
use pgscv.Discovery.CloudFilter.{CloudFilter, match_name, match_db}
use pgscv.Discovery.Listing.{
  Status, running, updating, other_status, alive, other_health, Database, Host, Cluster, Api,
  listed, alive_hosts, matched, takes, wanted, with_databases, get_postgresql_clusters,
}
use pgscv.Discovery.Listing.Pages.{
  PagesFrom, concat, AllCovered, selected, get_postgresql_clusters-listed,
}

abbrev pub runs : Status → Bool
runs running = true
runs updating = true
runs other_status = false

abbrev pub lives : Host → Bool
lives h = elim h.health [ alive ↦ true | other_health ↦ false ]

module _ ⦃R : Regexps⦄ where
  -- A pattern that is given and matches.
  abbrev pub given_matches : Option R.Regexp → String → Bool
  given_matches none name = false
  given_matches (some re) name = R.match_string re name

  abbrev pub open_or_matches : Option R.Regexp → String → Bool
  open_or_matches none name = true
  open_or_matches (some re) name = R.match_string re name

  -- A filter takes the name of a cluster that its pattern matches and that it does not exclude.
  abbrev pub takes_cluster : String → CloudFilter R → Bool
  takes_cluster name f = R.match_string f.name_re name && not (given_matches f.exclude_name_re name)

  -- A filter takes a database that it does not exclude and that its pattern, if it has one, matches.
  abbrev pub takes_database : String → CloudFilter R → Bool
  takes_database name f = open_or_matches f.db_re name && not (given_matches f.exclude_db_re name)

  -- The databases that some filter takes that also takes the cluster.
  abbrev pub chosen_databases : List (CloudFilter R) → String → List Database → List Database
  chosen_databases filters name databases =
      keep (λ d. any (takes_database d.name) (keep (takes_cluster name) filters)) databases

  abbrev pub chosen_cluster : Api → Cluster → List Database → List Cluster
  chosen_cluster api c [] = []
  chosen_cluster api c (d ∷ databases) =
      record c { hosts = keep lives (api.hosts c.id); databases = d ∷ databases } ∷ []

  -- The clusters that run and have such a database, with these databases and with the hosts that live.
  abbrev pub chosen :
      Api → List (CloudFilter R) → (String → List Database) → List Cluster → List Cluster
  chosen api filters databases [] = []
  chosen api filters databases (c ∷ cs) =
      let rest = chosen api filters databases cs in
      if runs c.status
      then chosen_cluster api c (chosen_databases filters c.name (databases c.id)) ++ rest
      else rest

  alive_hosts_lem : (hosts : List Host) → alive_hosts hosts ≡ keep lives hosts
  unfolding alive_hosts
  alive_hosts_lem [] = refl
  alive_hosts_lem (h ∷ hosts) = ground (arith, alive_hosts_lem hosts)

  matched_lem :
      (filters : List (CloudFilter R)) (name : String)
      → matched filters name ≡ keep (takes_cluster name) filters
  unfolding matched match_name
  matched_lem [] name = refl
  matched_lem (f ∷ filters) name = ground (arith, matched_lem filters name)

  takes_lem :
      (filters : List (CloudFilter R)) (name : String)
      → takes filters name ≡ any (takes_database name) filters
  unfolding takes match_db
  takes_lem [] name = refl
  takes_lem (f ∷ filters) name = ground (arith, takes_lem filters name)

  wanted_lem :
      (filters : List (CloudFilter R)) (databases : List Database)
      → wanted filters databases ≡ keep (λ d. any (takes_database d.name) filters) databases
  unfolding wanted
  wanted_lem filters [] = refl
  wanted_lem filters (d ∷ databases) =
      ground (arith, wanted_lem filters databases, takes_lem filters d.name)

  with_databases_lem :
      (api : Api) (c : Cluster) (databases : List Database)
      → with_databases api c databases ≡ chosen_cluster api c databases
  unfolding with_databases
  with_databases_lem api c [] = refl
  with_databases_lem api c (d ∷ databases) = ground (arith, alive_hosts_lem (api.hosts c.id))

  selected_lem :
      (api : Api) (filters : List (CloudFilter R)) (databases : String → List Database)
      (cs : List Cluster)
      → selected api filters databases cs ≡ chosen api filters databases cs
  selected_lem api filters databases [] = refl
  selected_lem api filters databases (c ∷ cs) = ground (
    arith,
    selected_lem api filters databases cs,
    with_databases_lem api c (wanted (matched filters c.name) (databases c.id)),
    wanted_lem (matched filters c.name) (databases c.id),
    matched_lem filters c.name,
  )

  -- Where the client can be built, the cloud has pages of clusters from the empty token on, each cluster of
  -- theirs has pages of databases, and the fuel is not less than the number of pages in both, the listing
  -- ends, with those clusters, in order, that run and with the databases that some filter taking the
  -- cluster's name takes, hosts that are alive only, and no cluster without such a database.
  pub get_postgresql_clusters_lem :
      (api : Api) (database_fuel fuel : ℕ) (filters : List (CloudFilter R))
      (databases : String → List Database) (pages : List (List Cluster))
      → api.builds ≡ true
      → PagesFrom api.clusters "" pages
      → AllCovered api database_fuel databases (concat pages)
      → length pages ≤ fuel
      → get_postgresql_clusters api database_fuel fuel filters
        ≡ listed (chosen api filters databases (concat pages))
  get_postgresql_clusters_lem api df fuel filters databases pages builds p covered enough =
      get_postgresql_clusters-listed api df fuel filters databases pages builds p covered enough
      ∙ ap listed (selected_lem api filters databases (concat pages))
