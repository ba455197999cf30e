-- ===== src/Discovery/Listing/Tests.antt =====
-- A cloud with two pages of clusters, of which one is stopped.
use pgscv.Base.{
  ◌≡◌, ◌≢◌, ap, refl, String, true, Option, none, some, List, [], ◌∷◌, arith, ◌==◌, string_eq,
  if◌then◌else◌,
}
use pgscv.Base.Samples.{exact_regexps}
use pgscv.Discovery.CloudFilter.{CloudFilter}
use pgscv.Discovery.Listing.{
  Status, running, other_status, alive, other_health, Database, Host, Cluster, Api, listed,
  get_postgresql_clusters,
}
use pgscv.Discovery.Listing.Pages.{PagesFrom, last_page, more_pages, concat}
use pgscv.Discovery.Listing.Chosen.{chosen, get_postgresql_clusters_lem}

abbrev cluster : String → Status → Cluster
cluster name status = record {
  id = name;
  name = name;
  folder_id = "f";
  health = "ok";
  status = status;
  resource_preset_id = "r";
  disk_type_id = "d";
  disk_size = 10;
  hosts = [];
  databases = [];
}

abbrev page : String → Option (List Cluster × String)
page token =
    if token == ""
    then some (cluster "a" running ∷ [], "next")
    else if token == "next"
    then some (cluster "a" other_status ∷ [], "")
    else none

abbrev shop : Database
shop = record { name = "shop"; owner = "ann" }

abbrev hidden : Database
hidden = record { name = "hidden"; owner = "ann" }

abbrev up : Host
up = record { name = "h1"; zone_id = "z"; role = "master"; health = alive }

abbrev down : Host
down = record { name = "h2"; zone_id = "z"; role = "replica"; health = other_health }

abbrev api : Api
api = record {
  builds = true;
  clusters = page;
  hosts = λ id. down ∷ up ∷ [];
  databases = λ id token. some (hidden ∷ shop ∷ [], "");
}

abbrev filter : CloudFilter exact_regexps
filter = record { name_re = "a"; db_re = some "shop"; exclude_name_re = none; exclude_db_re = none }

abbrev pages : List (List Cluster)
pages = (cluster "a" running ∷ []) ∷ (cluster "a" other_status ∷ []) ∷ []

named : ◌≢◌ {A = String} "next" ""
unfolding string_eq
named e = let same = ap (λ s. s == "") e in ground (arith, same)

pages_end : PagesFrom page "" pages
unfolding string_eq
pages_end =
    more_pages (cluster "a" running ∷ []) refl named
      (last_page (cluster "a" other_status ∷ []) refl)

kept :
    chosen api (filter ∷ []) (λ id. hidden ∷ shop ∷ []) (concat pages)
    ≡ record (cluster "a" running) { hosts = up ∷ []; databases = shop ∷ [] } ∷ []
unfolding string_eq
kept = refl

get_postgresql_clusters_lem_example :
    get_postgresql_clusters api 1 2 (filter ∷ [])
    ≡ listed (chosen api (filter ∷ []) (λ id. hidden ∷ shop ∷ []) (concat pages))
get_postgresql_clusters_lem_example =
    get_postgresql_clusters_lem api 1 2 (filter ∷ []) (λ id. hidden ∷ shop ∷ []) pages refl
      pages_end
      (
        ((hidden ∷ shop ∷ []) ∷ [], last_page (hidden ∷ shop ∷ []) refl, omega arith, refl),
        (((hidden ∷ shop ∷ []) ∷ [], last_page (hidden ∷ shop ∷ []) refl, omega arith, refl), tt),
      )
      (omega arith)
