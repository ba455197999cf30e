-- ===== src/Discovery/Listing/Pages.antt =====
-- Where the pages of the cloud end, the listing ends too, with what the filters keep of them.
use mathlib.Core.List.{append_assoc, append-nil}
use pgscv.Base.{
  ◌≡◌, refl, ◌≢◌, ℕ, zero, suc, ◌≤◌, String, true, Option, some, List, [], ◌∷◌, ◌++◌, arith,
  string_eq, if◌then◌else◌, length,
}
use pgscv.Base.External.{Regexps}
use pgscv.Discovery.CloudFilter.{CloudFilter}
use pgscv.Discovery.Listing.{
  Cluster, Database, Api, listed, is_empty, is_running, matched, takes, wanted, list_databases,
  with_databases, cluster_of, list_cluster, list_page, list_clusters, get_postgresql_clusters,
}

-- The pages from a token on, up to the one that names no next.
pub data PagesFrom {A : Type 0} (page : String → Option (List A × String))
    : String → List (List A) → Type 0 where
  last_page :
      {token : String} (xs : List A) → page token ≡ some (xs, "") → PagesFrom page token (xs ∷ [])
  more_pages :
      {token next : String} (xs : List A) {rest : List (List A)}
      → page token ≡ some (xs, next)
      → next ≢ ""
      → PagesFrom page next rest
      → PagesFrom page token (xs ∷ rest)

abbrev pub concat {ℓ} : {A : Type ℓ} → List (List A) → List A
concat [] = []
concat (xs ∷ xss) = xs ++ concat xss

module _ ⦃R : Regexps⦄ where
  wanted-append :
      (filters : List (CloudFilter R)) (xs ys : List Database)
      → wanted filters (xs ++ ys) ≡ wanted filters xs ++ wanted filters ys
  unfolding wanted
  wanted-append filters [] ys = refl
  wanted-append filters (x ∷ xs) ys = ground (arith, wanted-append filters xs ys)

  list_databases_lem :
      (api : Api) (fuel : ℕ) (id : String) (filters : List (CloudFilter R)) (token : String)
      (pages : List (List Database))
      → PagesFrom (api.databases id) token pages
      → length pages ≤ fuel
      → list_databases api fuel id filters token ≡ listed (wanted filters (concat pages))
  unfolding list_databases
  list_databases_lem api zero id filters token pages (last_page xs at) h = absurd (omega arith)
  list_databases_lem api zero id filters token pages (more_pages xs at other p) h =
      absurd (omega arith)
  list_databases_lem api (suc fuel) id filters token pages (last_page xs at) h =
      rw (append-nil xs) (ground arith)
  list_databases_lem api (suc fuel) id filters token pages
        (more_pages {next = next} xs {rest = rest} at other p) h =
      ground (
        arith,
        list_databases_lem api fuel id filters next rest p (omega arith),
        wanted-append filters xs (concat rest),
      )

  -- What is known of the databases of a cluster: their pages, few enough for the fuel.
  abbrev pub Covered : Api → ℕ → (String → List Database) → Cluster → Type 0
  Covered api fuel databases c =
      (pages : List (List Database)) × PagesFrom (api.databases c.id) "" pages
      × (length pages ≤ fuel)
      × (concat pages ≡ databases c.id)

  abbrev pub AllCovered : Api → ℕ → (String → List Database) → List Cluster → Type 0
  AllCovered api fuel databases [] = Unit
  AllCovered api fuel databases (c ∷ cs) =
      Covered api fuel databases c × AllCovered api fuel databases cs

  -- The clusters that the code keeps of a page.
  abbrev pub selected :
      Api → List (CloudFilter R) → (String → List Database) → List Cluster → List Cluster
  selected api filters databases [] = []
  selected api filters databases (c ∷ cs) =
      let rest = selected api filters databases cs in
      if is_running c.status
      then with_databases api c (wanted (matched filters c.name) (databases c.id)) ++ rest
      else rest

  wanted_nothing : (databases : List Database) → wanted [] databases ≡ []
  unfolding wanted takes
  wanted_nothing [] = refl
  wanted_nothing (d ∷ databases) = ground (arith, wanted_nothing databases)

  abbrev pub selected_one :
      Api → List (CloudFilter R) → (String → List Database) → Cluster → List Cluster
  selected_one api filters databases c =
      if is_running c.status
      then with_databases api c (wanted (matched filters c.name) (databases c.id))
      else []

  kept_or_skipped :
      (api : Api) (fuel : ℕ) (filters : List (CloudFilter R)) (databases : String → List Database)
      (c : Cluster)
      → Covered api fuel databases c
      → (if is_empty filters
          then listed []
          else cluster_of api c (list_databases api fuel c.id filters ""))
        ≡ listed (with_databases api c (wanted filters (databases c.id)))
  unfolding with_databases cluster_of
  kept_or_skipped api fuel [] databases c _ = rw (wanted_nothing (databases c.id)) refl
  kept_or_skipped api fuel (f ∷ filters) databases c (pages, p, enough, all) =
      ground (arith, all, list_databases_lem api fuel c.id (f ∷ filters) "" pages p enough)

  list_cluster_lem :
      (api : Api) (fuel : ℕ) (filters : List (CloudFilter R)) (databases : String → List Database)
      (c : Cluster)
      → Covered api fuel databases c
      → list_cluster api fuel filters c ≡ listed (selected_one api filters databases c)
  unfolding list_cluster
  list_cluster_lem api fuel filters databases c covered =
      ground (arith, kept_or_skipped api fuel (matched filters c.name) databases c covered)

  list_page_lem :
      (api : Api) (fuel : ℕ) (filters : List (CloudFilter R)) (databases : String → List Database)
      (cs : List Cluster)
      → AllCovered api fuel databases cs
      → list_page api fuel filters cs ≡ listed (selected api filters databases cs)
  unfolding list_page
  list_page_lem api fuel filters databases [] _ = refl
  list_page_lem api fuel filters databases (c ∷ cs) (one, others) = ground (
    arith,
    list_cluster_lem api fuel filters databases c one,
    list_page_lem api fuel filters databases cs others,
  )

  AllCovered-append :
      (api : Api) (fuel : ℕ) (databases : String → List Database) (xs ys : List Cluster)
      → AllCovered api fuel databases (xs ++ ys)
      → AllCovered api fuel databases xs × AllCovered api fuel databases ys
  AllCovered-append api fuel databases [] ys h = (tt, h)
  AllCovered-append api fuel databases (x ∷ xs) ys (one, h) =
      let both = AllCovered-append api fuel databases xs ys h in ((one, both.0), both.1)

  selected-append :
      (api : Api) (filters : List (CloudFilter R)) (databases : String → List Database)
      (xs ys : List Cluster)
      → selected api filters databases (xs ++ ys)
        ≡ selected api filters databases xs ++ selected api filters databases ys
  selected-append api filters databases [] ys = refl
  selected-append api filters databases (x ∷ xs) ys = ground (
    arith,
    selected-append api filters databases xs ys,
    append_assoc (with_databases api x (wanted (matched filters x.name) (databases x.id)))
        (selected api filters databases xs) (selected api filters databases ys),
  )

  list_clusters_lem :
      (api : Api) (database_fuel fuel : ℕ) (filters : List (CloudFilter R)) (token : String)
      (databases : String → List Database) (pages : List (List Cluster))
      → PagesFrom api.clusters token pages
      → AllCovered api database_fuel databases (concat pages)
      → length pages ≤ fuel
      → list_clusters api database_fuel fuel filters token
        ≡ listed (selected api filters databases (concat pages))
  unfolding list_clusters
  list_clusters_lem api df zero filters token databases pages (last_page xs at) covered h =
      absurd (omega arith)
  list_clusters_lem api df zero filters token databases pages (more_pages xs at other p) covered h =
      absurd (omega arith)
  list_clusters_lem api df (suc fuel) filters token databases pages (last_page xs at) covered h =
      ground (
        arith,
        at,
        list_page_lem api df filters databases xs
            (AllCovered-append api df databases xs [] covered).0,
        append-nil xs,
      )
  list_clusters_lem api df (suc fuel) filters token databases pages
        (more_pages {next = next} xs {rest = rest} at other p) covered h =
      let both = AllCovered-append api df databases xs (concat rest) covered in
      ground (
        arith,
        at,
        list_page_lem api df filters databases xs both.0,
        list_clusters_lem api df fuel filters next databases rest p both.1 (omega arith),
        selected-append api filters databases xs (concat rest),
      )

  pub get_postgresql_clusters-listed :
      (api : Api) (database_fuel fuel : ℕ) (filters : List (CloudFilter R))
      (databases : String → List Database) (pages : List (List Cluster))
      → api.builds ≡ true
      → PagesFrom api.clusters "" pages
      → AllCovered api database_fuel databases (concat pages)
      → length pages ≤ fuel
      → get_postgresql_clusters api database_fuel fuel filters
        ≡ listed (selected api filters databases (concat pages))
  unfolding get_postgresql_clusters
  get_postgresql_clusters-listed api df fuel filters databases pages builds p covered enough =
      ground
        (arith, builds, list_clusters_lem api df fuel filters "" databases pages p covered enough)
