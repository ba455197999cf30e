-- ===== src/Collector/Config/Gather/Statements.antt =====
-- Where pg_stat_statements is found.
use pgscv.Base.{
  true, false, ◌≡◌, refl, String, Option, none, some, List, [], ◌∷◌, arith, ◌==◌, string_eq,
  if◌then◌else◌, not, ◌&&◌, is_some, Option-cases, inl, inr,
}
use mathlib.Core.Option
use pgscv.Base.Text.{contains_text}
use pgscv.Collector.Config.Gather.{
  setting, Db, System, FoundStatements, extension_installed_schema, walk,
  discover_pg_stat_statements,
}

-- The schema that pg_stat_statements is installed in, if its query gives one that is not empty.
abbrev pub schema_in : Db → Option String
schema_in db = elim (db.extension "pg_stat_statements") [
  | none ↦ none
  | some schema ↦ if schema == "" then none else some schema
]

-- The connections that can be made, and the first one that has the extension.
abbrev pub connections : (String → Option Db) → List String → List Db
connections connect [] = []
connections connect (d ∷ databases) =
    let rest = connections connect databases in
    elim (connect d) [ none ↦ rest | some db ↦ db ∷ rest ]

abbrev pub nowhere : FoundStatements
nowhere = record { exists = false; database = ""; schema = "" }

abbrev pub first_with : List Db → FoundStatements
first_with [] = nowhere
first_with (db ∷ dbs) =
    let later = first_with dbs in
    elim (schema_in db) [
      | none ↦ later
      | some schema ↦ record { exists = true; database = db.database; schema = schema }
    ]

walk_lem :
    (connect : String → Option Db) (databases : List String)
    → walk connect databases ≡ first_with (connections connect databases)
unfolding walk extension_installed_schema
walk_lem connect [] = refl
walk_lem connect (d ∷ databases) = ground (arith, walk_lem connect databases)

-- Where the connection string parses, its connection is made and the preloaded libraries and the databases
-- are answered, pg_stat_statements is found exactly when it is preloaded and installed in a database that
-- can be connected to: in the database of the string, or else in the first of the others, skipping those
-- that cannot be connected to.
pub discover_pg_stat_statements_lem :
    (sys : System) (conn_str host libraries : String) (home : Db) (databases : List String)
    → sys.parse_config conn_str ≡ some host
    → sys.connect conn_str none none ≡ some home
    → home.row (setting "shared_preload_libraries") ≡ some libraries
    → home.databases ≡ some databases
    → discover_pg_stat_statements sys conn_str
      ≡ some (
          if contains_text libraries "pg_stat_statements"
          then first_with (home ∷ connections (λ d. sys.connect conn_str none (some d)) databases)
          else nowhere)
unfolding discover_pg_stat_statements extension_installed_schema
discover_pg_stat_statements_lem sys conn_str host libraries home databases parsed connected
      preloaded listed =
    ground (
      arith,
      parsed,
      connected,
      preloaded,
      listed,
      walk_lem (λ d. sys.connect conn_str none (some d)) databases,
    )

-- The search from a connection whose preloaded libraries are known: the databases have to be answered only
-- where the extension is preloaded and not in the database of the connection.
abbrev pub search : Db → (String → Option Db) → String → Option FoundStatements
search home connect libraries =
    if contains_text libraries "pg_stat_statements" && not (is_some (schema_in home))
    then Option.map (λ databases. first_with (connections connect databases)) home.databases
    else some
        (if contains_text libraries "pg_stat_statements" then first_with (home ∷ []) else nowhere)

-- The search from the start, by what the steps give; it has no result where the string does not parse, its
-- connection is not made or the libraries are not answered.
abbrev pub looked_from : Option String → Option Db → (String → Option Db) → Option FoundStatements
looked_from none home connect = none
looked_from (some _) none connect = none
looked_from (some _) (some home) connect = elim (home.row (setting "shared_preload_libraries")) [
  | none ↦ none
  | some libraries ↦ search home connect libraries
]

abbrev pub looked_for : System → String → Option FoundStatements
looked_for sys conn_str =
    looked_from (sys.parse_config conn_str) (sys.connect conn_str none none)
      (λ d. sys.connect conn_str none (some d))

pub discover_pg_stat_statements-looked_for :
    (sys : System) (conn_str : String)
    → discover_pg_stat_statements sys conn_str ≡ looked_for sys conn_str
unfolding discover_pg_stat_statements extension_installed_schema
discover_pg_stat_statements-looked_for sys conn_str =
    elim (Option-cases (sys.parse_config conn_str)) [
      | inl e ↦ ground (arith, e)
      | inr (host, parsed) ↦ elim (Option-cases (sys.connect conn_str none none)) [
        | inl e ↦ ground (arith, parsed, e)
        | inr (home, made) ↦ elim (Option-cases (home.row (setting "shared_preload_libraries"))) [
          | inl e ↦ ground (arith, parsed, made, e)
          | inr (libraries, loaded) ↦ elim (Option-cases home.databases) [
            | inl e ↦ ground (arith, parsed, made, loaded, e)
            | inr (databases, listed) ↦ ground (
              arith,
              parsed,
              made,
              loaded,
              listed,
              walk_lem (λ d. sys.connect conn_str none (some d)) databases,
            )
          ]
        ]
      ]
    ]
