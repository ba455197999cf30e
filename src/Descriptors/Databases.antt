-- ===== src/Descriptors/Databases.antt =====
-- Collecting the sets of descriptors (`updateAllDescSets`, `updateFromMultipleDatabases`,
-- `updateFromSingleDatabase`, `updateSingleDescSet` of internal/collector/collector_common.go).
pub mod Coverage
use mathlib.Core.List.{zip}
use pgscv.Base.{
  String, Bool, true, false, not, ◌||◌, Option, none, some, List, [], ◌∷◌, ◌++◌, if◌then◌else◌,
  is_some,
}
use pgscv.Base.External.{Regexps, Floats}
use pgscv.Model.{NullString, PgResult}
use pgscv.Descriptors.{Prometheus, TypedDesc}
use pgscv.Descriptors.Single.{Cells, Sent}
use pgscv.Descriptors.Multiple.{and_then, update_metrics}
use pgscv.Descriptors.Sets.{TypedDescSet}

-- The server as one collection sees it: whether `store.New` connects to the configured database, the list
-- of databases, whether the connection string parses, whether the configuration with another database
-- connects, and the result of a query in a database. The configured database is none.
pub record Server : Type 0 where
  pub connects : Bool
  pub databases : Option (List String)
  pub parses : Bool
  pub connects_to : String → Bool
  pub query : Option String → String → Option PgResult

-- What was sent, and whether the function returned without an error.
abbrev pub Outcome : Floats → Type 0
Outcome F = Sent F × Bool

abbrev pub label_of : Option String → String
label_of none = ""
label_of (some database) = database

abbrev pub sent_before : {F : Floats} → Sent F → Outcome F → Outcome F
unfolding and_then
sent_before ms later = (and_then ms later.0, later.1)

module _ ⦃R : Regexps⦄ ⦃F : Floats⦄ (prom : Prometheus) where
  -- The loop over the descriptors.
  unfoldable pub update_row : List (TypedDesc R F) → Cells → String → Sent F
  unfolding update_metrics and_then
  update_row [] cells database = some []
  update_row (d ∷ descs) cells database =
      and_then (update_metrics prom d cells database) (update_row descs cells database)

  -- The loop over the rows.
  unfoldable pub update_rows :
      List (TypedDesc R F) → List String → List (List NullString) → String → Sent F
  unfolding update_row and_then
  update_rows descs colnames [] database = some []
  update_rows descs colnames (row ∷ rows) database =
      and_then (update_row descs (zip colnames row) database)
        (update_rows descs colnames rows database)

  -- `updateSingleDescSet`. The label of the database is empty unless it is asked for. An error is only
  -- logged by the callers.
  unfoldable pub update_single_desc_set : Server → Option String → TypedDescSet R F → Sent F
  unfolding update_rows
  update_single_desc_set server database set = elim (server.query database set.query) [
    | none ↦ some []
    | some r ↦ update_rows set.descs r.colnames r.rows (label_of database)
  ]

  abbrev pub matches : Option R.Regexp → String → Bool
  matches none database = false
  matches (some re) database = R.match_string re database

  -- The loop over the sets for one database: a connection that fails ends everything.
  unfoldable pub update_database : Server → String → List (TypedDescSet R F) → Outcome F
  unfolding update_single_desc_set and_then
  update_database server database [] = (some [], true)
  update_database server database (set ∷ sets) =
      let rest = update_database server database sets in
      if not (matches set.databases_re database)
      then rest
      else if not (server.connects_to database)
      then (some [], false)
      else sent_before (update_single_desc_set server (some database) set) rest

  -- The loop over the databases.
  unfoldable pub update_databases : Server → List String → List (TypedDescSet R F) → Outcome F
  unfolding update_database and_then
  update_databases server [] sets = (some [], true)
  update_databases server (database ∷ databases) sets =
      let first = update_database server database sets in
      let rest = update_databases server databases sets in
      if first.1 then sent_before first.0 rest else first

  -- `updateFromMultipleDatabases`
  unfoldable pub update_from_multiple_databases : Server → List (TypedDescSet R F) → Outcome F
  unfolding update_databases
  update_from_multiple_databases server sets =
      if not server.connects then (some [], false) else elim server.databases [
        | none ↦ (some [], false)
        | some databases ↦
            if not server.parses then (some [], false) else update_databases server databases sets
      ]

  -- The loop of `updateFromSingleDatabase`.
  unfoldable pub update_sets : Server → List (TypedDescSet R F) → Sent F
  unfolding update_single_desc_set and_then
  update_sets server [] = some []
  update_sets server (set ∷ sets) =
      let rest = update_sets server sets in
      if is_some set.databases_re
      then rest
      else and_then (update_single_desc_set server none set) rest

  unfoldable pub update_from_single_database : Server → List (TypedDescSet R F) → Outcome F
  unfolding update_sets
  update_from_single_database server sets =
      if not server.connects then (some [], false) else (update_sets server sets, true)

  -- `needMultipleUpdate`
  unfoldable pub need_multiple_update : List (TypedDescSet R F) → Bool
  need_multiple_update [] = false
  need_multiple_update (set ∷ sets) =
      let rest = need_multiple_update sets in if is_some set.databases_re then true else rest

  -- `updateAllDescSets`: errors are logged, and it returns none.
  unfoldable pub update_all_desc_sets : Server → List (TypedDescSet R F) → Sent F
  unfolding need_multiple_update update_from_multiple_databases update_from_single_database and_then
  update_all_desc_sets server sets =
      and_then
        (if need_multiple_update sets
          then (update_from_multiple_databases server sets).0
          else some [])
        (update_from_single_database server sets).0
