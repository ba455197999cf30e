-- ===== src/Activity/Parse.antt =====
-- The statistics of all rows (`parsePostgresActivityStats`, `selectActivityQuery`).
pub mod Columns
pub mod Counts
pub mod Queries
use mathlib.Core.List.{zip}
use pgscv.Base.{
  ℕ, zero, suc, ◌+◌, String, ◌<>◌, Bool, true, false, not, ◌&&◌, ◌||◌, Option, none, some, List, [],
  ◌∷◌, ◌==◌, string_eq, nat_eq, if◌then◌else◌, contains, ltb,
}
use pgscv.Base.External.{Regexps, Floats}
use pgscv.Model.{NullString, PgResult}
use pgscv.Base.Counts.{count_up}
use pgscv.Activity.{ActivityStat, QueryRegexp, new_postgres_activity_stat}
use pgscv.Activity.Updates.{
  we_lock, in_xact, update_state, update_max_idletime_duration, update_max_runtime_duration,
  update_max_waittime_duration, update_query_stat,
}

-- `colindexes[name]`: the last column of this name, and the first column where there is none.
unfoldable pub column_index : String → List String → ℕ → ℕ → ℕ
column_index name [] i found = found
column_index name (colname ∷ colnames) i found =
    column_index name colnames (i + 1) (if colname == name then i else found)

abbrev pub null : NullString
null = record { text = ""; valid = false }

-- `row[i]`. The index is always that of a cell, since a row has one for each column.
unfoldable pub cell_at : List NullString → ℕ → NullString
cell_at [] i = null
cell_at (cell ∷ row) zero = cell
cell_at (cell ∷ row) (suc i) = cell_at row i

-- The cell of a row in a column, by its name.
abbrev pub Reader : Type 0
Reader = String → NullString

unfoldable pub read : List String → List NullString → Reader
unfolding column_index cell_at
read colnames row name = cell_at row (column_index name colnames 0 0)

-- The column that tells of waiting, by the version of the server.
unfoldable pub wait_column : List String → String
wait_column colnames = if contains colnames "waiting" then "waiting" else "wait_event_type"

abbrev pub is_waiting : NullString → Bool
is_waiting cell = cell.text == we_lock || cell.text == "t"

module _ ⦃R : Regexps⦄ ⦃F : Floats⦄ (wait : String) (at : Reader) where
  unfoldable pub take_state : NullString → ActivityStat R F → ActivityStat R F
  unfolding update_state
  take_state cell s =
      if is_waiting (at wait) || not (at "database").valid
      then s
      else update_state (at "user").text (at "database").text cell.text s

  unfoldable pub take_wait : NullString → ActivityStat R F → ActivityStat R F
  unfolding update_state count_up
  take_wait cell s =
      let counted =
        if is_waiting cell
        then update_state (at "user").text (at "database").text "waiting" s
        else s in
      if wait == "wait_event_type"
      then record counted {
        wait_events = count_up (cell.text <> "/" <> (at "wait_event").text) counted.wait_events;
      }
      else counted

  unfoldable pub take_active_seconds : NullString → ActivityStat R F → ActivityStat R F
  unfolding update_max_idletime_duration update_max_runtime_duration
  take_active_seconds cell s =
      let user = (at "user").text in
      let database = (at "database").text in
      let state = (at "state").text in
      let query = (at "query").text in
      if not (at "state").valid || not (at "query").valid
      then s
      else if in_xact state
      then update_max_idletime_duration cell.text user database state query s
      else update_max_runtime_duration cell.text user database state (at wait).text query s

  unfoldable pub take_waiting_seconds : NullString → ActivityStat R F → ActivityStat R F
  unfolding update_max_waittime_duration
  take_waiting_seconds cell s =
      if not (at wait).valid || not (at "query").valid
      then s
      else update_max_waittime_duration cell.text (at "user").text (at "database").text
          (at wait).text (at "query").text s

  unfoldable pub take_query : NullString → ActivityStat R F → ActivityStat R F
  unfolding update_query_stat
  take_query cell s =
      if not (at "state").valid then s else update_query_stat cell.text (at "state").text s

  -- The body of the loop over the columns.
  unfoldable pub take_column : String → NullString → ActivityStat R F → ActivityStat R F
  unfolding take_state take_wait take_active_seconds take_waiting_seconds take_query
  take_column colname cell s =
      if not cell.valid
      then s
      else if colname == "state"
      then take_state cell s
      else if colname == wait
      then take_wait cell s
      else if colname == "active_seconds"
      then take_active_seconds cell s
      else if colname == "waiting_seconds"
      then take_waiting_seconds cell s
      else if colname == "query"
      then take_query cell s
      else s

  unfoldable pub take_columns : List (String × NullString) → ActivityStat R F → ActivityStat R F
  unfolding take_column
  take_columns [] s = s
  take_columns ((colname, cell) ∷ cells) s = take_columns cells (take_column colname cell s)

module _ ⦃R : Regexps⦄ ⦃F : Floats⦄ where
  -- The loop over the rows.
  unfoldable pub take_rows :
      List String → List (List NullString) → ActivityStat R F → ActivityStat R F
  unfolding take_columns wait_column read
  take_rows colnames [] s = s
  take_rows colnames (row ∷ rows) s =
      take_rows colnames rows
        (take_columns (wait_column colnames) (read colnames row) (zip colnames row) s)

  -- `parsePostgresActivityStats`
  unfoldable pub parse_postgres_activity_stats : PgResult → QueryRegexp R → ActivityStat R F
  unfolding new_postgres_activity_stat take_rows
  parse_postgres_activity_stats r re = take_rows r.colnames r.rows (new_postgres_activity_stat re)

-- The four queries of the activity.
pub data ActivityQuery : Type 0 where
  postgres_activity_query95 : ActivityQuery
  postgres_activity_query96 : ActivityQuery
  postgres_activity_query13 : ActivityQuery
  postgres_activity_query_latest : ActivityQuery

-- `selectActivityQuery`
unfoldable pub select_activity_query : ℕ → ActivityQuery
select_activity_query version =
    if ltb version 90600
    then postgres_activity_query95
    else if ltb version 100000
    then postgres_activity_query96
    else if ltb version 140000
    then postgres_activity_query13
    else postgres_activity_query_latest
