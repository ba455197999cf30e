-- ===== src/Activity/Parse/Queries.antt =====
-- How many queries the statistics count.
use mathlib.Core.List.{zip}
use pgscv.Base.{
  ◌≡◌, refl, sym, ap, ◌∙◌, ℕ, ◌+◌, String, Bool, false, ◌&&◌, Option, none, some, List, [], ◌∷◌,
  arith, ◌==◌, string_eq, nat_eq, Bool-cases, inl, inr, contains,
}
use pgscv.Base.Dict
use pgscv.Base.Dict.{Dict, NodupKeys}
use pgscv.Base.Counts.{one_if}
use pgscv.Base.External.{Regexps, Floats}
use pgscv.Model.{NullString, PgResult}
use pgscv.Activity.{ActivityStat, QueryRegexp, new_postgres_activity_stat}
use pgscv.Activity.Updates.{st_active, update_vacuum, update_query_stat}
use pgscv.Activity.Parse.{
  Reader, read, wait_column, take_query, take_column, take_columns, take_rows,
  parse_postgres_activity_stats,
}
use pgscv.Activity.Parse.Columns.{
  total_queries, take_column-SameQueries, if_true, if_false, other_way, lookup-cons_none,
}

-- The query of a row is counted: it is given, and so is its state, which is active.
abbrev pub is_query : Reader → Option NullString → Bool
is_query at none = false
is_query at (some cell) = cell.valid && (at "state").valid && (at "state").text == st_active

-- The query's column is none of the columns that are tested before it.
other_names :
    (query_name : String)
    → query_name ≡ "query"
    → ((query_name == "state") ≡ false)
      × ((query_name == "active_seconds") ≡ false)
      × ((query_name == "waiting_seconds") ≡ false)
unfolding string_eq
other_names query_name h = rw h (refl, refl, refl)

module _ ⦃R : Regexps⦄ ⦃F : Floats⦄ where
  take_query_total :
      (wait : String) (at : Reader) (cell : NullString) (s : ActivityStat R F)
      → total_queries (take_query wait at cell s)
        ≡ total_queries s + one_if ((at "state").valid && (at "state").text == st_active)
  unfolding take_query update_query_stat update_vacuum
  take_query_total wait at cell s = ground arith

  module _ (wait : String) (at : Reader) where
    take_column_query :
        (colname : String) (cell : NullString) (s : ActivityStat R F)
        → (wait == "query") ≡ false
        → colname ≡ "query"
        → total_queries (take_column wait at colname cell s)
          ≡ total_queries s + one_if (is_query at (some cell))
    unfolding take_column
    take_column_query colname cell s h e =
        ground (arith, other_names colname e, take_query_total wait at cell s)

    take_columns_absent :
        (cells : List (String × NullString)) (s : ActivityStat R F)
        → Dict.lookup "query" cells ≡ none
        → total_queries (take_columns wait at cells s) ≡ total_queries s
    unfolding take_columns
    take_columns_absent [] s h = refl
    take_columns_absent ((colname, cell) ∷ cells) s h =
        let (other, later) = lookup-cons_none "query" colname cell cells h in
        take_columns_absent cells (take_column wait at colname cell s) later
        ∙ take_column-SameQueries wait at colname cell s (other_way "query" colname other)

    abbrev no_cells : List (String × NullString)
    no_cells = []

    no_query :
        (s : ActivityStat R F)
        → total_queries s ≡ total_queries s + one_if (is_query at (Dict.lookup "query" no_cells))
    unfolding Dict.lookup
    no_query s = omega arith

    -- A row adds one exactly when its query is counted.
    take_columns_total :
        (cells : List (String × NullString)) (s : ActivityStat R F)
        → (wait == "query") ≡ false
        → NodupKeys cells
        → total_queries (take_columns wait at cells s)
          ≡ total_queries s + one_if (is_query at (Dict.lookup "query" cells))
    unfolding take_columns
    take_columns_total [] s w u = no_query s
    take_columns_total ((colname, cell) ∷ cells) s w (fresh, u) =
        let next = take_column wait at colname cell s in
        let looked = Dict.lookup-cons "query" colname cell cells in
        elim (Bool-cases ("query" == colname)) [
          | inl here ↦
              let same : "query" ≡ colname = ground arith in
              rw (looked ∙ if_true (some cell) (Dict.lookup "query" cells) here) (
                take_columns_absent cells next (rw same fresh)
                ∙ take_column_query colname cell s w (sym same))
          | inr other ↦ rw (looked ∙ if_false (some cell) (Dict.lookup "query" cells) other) (
              take_columns_total cells next w u
              ∙ ap (λ n. n + one_if (is_query at (Dict.lookup "query" cells)))
                  (take_column-SameQueries wait at colname cell s
                    (other_way "query" colname other)))
        ]

-- The rows of a result whose test holds on their cells.
abbrev pub count_rows :
    (List String → List NullString → Bool) → List String → List (List NullString) → ℕ
count_rows test colnames [] = 0
count_rows test colnames (row ∷ rows) = one_if (test colnames row) + count_rows test colnames rows

abbrev pub AllDistinct : List String → List (List NullString) → Type 0
AllDistinct colnames [] = Unit
AllDistinct colnames (row ∷ rows) = NodupKeys (zip colnames row) × AllDistinct colnames rows

-- A row whose query is counted.
abbrev pub has_query : List String → List NullString → Bool
has_query colnames row = is_query (read colnames row) (Dict.lookup "query" (zip colnames row))

wait_column_lem : (colnames : List String) → (wait_column colnames == "query") ≡ false
unfolding wait_column string_eq
wait_column_lem colnames = elim (Bool-cases (contains colnames "waiting")) [
  | inl old ↦ rw old refl
  | inr new ↦ rw new refl
]

module _ ⦃R : Regexps⦄ ⦃F : Floats⦄ where
  take_rows_total :
      (colnames : List String) (rows : List (List NullString)) (s : ActivityStat R F)
      → AllDistinct colnames rows
      → total_queries (take_rows colnames rows s)
        ≡ total_queries s + count_rows has_query colnames rows
  unfolding take_rows
  take_rows_total colnames [] s u = omega arith
  take_rows_total colnames (row ∷ rows) s (distinct, u) =
      let at = read colnames row in
      let wait = wait_column colnames in
      omega (
        arith,
        take_rows_total colnames rows (take_columns wait at (zip colnames row) s) u,
        take_columns_total wait at (zip colnames row) s (wait_column_lem colnames) distinct,
      )

  -- Of a result whose columns have distinct names, each row with a query and the state active is counted
  -- in exactly one class of queries, and no other row is counted.
  pub total_queries-parse_postgres_activity_stats :
      (r : PgResult) (re : QueryRegexp R)
      → AllDistinct r.colnames r.rows
      → total_queries (parse_postgres_activity_stats r re) ≡ count_rows has_query r.colnames r.rows
  unfolding parse_postgres_activity_stats new_postgres_activity_stat
  total_queries-parse_postgres_activity_stats r re u =
      omega (arith, take_rows_total r.colnames r.rows (new_postgres_activity_stat re) u)
