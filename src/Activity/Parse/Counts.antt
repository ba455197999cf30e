-- ===== src/Activity/Parse/Counts.antt =====
-- What the counts of the statistics count.
use mathlib.Core.List.{zip}
use pgscv.Base.{
  ◌≡◌, refl, ap, ℕ, ◌+◌, String, Bool, true, false, not, ◌&&◌, ◌||◌, Option, none, some, List, [],
  ◌∷◌, arith, ◌==◌, string_eq, nat_eq, if◌then◌else◌,
}
use pgscv.Base.Dict
use pgscv.Base.Dict.{Dict, NodupKeys}
use pgscv.Base.External.{Regexps, Floats}
use pgscv.Model.{NullString, PgResult}
use pgscv.Base.Counts.{count_at, one_if, count_at-count_up}
use pgscv.Activity.{ActivityStat, QueryRegexp, new_postgres_activity_stat}
use pgscv.Activity.Updates.{
  st_active, st_idle, st_fastpath, st_disabled, in_xact, stat_key, update_state,
}
use pgscv.Activity.Parse.{
  Reader, read, wait_column, is_waiting, take_state, take_columns, take_rows,
  parse_postgres_activity_stats,
}
use pgscv.Activity.Parse.Queries.{count_rows, AllDistinct}
use pgscv.Activity.Parse.Columns.{SameStates, state_effect, take_columns_states}

-- The counters that a state may have.
pub data Class : Type 0 where
  in_active : Class
  in_idle : Class
  in_idlexact : Class
  in_other : Class
  in_none : Class

abbrev pub class_of : String → Class
class_of state =
    if state == st_active
    then in_active
    else if state == st_idle
    then in_idle
    else if in_xact state
    then in_idlexact
    else if state == st_fastpath || state == st_disabled
    then in_other
    else in_none

abbrev pub same_class : Class → Class → Bool
same_class in_active in_active = true
same_class in_idle in_idle = true
same_class in_idlexact in_idlexact = true
same_class in_other in_other = true
same_class _ _ = false

-- The backend of a row is counted under the key in the class: it has a state of this class, it has a
-- database, and it does not wait.
abbrev pub is_counted : String → Reader → Option NullString → String → Class → Bool
is_counted wait at none key class = false
is_counted wait at (some cell) key class =
    cell.valid
    && not (is_waiting (at wait))
    && (at "database").valid
    && key == stat_key (at "user").text (at "database").text
    && same_class (class_of cell.text) class

module _ ⦃R : Regexps⦄ ⦃F : Floats⦄ where
  abbrev pub counter : Class → ActivityStat R F → Dict String ℕ
  counter in_active s = s.active
  counter in_idle s = s.idle
  counter in_idlexact s = s.idlexact
  counter in_other s = s.other
  counter in_none s = []

  take_state_counts :
      (wait : String) (at : Reader) (cell : NullString) (s : ActivityStat R F) (key : String)
      (class : Class)
      → cell.valid ≡ true
      → count_at key (counter class (take_state wait at cell s))
        ≡ count_at key (counter class s) + one_if (is_counted wait at (some cell) key class)
  unfolding take_state update_state
  take_state_counts wait at cell s key in_active h =
      ground
        (arith, count_at-count_up key (stat_key (at "user").text (at "database").text) s.active)
  take_state_counts wait at cell s key in_idle h =
      ground (arith, count_at-count_up key (stat_key (at "user").text (at "database").text) s.idle)
  take_state_counts wait at cell s key in_idlexact h =
      ground
        (arith, count_at-count_up key (stat_key (at "user").text (at "database").text) s.idlexact)
  take_state_counts wait at cell s key in_other h =
      ground (arith, count_at-count_up key (stat_key (at "user").text (at "database").text) s.other)
  take_state_counts wait at cell s key in_none h = ground arith

  state_effect_counts :
      (wait : String) (at : Reader) (o : Option NullString) (s : ActivityStat R F) (key : String)
      (class : Class)
      → count_at key (counter class (state_effect wait at o s))
        ≡ count_at key (counter class s) + one_if (is_counted wait at o key class)
  state_effect_counts wait at none s key class = omega arith
  state_effect_counts wait at (some cell) s key class =
      ground (arith, take_state_counts wait at cell s key class)

  counter-SameStates :
      (class : Class) (s t : ActivityStat R F) → SameStates s t → counter class t ≡ counter class s
  counter-SameStates in_active s t h = h.0
  counter-SameStates in_idle s t h = h.1
  counter-SameStates in_idlexact s t h = h.2
  counter-SameStates in_other s t h = h.3
  counter-SameStates in_none s t h = refl

-- A row whose backend is counted.
abbrev pub has_state : String → Class → List String → List NullString → Bool
has_state key class colnames row =
    is_counted (wait_column colnames) (read colnames row) (Dict.lookup "state" (zip colnames row))
      key class

module _ ⦃R : Regexps⦄ ⦃F : Floats⦄ where
  take_rows_counts :
      (colnames : List String) (rows : List (List NullString)) (s : ActivityStat R F) (key : String)
      (class : Class)
      → AllDistinct colnames rows
      → count_at key (counter class (take_rows colnames rows s))
        ≡ count_at key (counter class s) + count_rows (has_state key class) colnames rows
  unfolding take_rows
  take_rows_counts colnames [] s key class u = omega arith
  take_rows_counts colnames (row ∷ rows) s key class (distinct, u) =
      let at = read colnames row in
      let wait = wait_column colnames in
      let cells = zip colnames row in
      let next = take_columns wait at cells s in
      omega (
        arith,
        take_rows_counts colnames rows next key class u,
        ap (count_at key) (
            counter-SameStates class (state_effect wait at (Dict.lookup "state" cells) s) next
              (take_columns_states wait at cells s distinct)),
        state_effect_counts wait at (Dict.lookup "state" cells) s key class,
      )

  no_count :
      (class : Class) (re : QueryRegexp R) (key : String)
      → count_at key (counter class (new_postgres_activity_stat {F = F} re)) ≡ 0
  unfolding new_postgres_activity_stat Dict.lookup
  no_count in_active re key = refl
  no_count in_idle re key = refl
  no_count in_idlexact re key = refl
  no_count in_other re key = refl
  no_count in_none re key = refl

  -- Of a result whose columns have distinct names, the counters of active, idle, idle in transaction and
  -- other backends have under each key the number of the rows of this user and database with a state of that
  -- kind, a database that is not NULL, and no lock that they wait for.
  pub count_at-parse_postgres_activity_stats :
      (r : PgResult) (re : QueryRegexp R) (key : String) (class : Class)
      → AllDistinct r.colnames r.rows
      → count_at key (counter class (parse_postgres_activity_stats r re))
        ≡ count_rows (has_state key class) r.colnames r.rows
  unfolding parse_postgres_activity_stats
  count_at-parse_postgres_activity_stats r re key class u = omega (
    arith,
    take_rows_counts r.colnames r.rows (new_postgres_activity_stat re) key class u,
    no_count class re key,
  )
