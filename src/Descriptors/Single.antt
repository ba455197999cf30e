-- ===== src/Descriptors/Single.antt =====
-- One metric from a row of a query's result (`updateSingleMetric`). A row is the list of its cells with the
-- names of their columns: the rows that a query returns have one cell for each column.
pub mod Laws
use pgscv.Base.{
  ℕ, String, Bool, true, false, not, ◌&&◌, ◌||◌, Option, none, some, List, [], ◌∷◌, ◌++◌, ◌==◌,
  string_eq, nat_eq, if◌then◌else◌, length, contains,
}
use pgscv.Base.Dict.{Dict, keys}
use pgscv.Base.External.{Regexps, Floats}
use pgscv.Model.{NullString}
use pgscv.Descriptors.{Prometheus, TypedDesc, Metric, names, new_const_metric}

abbrev pub Cells : Type 0
Cells = Dict String NullString

-- What the loop over the columns has found.
pub record Gathered (F : Floats) : Type 0 where
  pub label_values : List String
  pub labels_ok : Bool
  pub value : F.Float
  pub value_ok : Bool

-- What is put into the channel: metrics and nils, or a panic (`none`).
abbrev pub Sent : Floats → Type 0
Sent F = Option (List (Option (Metric F)))

module _ ⦃R : Regexps⦄ ⦃F : Floats⦄ where
  abbrev pub label_count : TypedDesc R F → ℕ
  label_count d = length (names d.label_names)

  -- The name of the database, where the row does not have it.
  unfoldable pub database_label : Cells → String → List String
  unfolding keys
  database_label cells database =
      if not (database == "") && not (contains (keys cells) "database") then database ∷ [] else []

  unfoldable pub start : TypedDesc R F → Cells → String → Gathered F
  unfolding database_label
  start d cells database =
      let before = database_label cells database in
      elim d.label_names [
        | none ↦ record { label_values = []; labels_ok = true; value = F.zero; value_ok = false }
        | some ls ↦ record {
          label_values = before;
          labels_ok = length before == length ls;
          value = F.zero;
          value_ok = false;
        }
      ]

  abbrev pub take_label : TypedDesc R F → String → Gathered F → Gathered F
  take_label d text s = record s {
    label_values = s.label_values ++ (text ∷ []);
    labels_ok = length (s.label_values ++ (text ∷ [])) == label_count d || s.labels_ok;
  }

  abbrev take_value : NullString → Gathered F → Gathered F
  take_value cell s = if not cell.valid then s else elim (F.parse_float cell.text) [
    | none ↦ record s { value = F.failed cell.text }
    | some v ↦ record s { value = v; value_ok = true }
  ]

  -- The body of the loop over the columns.
  unfoldable pub take_cell : TypedDesc R F → String → NullString → Gathered F → Gathered F
  take_cell d colname cell s =
      if colname == d.value
      then take_value cell s
      else if contains (names d.label_names) colname
      then take_label d cell.text s
      else s

  unfoldable pub gather : TypedDesc R F → Cells → Gathered F → Gathered F
  unfolding take_cell
  gather d [] s = s
  gather d ((colname, cell) ∷ cells) s = gather d cells (take_cell d colname cell s)

  -- The end of the function: nothing is sent without a value and all labels.
  abbrev pub send_gathered : Prometheus → TypedDesc R F → Gathered F → Sent F
  send_gathered prom d s =
      if not s.value_ok || not s.labels_ok
      then some []
      else elim (new_const_metric prom d s.value s.label_values) [
        | none ↦ none
        | some m ↦ some (m ∷ [])
      ]

  -- `updateSingleMetric`
  unfoldable pub update_single_metric : Prometheus → TypedDesc R F → Cells → String → Sent F
  unfolding start gather
  update_single_metric prom d cells database =
      send_gathered prom d (gather d cells (start d cells database))
