-- ===== src/Rows.antt =====
-- Statistics from the rows of any query (internal/collector/postgres_common.go). A row is the list of its
-- cells with the names of their columns, of which it has one each.
pub mod Laws
mod Tests
use mathlib.Core.List.{zip}
use pgscv.Base.{
  String, ◌<>◌, Bool, true, false, not, Option, none, some, List, [], ◌∷◌, ◌==◌, string_eq,
  if◌then◌else◌, contains,
}
use pgscv.Base.Dict
use pgscv.Base.Dict.{Dict}
use pgscv.Base.Text.{trim_left}
use pgscv.Base.External.{Floats}
use pgscv.Model.{NullString, PgResult}

abbrev pub Cells : Type 0
Cells = List (String × NullString)

abbrev pub cells_of : List String → List (List NullString) → List Cells
cells_of colnames [] = []
cells_of colnames (row ∷ rows) = zip colnames row ∷ cells_of colnames rows

-- `postgresGenericStat`
pub record GenericStat (F : Floats) : Type 0 where
  pub labels : Dict String String
  pub values : Dict String F.Float

-- The key of a row: the texts of its labels, each after a slash, in the order of the columns.
unfoldable pub slashed : List String → Cells → String → String
slashed label_names [] key = key
slashed label_names ((colname, cell) ∷ cells) key =
    slashed label_names cells
      (if contains label_names colname then key <> "/" <> cell.text else key)

unfoldable pub row_key : List String → Cells → String
unfolding slashed trim_left
row_key label_names cells = trim_left 47 (slashed label_names cells "")

unfoldable pub row_labels : List String → Cells → Dict String String → Dict String String
row_labels label_names [] labels = labels
row_labels label_names ((colname, cell) ∷ cells) labels =
    row_labels label_names cells
      (if contains label_names colname then Dict.insert colname cell.text labels else labels)

module _ ⦃F : Floats⦄ where
  -- The body of the second loop over the columns.
  unfoldable pub take_value :
      List String → String → NullString → Dict String F.Float → Dict String F.Float
  take_value label_names colname cell values =
      if contains label_names colname
      then values
      else if not cell.valid
      then values
      else elim (F.parse_float cell.text) [ none ↦ values | some v ↦ Dict.insert colname v values ]

  unfoldable pub row_values : List String → Cells → Dict String F.Float → Dict String F.Float
  unfolding take_value
  row_values label_names [] values = values
  row_values label_names ((colname, cell) ∷ cells) values =
      row_values label_names cells (take_value label_names colname cell values)

  -- The statistics of one row. The map of values is shared with the one put into the store before it is
  -- filled.
  unfoldable pub row_stat : List String → Cells → GenericStat F
  unfolding row_labels row_values
  row_stat label_names cells = record {
    labels = row_labels label_names cells [];
    values = row_values label_names cells [];
  }

  -- The loop over the rows.
  unfoldable pub put_rows :
      List String → List Cells → Dict String (GenericStat F) → Dict String (GenericStat F)
  unfolding row_key row_stat
  put_rows label_names [] stats = stats
  put_rows label_names (cells ∷ rows) stats =
      put_rows label_names rows
        (Dict.insert (row_key label_names cells) (row_stat label_names cells) stats)

  -- `parsePostgresGenericStats`
  unfoldable pub parse_postgres_generic_stats : PgResult → List String → Dict String (GenericStat F)
  unfolding put_rows
  parse_postgres_generic_stats r label_names = put_rows label_names (cells_of r.colnames r.rows) []

  -- The loop over the columns that makes the key, as `parsePostgresCustomStats` writes it.
  unfoldable pub custom_slashed : List String → Cells → String → String
  custom_slashed label_names [] key = key
  custom_slashed label_names ((colname, cell) ∷ cells) key =
      if contains label_names colname
      then custom_slashed label_names cells (key <> "/" <> cell.text)
      else custom_slashed label_names cells key

  -- Its loop over the columns that collects the values.
  unfoldable pub custom_values : List String → Cells → Dict String F.Float → Dict String F.Float
  custom_values label_names [] values = values
  custom_values label_names ((colname, cell) ∷ cells) values =
      if contains label_names colname
      then custom_values label_names cells values
      else if not cell.valid
      then custom_values label_names cells values
      else elim (F.parse_float cell.text) [
        | none ↦ custom_values label_names cells values
        | some v ↦ custom_values label_names cells (Dict.insert colname v values)
      ]

  unfoldable pub put_custom_rows :
      List String
      → List Cells
      → Dict String (Dict String F.Float)
      → Dict String (Dict String F.Float)
  unfolding custom_slashed custom_values trim_left
  put_custom_rows label_names [] stats = stats
  put_custom_rows label_names (cells ∷ rows) stats =
      let key = trim_left 47 (custom_slashed label_names cells "") in
      put_custom_rows label_names rows (Dict.insert key (custom_values label_names cells []) stats)

  -- `parsePostgresCustomStats`
  unfoldable pub parse_postgres_custom_stats :
      PgResult → List String → Dict String (Dict String F.Float)
  unfolding put_custom_rows
  parse_postgres_custom_stats r label_names =
      put_custom_rows label_names (cells_of r.colnames r.rows) []
