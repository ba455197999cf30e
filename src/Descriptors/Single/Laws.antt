-- ===== src/Descriptors/Single/Laws.antt =====
-- Which metric a row makes.
use pgscv.Base.{
  ◌≡◌, String, true, false, not, ◌&&◌, Option, none, some, List, [], ◌∷◌, ◌++◌, ◌==◌, string_eq,
  nat_eq, if◌then◌else◌, length, contains,
}
use pgscv.Base.Dict
use pgscv.Base.Dict.{Dict}
use pgscv.Base.External.{Regexps, Floats}
use pgscv.Model.{NullString}
use pgscv.Descriptors.{Prometheus, TypedDesc, Metric, names}
use pgscv.Descriptors.Made.{is_made, metric_of}
use pgscv.Descriptors.Single.{Cells, Gathered, label_count}

module _ ⦃R : Regexps⦄ ⦃F : Floats⦄ (d : TypedDesc R F) where
  -- The label values of a row, in the order of its columns.
  abbrev pub label_texts : Cells → List String
  label_texts [] = []
  label_texts ((colname, cell) ∷ cells) =
      let rest = label_texts cells in
      if not (colname == d.value) && contains (names d.label_names) colname
      then cell.text ∷ rest
      else rest

  abbrev pub cell_number : Option NullString → Option F.Float
  cell_number none = none
  cell_number (some cell) = if cell.valid then F.parse_float cell.text else none

  -- The value of a row: its cell in the descriptor's column, unless it is NULL or no number.
  abbrev pub value_in : Cells → Option F.Float
  value_in cells = cell_number (Dict.lookup d.value cells)

  -- Where there are as many label values as labels, that has been noted.
  abbrev Noted : Gathered F → Type 0
  Noted s = length s.label_values ≡ label_count d → s.labels_ok ≡ true

  abbrev Holds : Option F.Float → Gathered F → Type 0
  Holds none s = s.value_ok ≡ false
  Holds (some v) s = (s.value_ok ≡ true) × (s.value ≡ v)

  -- What the value and the label values of a row make.
  abbrev pub row_metric : Prometheus → Option F.Float → List String → List (Metric F)
  row_metric prom none values = []
  row_metric prom (some v) values =
      if is_made prom d values then metric_of prom d v values ∷ [] else []

  -- The name of the database, where it is given and the row has no column for it, and where the descriptor
  -- has a list of labels at all.
  abbrev pub named_database : Cells → String → List String
  named_database cells database = elim d.label_names [
    | none ↦ []
    | some _ ↦ elim (Dict.lookup "database" cells) [
      | none ↦ if database == "" then [] else database ∷ []
      | some _ ↦ []
    ]
  ]

  abbrev pub row_labels : Cells → String → List String
  row_labels cells database = named_database cells database ++ label_texts cells
