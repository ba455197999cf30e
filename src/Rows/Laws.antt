-- ===== src/Rows/Laws.antt =====
-- Which row gives the statistics under a key.
use pgscv.Base.Text.{trim_left}
use pgscv.Base.{
  ◌<>◌, ◌≡◌, refl, ap, ◌∙◌, String, Option, none, some, List, [], ◌∷◌, arith, ◌==◌, string_eq,
  if◌then◌else◌, contains, Option-cases, inl, inr,
}
use mathlib.Core.Option.{or_else}
use mathlib.Core.Option
use pgscv.Base.Dict
use pgscv.Base.Dict.{Dict, NodupKeys}
use pgscv.Base.External.{Floats}
use pgscv.Model.{NullString, PgResult}
use pgscv.Rows.{
  Cells, cells_of, GenericStat, row_key, row_labels, take_value, row_values, row_stat, put_rows,
  parse_postgres_generic_stats, slashed, custom_slashed, custom_values, put_custom_rows,
  parse_postgres_custom_stats,
}

module _ ⦃F : Floats⦄ (label_names : List String) where
  -- The last row with a key.
  abbrev pub last_row : String → List Cells → Option Cells
  last_row key [] = none
  last_row key (cells ∷ rows) =
      or_else (last_row key rows) (if key == row_key label_names cells then some cells else none)

  lookup-put_rows :
      (key : String) (rows : List Cells) (stats : Dict String (GenericStat F))
      → Dict.lookup key (put_rows label_names rows stats)
        ≡ or_else (Option.map (row_stat label_names) (last_row key rows)) (Dict.lookup key stats)
  unfolding put_rows or_else
  lookup-put_rows key [] stats = refl
  lookup-put_rows key (cells ∷ rows) stats = ground (
    arith,
    lookup-put_rows key rows
        (Dict.insert (row_key label_names cells) (row_stat label_names cells) stats),
    Dict.lookup-insert key (row_key label_names cells) (row_stat label_names cells) stats,
  )

  -- The two keys and the two maps of values come from loops of their own.
  custom_slashed_lem :
      (cells : Cells) (key : String)
      → custom_slashed label_names cells key ≡ slashed label_names cells key
  unfolding custom_slashed slashed
  custom_slashed_lem [] key = refl
  custom_slashed_lem ((colname, cell) ∷ cells) key =
      ground
        (arith, custom_slashed_lem cells key, custom_slashed_lem cells (key <> "/" <> cell.text))

  custom_values_lem :
      (cells : Cells) (values : Dict String F.Float)
      → custom_values label_names cells values ≡ row_values label_names cells values
  unfolding custom_values row_values take_value
  custom_values_lem [] values = refl
  custom_values_lem ((colname, cell) ∷ cells) values =
      elim (Option-cases (F.parse_float cell.text)) [
        | inl bad ↦ ground (arith, bad, custom_values_lem cells values)
        | inr (v, parsed) ↦ ground (
          arith,
          parsed,
          custom_values_lem cells values,
          custom_values_lem cells (Dict.insert colname v values),
        )
      ]

  custom_key :
      (cells : Cells)
      → trim_left 47 (custom_slashed label_names cells "") ≡ row_key label_names cells
  unfolding row_key
  custom_key cells = ap (trim_left 47) (custom_slashed_lem cells "")

  lookup-put_custom_rows :
      (key : String) (rows : List Cells) (stats : Dict String (Dict String F.Float))
      → Dict.lookup key (put_custom_rows label_names rows stats)
        ≡ or_else
            (Option.map (λ cells. row_values label_names cells []) (last_row key rows))
            (Dict.lookup key stats)
  unfolding put_custom_rows or_else
  lookup-put_custom_rows key [] stats = refl
  lookup-put_custom_rows key (cells ∷ rows) stats = ground (
    arith,
    custom_key cells,
    custom_values_lem cells [],
    lookup-put_custom_rows key rows
        (Dict.insert (row_key label_names cells) (row_values label_names cells []) stats),
    Dict.lookup-insert key (row_key label_names cells) (row_values label_names cells []) stats,
  )

  -- The number in a cell that is not NULL.
  abbrev pub number_in : Option NullString → Option F.Float
  number_in none = none
  number_in (some cell) = if cell.valid then F.parse_float cell.text else none

  abbrev pub text_in : Option NullString → Option String
  text_in none = none
  text_in (some cell) = some cell.text

  lookup-take_value :
      (name colname : String) (cell : NullString) (values : Dict String F.Float)
      → Dict.lookup name (take_value label_names colname cell values)
        ≡ or_else
            (if contains label_names name
              then none
              else if name == colname
              then number_in (some cell)
              else none)
            (Dict.lookup name values)
  unfolding take_value or_else
  lookup-take_value name colname cell values = elim (Option-cases (F.parse_float cell.text)) [
    | inl bad ↦ ground arith
    | inr (v, parsed) ↦ ground (arith, Dict.lookup-insert name colname v values)
  ]

  lookup-row_values :
      (name : String) (cells : Cells) (values : Dict String F.Float)
      → NodupKeys cells
      → Dict.lookup name (row_values label_names cells values)
        ≡ or_else
            (if contains label_names name then none else number_in (Dict.lookup name cells))
            (Dict.lookup name values)
  unfolding row_values Dict.lookup or_else
  lookup-row_values name [] values u = ground arith
  lookup-row_values name ((colname, cell) ∷ cells) values (fresh, u) = ground (
    arith,
    lookup-row_values name cells (take_value label_names colname cell values) u,
    lookup-take_value name colname cell values,
  )

  lookup-row_labels :
      (name : String) (cells : Cells) (labels : Dict String String)
      → NodupKeys cells
      → Dict.lookup name (row_labels label_names cells labels)
        ≡ or_else
            (if contains label_names name then text_in (Dict.lookup name cells) else none)
            (Dict.lookup name labels)
  unfolding row_labels Dict.lookup or_else
  lookup-row_labels name [] labels u = ground arith
  lookup-row_labels name ((colname, cell) ∷ cells) labels (fresh, u) = ground (
    arith,
    lookup-row_labels name cells labels u,
    lookup-row_labels name cells (Dict.insert colname cell.text labels) u,
    Dict.lookup-insert name colname cell.text labels,
  )

  -- What a row says of a column: its text, if the column is a label, and else its number, if it has one.
  abbrev pub Says : Cells → GenericStat F → Type 0
  Says cells stat =
      (name : String)
      → (Dict.lookup name stat.labels
          ≡ (if contains label_names name then text_in (Dict.lookup name cells) else none))
        × (Dict.lookup name stat.values
            ≡ (if contains label_names name then none else number_in (Dict.lookup name cells)))

  values_of :
      (o : Option Cells)
      → Option.map (λ cells. row_values label_names cells []) o
        ≡ Option.map (λ stat. stat.values) (Option.map (row_stat label_names) o)
  unfolding row_stat
  values_of none = refl
  values_of (some cells) = refl

  or_nothing {ℓ} : {A : Type ℓ} (o : Option A) → or_else o none ≡ o
  unfolding or_else
  or_nothing none = refl
  or_nothing (some a) = refl

  row_stat-Says : (cells : Cells) → NodupKeys cells → Says cells (row_stat label_names cells)
  unfolding row_stat Dict.lookup
  row_stat-Says cells u name = (
    lookup-row_labels name cells [] u ∙ or_nothing _,
    lookup-row_values name cells [] u ∙ or_nothing _,
  )

  -- Every row has distinct columns.
  abbrev pub AllDistinct : List Cells → Type 0
  AllDistinct [] = Unit
  AllDistinct (cells ∷ rows) = NodupKeys cells × AllDistinct rows

  last_row-NodupKeys :
      (key : String) (rows : List Cells) (cells : Cells)
      → AllDistinct rows
      → last_row key rows ≡ some cells
      → NodupKeys cells
  unfolding or_else
  last_row-NodupKeys key [] cells u h = cc
  last_row-NodupKeys key (row ∷ rows) cells (u, us) h = elim (Option-cases (last_row key rows)) [
    | inl none_later ↦ let same : row ≡ cells = ground arith in rw (← same) u
    | inr (later, found) ↦
        let same : later ≡ cells = ground arith in
        rw (← same) (last_row-NodupKeys key rows later us found)
  ]

  lookup_generic :
      (r : PgResult) (key : String)
      → Dict.lookup key (parse_postgres_generic_stats r label_names)
        ≡ Option.map (row_stat label_names) (last_row key (cells_of r.colnames r.rows))
  unfolding parse_postgres_generic_stats Dict.lookup
  lookup_generic r key = lookup-put_rows key (cells_of r.colnames r.rows) [] ∙ or_nothing _

  -- Of a result whose columns have distinct names, a key has statistics exactly when some row makes it with
  -- its labels, and these are what the last such row says: the texts of its labels and the numbers of its
  -- other columns. An earlier row with the same key is lost.
  pub lookup-parse_postgres_generic_stats :
      (r : PgResult) (key : String)
      → AllDistinct (cells_of r.colnames r.rows)
      → (last_row key (cells_of r.colnames r.rows) ≡ none
          → Dict.lookup key (parse_postgres_generic_stats r label_names) ≡ none)
        × ((cells : Cells)
            → last_row key (cells_of r.colnames r.rows) ≡ some cells
            → (stat : GenericStat F) × (Dict.lookup key (parse_postgres_generic_stats r label_names)
                ≡ some stat)
              × Says cells stat)
  lookup-parse_postgres_generic_stats r key u = (
    (λ absent. lookup_generic r key ∙ ap (Option.map (row_stat label_names)) absent),
    (λ cells found. (
      row_stat label_names cells,
      lookup_generic r key ∙ ap (Option.map (row_stat label_names)) found,
      row_stat-Says cells (last_row-NodupKeys key (cells_of r.colnames r.rows) cells u found),
    )),
  )

  -- The two parsers, each with its own loops over the columns, agree: the custom one gives the values of
  -- the generic one under the same keys.
  pub lookup-parse_postgres_custom_stats :
      (r : PgResult) (key : String)
      → Dict.lookup key (parse_postgres_custom_stats r label_names)
        ≡ Option.map
            (λ stat. stat.values)
            (Dict.lookup key (parse_postgres_generic_stats r label_names))
  unfolding parse_postgres_custom_stats Dict.lookup row_stat
  lookup-parse_postgres_custom_stats r key = rw (lookup_generic r key) (
      lookup-put_custom_rows key (cells_of r.colnames r.rows) []
      ∙ or_nothing _
      ∙ values_of (last_row key (cells_of r.colnames r.rows)))
