-- ===== src/Descriptors/Multiple.antt =====
-- The metrics that labeled values make from a row (`updateMultipleMetrics`, `parseLabeledValue`,
-- `updateMetrics`).
use pgscv.Base.{
  String, true, false, not, ◌&&◌, ◌||◌, none, some, List, [], ◌∷◌, ◌++◌, ◌==◌, string_eq, nat_eq,
  if◌then◌else◌, length, contains,
}
use pgscv.Base.Dict.{Dict}
use pgscv.Base.Text.{split_on}
use pgscv.Base.External.{Regexps, Floats}
use pgscv.Model.{NullString}
use pgscv.Descriptors.{Prometheus, TypedDesc, names}
use pgscv.Descriptors.Single.{
  Cells, Gathered, Sent, label_count, database_label, send_gathered, update_single_metric,
}

-- The first two parts, or the first one twice. `strings.Split` gives one part at least.
abbrev pub two_parts : List String → String × String
two_parts [] = ("", "")
two_parts (a ∷ []) = (a, a)
two_parts (a ∷ b ∷ _) = (a, b)

-- `parseLabeledValue`
unfoldable pub parse_labeled_value : String → String × String
unfolding split_on
parse_labeled_value s = if s == "" then ("", "") else two_parts (split_on 47 s)

-- One send after another; a panic ends both.
unfoldable pub and_then : {F : Floats} → Sent F → Sent F → Sent F
and_then none later = none
and_then (some ms) none = none
and_then (some ms) (some ns) = some (ms ++ ns)

module _ ⦃R : Regexps⦄ ⦃F : Floats⦄ where
  abbrev add_label : TypedDesc R F → String → Gathered F → Gathered F
  add_label d text s = record s {
    label_values = s.label_values ++ (text ∷ []);
    labels_ok = length (s.label_values ++ (text ∷ [])) == label_count d || s.labels_ok;
  }

  -- A cell in the source column, before a value is found.
  abbrev take_source : TypedDesc R F → String → NullString → Gathered F → Gathered F
  take_source d dest cell s = if not cell.valid then s else elim (F.parse_float cell.text) [
    | none ↦ record s { value = F.failed cell.text }
    | some v ↦ record (add_label d dest s) { value = v; value_ok = true }
  ]

  -- The body of the loop over the columns.
  unfoldable pub take_labeled :
      TypedDesc R F → String × String → String → NullString → Gathered F → Gathered F
  take_labeled d (source, dest) colname cell s =
      if source == colname && not s.value_ok
      then take_source d dest cell s
      else if contains (names d.label_names) colname && not s.labels_ok
      then add_label d cell.text s
      else s

  unfoldable pub gather_labeled : TypedDesc R F → String × String → Cells → Gathered F → Gathered F
  unfolding take_labeled
  gather_labeled d source [] s = s
  gather_labeled d source ((colname, cell) ∷ cells) s =
      gather_labeled d source cells (take_labeled d source colname cell s)

  abbrev start_labeled : TypedDesc R F → Cells → String → Gathered F
  unfolding database_label
  start_labeled d cells database = record {
    label_values = database_label cells database;
    labels_ok = length (database_label cells database) == label_count d;
    value = F.zero;
    value_ok = false;
  }

  -- The loop over the columns that one label collects.
  unfoldable pub update_columns : Prometheus → TypedDesc R F → Cells → String → List String → Sent F
  unfolding gather_labeled parse_labeled_value start_labeled and_then
  update_columns prom d cells database [] = some []
  update_columns prom d cells database (column ∷ columns) =
      and_then
        (send_gathered prom d
          (gather_labeled d (parse_labeled_value column) cells (start_labeled d cells database)))
        (update_columns prom d cells database columns)

  unfoldable pub update_labels :
      Prometheus → TypedDesc R F → Cells → String → Dict String (List String) → Sent F
  unfolding update_columns
  update_labels prom d cells database [] = some []
  update_labels prom d cells database ((_, columns) ∷ labeled) =
      and_then (update_columns prom d cells database columns)
        (update_labels prom d cells database labeled)

  -- `updateMetrics`, with `updateMultipleMetrics` in its first branch.
  unfoldable pub update_metrics : Prometheus → TypedDesc R F → Cells → String → Sent F
  unfolding update_labels update_single_metric
  update_metrics prom d cells database = elim d.labeled_values [
    | some labeled ↦ update_labels prom d cells database labeled
    | none ↦ update_single_metric prom d cells database
  ]
