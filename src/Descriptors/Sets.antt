-- ===== src/Descriptors/Sets.antt =====
-- Sets of descriptors from the settings of user-defined metrics (`newDescSet`, `newDeskSetsFromSubsystems`).
pub mod Valid
use pgscv.Base.{
  String, Bool, true, false, not, ◌&&◌, Option, none, some, List, [], ◌∷◌, ◌++◌, ◌==◌, string_eq,
  if◌then◌else◌, is_some,
}
use pgscv.Base.Dict.{Dict, keys}
use pgscv.Base.Result.{Result, ok, err}
use pgscv.Base.External.{Regexps, Floats}
use pgscv.Model.{UserMetric, MetricsSubsystem}
use pgscv.Filter.{new}
use pgscv.Descriptors.{
  Prometheus, DescOpts, TypedDesc, ValueType, counter_value, gauge_value, new_custom_typed_desc,
}

-- `typedDescSet`
pub record TypedDescSet (R : Regexps) (F : Floats) : Type 0 where
  pub namespace : String
  pub subsystem : String
  pub databases_re : Option R.Regexp
  pub query : String
  pub descs : List (TypedDesc R F)

abbrev pub empty_set : {R : Regexps} {F : Floats} → TypedDescSet R F
empty_set = record { namespace = ""; subsystem = ""; databases_re = none; query = ""; descs = [] }

-- `promValueTypes[usage]`
abbrev pub value_type_of : String → Option ValueType
value_type_of usage =
    if usage == "COUNTER"
    then some counter_value
    else if usage == "GAUGE"
    then some gauge_value
    else none

-- Appending nothing to nil leaves nil.
abbrev pub some_labels : List String → Option (List String)
some_labels [] = none
some_labels (l ∷ ls) = some (l ∷ ls)

abbrev pub labeled_names : Option (Dict String (List String)) → List String
unfolding keys
labeled_names none = []
labeled_names (some labeled) = keys labeled

-- The names of the labels: the database where it is asked for, those of the metric, and those of its
-- labeled values.
unfoldable pub label_names_of : MetricsSubsystem → UserMetric → Option (List String)
unfolding labeled_names
label_names_of subsystem m = some_labels (
    (if not (subsystem.databases == "") then "database" ∷ m.labels else m.labels)
    ++ labeled_names m.labeled_values)

module _ ⦃R : Regexps⦄ ⦃F : Floats⦄ (prom : Prometheus) where
  abbrev pub desc_of :
      String
      → String
      → MetricsSubsystem
      → Dict String String
      → ValueType
      → UserMetric
      → TypedDesc R F
  unfolding new new_custom_typed_desc label_names_of
  desc_of namespace name subsystem const_labels dtype m =
      new_custom_typed_desc prom
        (record {
          namespace = namespace;
          subsystem = name;
          name = m.short_name;
          help = m.description;
          factor = F.zero;
        })
        dtype m.value m.labeled_values (label_names_of subsystem m) const_labels new

  -- The loop over the metrics.
  unfoldable pub new_descs :
      String
      → String
      → MetricsSubsystem
      → Dict String String
      → List UserMetric
      → List (TypedDesc R F)
  unfolding desc_of
  new_descs namespace name subsystem const_labels [] = []
  new_descs namespace name subsystem const_labels (m ∷ metrics) =
      let rest = new_descs namespace name subsystem const_labels metrics in
      if m.value == "" && not (is_some m.labeled_values)
      then rest
      else elim (value_type_of m.usage) [
        | none ↦ rest
        | some dtype ↦ desc_of namespace name subsystem const_labels dtype m ∷ rest
      ]

  abbrev pub compile_databases : String → Result String (Option R.Regexp)
  compile_databases databases =
      if not (databases == "")
      then elim (R.compile databases) [ none ↦ err databases | some re ↦ ok (some re) ]
      else ok none

  -- `newDescSet`
  unfoldable pub new_desc_set :
      String → String → MetricsSubsystem → Dict String String → Result String (TypedDescSet R F)
  unfolding new_descs
  new_desc_set namespace name subsystem const_labels =
      elim (compile_databases subsystem.databases) [
        | err e ↦ err e
        | ok re ↦ ok (record {
          namespace = namespace;
          subsystem = name;
          databases_re = re;
          query = subsystem.query;
          descs = new_descs namespace name subsystem const_labels subsystem.metrics;
        })
      ]

  -- `newDeskSetsFromSubsystems`: after an error the empty set is appended.
  unfoldable pub new_desc_sets :
      String → Dict String MetricsSubsystem → Dict String String → List (TypedDescSet R F)
  unfolding new_desc_set
  new_desc_sets namespace [] const_labels = []
  new_desc_sets namespace ((name, subsystem) ∷ subsystems) const_labels =
      let rest = new_desc_sets namespace subsystems const_labels in
      elim (new_desc_set namespace name subsystem const_labels) [
        | err e ↦ empty_set ∷ rest
        | ok set ↦ set ∷ rest
      ]
