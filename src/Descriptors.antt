-- ===== src/Descriptors.antt =====
-- Descriptors of metrics and the metrics made by them (`typedDesc` of
-- internal/collector/collector_common.go).
pub mod Made
pub mod Sets
pub mod Single
pub mod Multiple
pub mod Databases
pub mod Sends
mod Tests
use pgscv.Base.{
  ℕ, String, ◌<>◌, Bool, true, false, not, ◌&&◌, Option, none, some, List, [], ◌∷◌, ◌==◌, string_eq,
  nat_eq, if◌then◌else◌, length,
}
use pgscv.Base.Dict
use pgscv.Base.Dict.{Dict}
use pgscv.Base.External.{Regexps, Floats}
use pgscv.Filter.{Filter, Filters, no_filter, pass}

pub data ValueType : Type 0 where
  counter_value : ValueType
  gauge_value : ValueType

-- `descOpts`
pub record DescOpts (F : Floats) : Type 0 where
  pub namespace : String
  pub subsystem : String
  pub name : String
  pub help : String
  pub factor : F.Float

-- `prometheus.Desc`, by what it is made from.
pub record Desc : Type 0 where
  pub fq_name : String
  pub help : String
  pub variable_labels : List String
  pub const_labels : Dict String String

-- `prometheus.BuildFQName` and whether `prometheus.NewConstMetric` takes a descriptor and label values.
pub record Prometheus : Type 0 where
  pub build_fq_name : String → String → String → String
  pub accepts : Desc → List String → Bool

-- `typedDesc`. Label names that are nil are none; its field `labels` is always empty and left out.
pub record TypedDesc (R : Regexps) (F : Floats) : Type 0 where
  pub desc : Desc
  pub value_type : ValueType
  pub factor : F.Float
  pub value : String
  pub labeled_values : Option (Dict String (List String))
  pub label_names : Option (List String)
  pub filters : Filters R

-- `prometheus.Metric`, as `NewConstMetric` makes it.
pub record Metric (F : Floats) : Type 0 where
  pub desc : Desc
  pub value_type : ValueType
  pub value : F.Float
  pub label_values : List String

abbrev pub names : Option (List String) → List String
names none = []
names (some ls) = ls

module _ ⦃R : Regexps⦄ ⦃F : Floats⦄ (prom : Prometheus) where
  abbrev fq_desc : DescOpts F → Option (List String) → Dict String String → Desc
  fq_desc opts labels const_labels = record {
    fq_name = prom.build_fq_name opts.namespace opts.subsystem opts.name;
    help = opts.help;
    variable_labels = names labels;
    const_labels = const_labels;
  }

  -- `newBuiltinTypedDesc`
  unfoldable pub new_builtin_typed_desc :
      DescOpts F → ValueType → Option (List String) → Dict String String → Filters R → TypedDesc R F
  new_builtin_typed_desc opts dtype labels const_labels filters = record {
    desc = fq_desc opts labels const_labels;
    value_type = dtype;
    factor = opts.factor;
    value = "";
    labeled_values = none;
    label_names = labels;
    filters = filters;
  }

  -- `newCustomTypedDesc`
  unfoldable pub new_custom_typed_desc :
      DescOpts F
      → ValueType
      → String
      → Option (Dict String (List String))
      → Option (List String)
      → Dict String String
      → Filters R
      → TypedDesc R F
  new_custom_typed_desc opts dtype source labeled labels const_labels filters = record {
    desc = fq_desc opts labels const_labels;
    value_type = dtype;
    factor = F.zero;
    value = source;
    labeled_values = labeled;
    label_names = labels;
    filters = filters;
  }

-- `d.filters[key]`, the zero filter where the key is missing.
abbrev pub filter_at : {R : Regexps} → String → Filters R → Filter R
filter_at key filters = elim (Dict.lookup key filters) [ none ↦ no_filter | some f ↦ f ]

module _ ⦃R : Regexps⦄ where
  -- `hasFilter`: a label without a value is a panic (`none`).
  unfoldable pub has_filter : Filters R → List String → List String → Option Bool
  has_filter filters [] values = some false
  has_filter filters (key ∷ keys) [] = none
  has_filter filters (key ∷ keys) (v ∷ values) =
      let rest = has_filter filters keys values in
      if not (pass (filter_at key filters) v) then some true else rest

module _ ⦃R : Regexps⦄ ⦃F : Floats⦄ (prom : Prometheus) where
  abbrev pub scaled : TypedDesc R F → F.Float → F.Float
  scaled d v = if not (F.is_zero d.factor) then F.mul v d.factor else v

  -- `newConstMetric`: a metric, or nil, or a panic (`none`).
  unfoldable pub new_const_metric :
      TypedDesc R F → F.Float → List String → Option (Option (Metric F))
  unfolding has_filter
  new_const_metric d v values =
      if not (length (names d.label_names) == length values)
      then some none
      else elim (has_filter d.filters (names d.label_names) values) [
        | none ↦ none
        | some true ↦ some none
        | some false ↦ some (
            if prom.accepts d.desc values
            then some (record {
              desc = d.desc;
              value_type = d.value_type;
              value = scaled d v;
              label_values = values;
            })
            else none)
      ]
