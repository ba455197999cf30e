-- ===== src/Descriptors/Made.antt =====
-- Which metrics are made.
use pgscv.Base.{
  ◌≡◌, String, Bool, true, not, ◌&&◌, none, some, List, [], ◌∷◌, arith, ◌==◌, string_eq, nat_eq,
  if◌then◌else◌, length,
}
use pgscv.Base.External.{Regexps, Floats}
use pgscv.Filter.{Filters, pass}
use pgscv.Descriptors.{
  Prometheus, TypedDesc, Metric, names, filter_at, has_filter, new_const_metric,
}

module _ ⦃R : Regexps⦄ where
  -- Each label value passes the filter of its label.
  abbrev pub all_pass : Filters R → List String → List String → Bool
  all_pass filters (key ∷ keys) (v ∷ values) =
      pass (filter_at key filters) v && all_pass filters keys values
  all_pass filters _ _ = true

  has_filter-all_pass :
      (filters : Filters R) (keys values : List String)
      → length keys ≡ length values
      → has_filter filters keys values ≡ some (not (all_pass filters keys values))
  unfolding has_filter
  has_filter-all_pass filters [] values h = ground arith
  has_filter-all_pass filters (key ∷ keys) [] h = ground arith
  has_filter-all_pass filters (key ∷ keys) (v ∷ values) h =
      ground (arith, has_filter-all_pass filters keys values)

module _ ⦃R : Regexps⦄ ⦃F : Floats⦄ (prom : Prometheus) where
  -- The label values are one for each label, pass the filters and are taken by the client library.
  abbrev pub is_made : TypedDesc R F → List String → Bool
  is_made d values =
      length (names d.label_names) == length values
      && all_pass d.filters (names d.label_names) values
      && prom.accepts d.desc values

  abbrev pub metric_of : TypedDesc R F → F.Float → List String → Metric F
  metric_of d v values = record {
    desc = d.desc;
    value_type = d.value_type;
    value = if F.is_zero d.factor then v else F.mul v d.factor;
    label_values = values;
  }

  -- Making a metric never panics. There is a metric exactly when there is one value for each label, every
  -- value passes the filter of its label, and the client library takes them; its value is scaled by the
  -- factor unless that is zero.
  pub new_const_metric_lem :
      (d : TypedDesc R F) (v : F.Float) (values : List String)
      → new_const_metric prom d v values
        ≡ some (if is_made d values then some (metric_of d v values) else none)
  unfolding new_const_metric
  new_const_metric_lem d v values =
      ground (arith, has_filter-all_pass d.filters (names d.label_names) values)
