-- ===== src/Descriptors/Sets/Valid.antt =====
-- The checks of the configuration and the descriptors agree.
use pgscv.Base.{
  ◌≡◌, refl, String, false, not, ◌&&◌, none, some, List, [], ◌∷◌, arith, ◌==◌, string_eq,
  if◌then◌else◌, is_some,
}
use pgscv.Base.Dict.{Dict}
use pgscv.Base.Result.{ok}
use pgscv.Base.External.{Regexps, Floats}
use pgscv.Model.{UserMetric, MetricsSubsystem}
use pgscv.Settings.Validate.{Checks, check_metric, check_metrics, check_subsystem, check_subsystems}
use pgscv.Descriptors.{Prometheus, TypedDesc, ValueType, counter_value, gauge_value}
use pgscv.Descriptors.Sets.{
  TypedDescSet, value_type_of, desc_of, new_descs, new_desc_set, new_desc_sets,
}

-- The type that a usage asks for.
abbrev pub usage_type : String → ValueType
usage_type usage = if usage == "COUNTER" then counter_value else gauge_value

module _ ⦃R : Regexps⦄ ⦃F : Floats⦄ (checks : Checks R) (prom : Prometheus) where
  check_metric_ok :
      (m : UserMetric)
      → check_metric checks m ≡ ok tt
      → ((m.value == "" && not (is_some m.labeled_values)) ≡ false)
        × (value_type_of m.usage ≡ some (usage_type m.usage))
  unfolding check_metric
  check_metric_ok m h = ground arith

  module _ (namespace name : String) (subsystem : MetricsSubsystem)
      (const_labels : Dict String String) where
    -- The descriptors that a list of metrics should have, one for each.
    abbrev pub described : List UserMetric → List (TypedDesc R F)
    described [] = []
    described (m ∷ metrics) =
        desc_of prom namespace name subsystem const_labels (usage_type m.usage) m
        ∷ described metrics

    new_descs-described :
        (metrics : List UserMetric)
        → check_metrics checks metrics ≡ ok tt
        → new_descs prom namespace name subsystem const_labels metrics ≡ described metrics
    unfolding new_descs check_metrics
    new_descs-described [] h = refl
    new_descs-described (m ∷ metrics) h =
        ground (arith, check_metric_ok m, new_descs-described metrics)

    abbrev pub described_set : TypedDescSet R F
    described_set = record {
      namespace = namespace;
      subsystem = name;
      databases_re = if subsystem.databases == "" then none else R.compile subsystem.databases;
      query = subsystem.query;
      descs = described subsystem.metrics;
    }

    new_desc_set-described :
        check_subsystem checks name subsystem ≡ ok tt
        → new_desc_set prom namespace name subsystem const_labels ≡ ok described_set
    unfolding new_desc_set check_subsystem
    new_desc_set-described h = ground (arith, new_descs-described subsystem.metrics)

  abbrev pub described_sets :
      String → Dict String MetricsSubsystem → Dict String String → List (TypedDescSet R F)
  described_sets namespace [] const_labels = []
  described_sets namespace ((name, subsystem) ∷ subsystems) const_labels =
      described_set namespace name subsystem const_labels
      ∷ described_sets namespace subsystems const_labels

  -- Subsystems that the configuration's checks accept become sets without an error: one set for each
  -- subsystem, with its query and its pattern of databases compiled, and in it one descriptor for each of
  -- its metrics, in their order, none skipped, of the type that its usage names.
  pub new_desc_sets-check_subsystems :
      (namespace : String) (subsystems : Dict String MetricsSubsystem)
      (const_labels : Dict String String)
      → check_subsystems checks subsystems ≡ ok tt
      → new_desc_sets prom namespace subsystems const_labels
        ≡ described_sets namespace subsystems const_labels
  unfolding new_desc_sets check_subsystems
  new_desc_sets-check_subsystems namespace [] const_labels h = refl
  new_desc_sets-check_subsystems namespace ((name, subsystem) ∷ subsystems) const_labels h =
      ground (
        arith,
        new_desc_set-described namespace name subsystem const_labels,
        new_desc_sets-check_subsystems namespace subsystems const_labels,
      )
