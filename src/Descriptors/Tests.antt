-- ===== src/Descriptors/Tests.antt =====
-- A metric with two labels, from a row whose columns come in another order.
use pgscv.Base.{
  ◌≡◌, refl, String, ◌<>◌, true, none, some, List, [], ◌∷◌, ◌++◌, string_eq, nat_eq, if◌then◌else◌,
}
use pgscv.Base.Dict
use pgscv.Base.Dict.{Dict}
use pgscv.Base.Samples.{exact_regexps, whole_floats}
use pgscv.Model.{NullString, UserMetric, MetricsSubsystem}
use pgscv.Settings.Validate.{Checks}
use pgscv.Descriptors.{Prometheus, TypedDesc, counter_value, new_const_metric}
use pgscv.Descriptors.Made.{is_made, metric_of, new_const_metric_lem}
use pgscv.Descriptors.Single.{Cells}
use pgscv.Descriptors.Single.Laws.{row_labels}
use pgscv.Descriptors.Multiple.{parse_labeled_value}
use pgscv.Descriptors.Sets.{TypedDescSet, new_desc_sets}
use pgscv.Descriptors.Sets.Valid.{described_sets, new_desc_sets-check_subsystems}
use pgscv.Descriptors.Databases.{Server, update_all_desc_sets}
use pgscv.Descriptors.Databases.Coverage.{
  collect_all, visits_to_all, visits_home, update_all_desc_sets_lem,
}

abbrev client : Prometheus
client = record { build_fq_name = λ a b c. a <> "_" <> b <> "_" <> c; accepts = λ d values. true }

abbrev by_user_and_database : TypedDesc exact_regexps whole_floats
by_user_and_database = record {
  desc = record {
    fq_name = "total";
    help = "All.";
    variable_labels = "user" ∷ "database" ∷ [];
    const_labels = [];
  };
  value_type = counter_value;
  factor = 2;
  value = "total";
  labeled_values = none;
  label_names = some ("user" ∷ "database" ∷ []);
  filters =
      ("user", record { exclude = "eve"; exclude_re = some "eve"; include = ""; include_re = none })
      ∷ [];
}

abbrev text : String → NullString
text s = record { text = s; valid = true }

-- The database comes first, and its name becomes the user.
abbrev row : Cells
row = ("database", text "shop") ∷ ("user", text "ann") ∷ ("total", text "42") ∷ []

labels_in_column_order : row_labels by_user_and_database row "" ≡ "shop" ∷ "ann" ∷ []
unfolding string_eq Dict.lookup
labels_in_column_order = refl

new_const_metric_lem_example :
    new_const_metric client by_user_and_database 42 ("eve" ∷ "shop" ∷ [])
    ≡ some (
        if is_made client by_user_and_database ("eve" ∷ "shop" ∷ [])
        then some (metric_of client by_user_and_database 42 ("eve" ∷ "shop" ∷ []))
        else none)
new_const_metric_lem_example =
    new_const_metric_lem client by_user_and_database 42 ("eve" ∷ "shop" ∷ [])

labeled_lem : parse_labeled_value "seconds/total" ≡ ("seconds", "total")
unfolding parse_labeled_value string_eq
labeled_lem = refl

abbrev checks : Checks exact_regexps
checks = record {
  collector_name = "postgres/custom";
  subsystem_name = "sub";
  metric_name = "total";
  valid_conninfo = λ s. true;
}

abbrev total_metric : UserMetric
total_metric = record {
  short_name = "total";
  usage = "COUNTER";
  labels = "user" ∷ [];
  value = "total";
  labeled_values = none;
  description = "All.";
}

abbrev subsystems : Dict String MetricsSubsystem
subsystems =
    ("sub", record { databases = "shop"; query = "select"; metrics = total_metric ∷ [] }) ∷ []

new_desc_sets-check_subsystems_example :
    new_desc_sets client "postgres" subsystems []
    ≡ described_sets checks client "postgres" subsystems []
unfolding pgscv.Settings.Validate.check_subsystems string_eq
new_desc_sets-check_subsystems_example =
    new_desc_sets-check_subsystems checks client "postgres" subsystems [] refl

abbrev server : Server
server = record {
  connects = true;
  databases = some ("shop" ∷ "blog" ∷ []);
  parses = true;
  connects_to = λ database. true;
  query = λ database query.
      some (record { colnames = "user" ∷ "total" ∷ []; rows = (text "ann" ∷ text "42" ∷ []) ∷ [] });
}

abbrev sets : List (TypedDescSet exact_regexps whole_floats)
sets = described_sets checks client "postgres" subsystems []

update_all_desc_sets_lem_example :
    update_all_desc_sets client server sets
    ≡ collect_all client server
        (visits_to_all client server ("shop" ∷ "blog" ∷ []) sets ++ visits_home client server sets)
update_all_desc_sets_lem_example =
    update_all_desc_sets_lem client server ("shop" ∷ "blog" ∷ []) sets refl refl refl refl
