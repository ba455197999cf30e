-- ===== src/Model.antt =====
-- The settings and query results that the parts exchange (internal/model/model.go).
use pgscv.Base.{String, Bool, Option, List, []}
use pgscv.Base.Dict.{Dict}
use pgscv.Base.External.{Regexps}
use pgscv.Filter.{Filters}

-- `UserMetric`. `labeled_values` is nil where the metric has none.
pub record UserMetric : Type 0 where
  pub short_name : String
  pub usage : String
  pub labels : List String
  pub value : String
  pub labeled_values : Option (Dict String (List String))
  pub description : String

-- `MetricsSubsystem`
pub record MetricsSubsystem : Type 0 where
  pub databases : String
  pub query : String
  pub metrics : List UserMetric

-- `CollectorSettings`
pub record CollectorSettings (R : Regexps) : Type 0 where
  pub filters : Filters R
  pub subsystems : Dict String MetricsSubsystem

abbrev pub CollectorsSettings : Regexps → Type 0
CollectorsSettings R = Dict String (CollectorSettings R)

abbrev pub zero_settings : {R : Regexps} → CollectorSettings R
zero_settings = record { filters = []; subsystems = [] }

-- `sql.NullString`: a text, and whether it is not NULL.
pub record NullString : Type 0 where
  pub text : String
  pub valid : Bool

-- `PGResult`, with the names of the columns.
pub record PgResult : Type 0 where
  pub colnames : List String
  pub rows : List (List NullString)
