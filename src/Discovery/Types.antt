-- ===== src/Discovery/Types.antt =====
-- The data that the parts of the discovery exchange.
pub mod LastLabel
use pgscv.Base.{ℕ, ◌%◌, String, Option, List, [], ◌∷◌, string_eq}
use pgscv.Base.Dict
use pgscv.Base.Dict.{Dict}

pub record Label : Type 0 where
  pub name : String
  pub value : String

-- `discovery.Service`
pub record Service : Type 0 where
  pub dsn : String
  pub const_labels : Dict String String
  pub target_labels : Dict String String

-- `clusterDSN`
pub record ClusterDsn : Type 0 where
  pub dsn : String
  pub name : String
  pub labels : List Label

abbrev pub zero_dsn : ClusterDsn
zero_dsn = record { dsn = ""; name = ""; labels = [] }

-- A loop `for _, item := range labels { m[item.Name] = item.Value }` over a new map. The last of two
-- equal names wins.
unfoldable pub set_labels : List Label → Dict String String → Dict String String
set_labels [] m = m
set_labels (item ∷ labels) m = set_labels labels (Dict.insert item.name item.value m)

-- `version`, a uint64
abbrev pub u64 : ℕ → ℕ
u64 n = n % 18446744073709551616

-- `yandexEngine`, without the SDK handle. `dsn` is keyed by `hostDb`.
pub record Engine : Type 0 where
  pub user : String
  pub password : String
  pub target_labels : Option (List Label)
  pub dsn : Dict String ClusterDsn
  pub version : ℕ
