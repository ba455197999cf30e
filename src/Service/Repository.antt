-- ===== src/Service/Repository.antt =====
-- The repository of services (`Repository` of internal/service/service.go). Each method holds the lock
-- while it works, so a method is one step. `C` is the type of a service's collector, and a registry is
-- written by the collector that it gathers from.
pub mod Laws
use pgscv.Base.{
  ℕ, String, Bool, Option, none, some, List, [], ◌∷◌, string_eq, contains, if◌then◌else◌, length,
}
use pgscv.Base.Dict
use pgscv.Base.Dict.{Dict}
use pgscv.Service.Env.{ConnSetting}

-- `Service`
pub record Service (C : Type 0) : Type 0 where
  pub service_id : String
  pub conn_settings : ConnSetting
  pub collector : Option C
  pub const_labels : Option (Dict String String)
  pub target_labels : Option (Dict String String)

-- The default registerer of Prometheus: `MustRegister`, which panics (`none`), and `Unregister`.
pub record Registerer (C : Type 0) : Type 1 where
  pub State : Type 0
  pub must_register : C → State → Option State
  pub unregister : C → State → State

pub record Repository (C : Type 0) : Type 0 where
  pub services : Dict String (Service C)
  pub registries : Dict String C

abbrev pub empty_setting : ConnSetting
empty_setting = record { service_type = ""; conninfo = ""; base_url = ""; target_labels = none }

-- The zero value, which reading a missing key gives.
abbrev pub zero_service : {C : Type 0} → Service C
zero_service = record {
  service_id = "";
  conn_settings = empty_setting;
  collector = none;
  const_labels = none;
  target_labels = none;
}

-- `NewRepository`
unfoldable pub new_repository : {C : Type 0} → Repository C
new_repository = record { services = []; registries = [] }

module _ {C : Type 0} where
  abbrev pub or_zero_service : Option (Service C) → Service C
  or_zero_service none = zero_service
  or_zero_service (some s) = s

  unfoldable pub add_service : Service C → Repository C → Repository C
  add_service s repo = record repo { services = Dict.insert s.service_id s repo.services }

  unfoldable pub add_registry : String → C → Repository C → Repository C
  add_registry id r repo = record repo { registries = Dict.insert id r repo.registries }

  unfoldable pub get_registry : String → Repository C → Option C
  get_registry id repo = Dict.lookup id repo.registries

  unfoldable pub get_service : String → Repository C → Service C
  get_service id repo = or_zero_service (Dict.lookup id repo.services)

  unfoldable pub total_services : Repository C → ℕ
  total_services repo = length repo.services

  unfoldable pub get_service_ids : Repository C → List String
  get_service_ids repo = Dict.keys repo.services

  unfoldable pub service_exists : String → Repository C → Bool
  unfolding get_service_ids
  service_exists id repo = contains (get_service_ids repo) id

  -- `RemoveService`
  unfoldable pub remove_service :
      (P : Registerer C) → String → Repository C → P.State → Repository C × P.State
  remove_service P id repo p = elim (Dict.lookup id repo.services) [
    | none ↦ (repo, p)
    | some s ↦ (
      record repo { services = Dict.erase id repo.services },
      elim s.collector [ none ↦ p | some c ↦ P.unregister c p ],
    )
  ]

  -- `FlushServiceConfig`: a call through a nil collector panics (`none`).
  unfoldable pub flush_all : (C → C) → Dict String (Service C) → Option (Dict String (Service C))
  flush_all flush [] = some []
  flush_all flush ((id, s) ∷ services) =
      let rest = flush_all flush services in
      elim s.collector [
        | none ↦ none
        | some c ↦ elim rest [
          | none ↦ none
          | some later ↦ some ((id, record s { collector = some (flush c) }) ∷ later)
        ]
      ]

  unfoldable pub flush_service_config : (C → C) → Repository C → Option (Repository C)
  unfolding flush_all
  flush_service_config flush repo = elim (flush_all flush repo.services) [
    | none ↦ none
    | some services ↦ some (record repo { services = services })
  ]
