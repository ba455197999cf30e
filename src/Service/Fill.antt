-- ===== src/Service/Fill.antt =====
-- `addServicesFromConfig` (internal/service/service.go): the settings of the configuration become
-- services. Its goroutines each work on one key and add it under the lock, in an order that is left
-- open: the order of the list of settings stands for it.
pub mod Laws
pub mod Answers
use pgscv.Base.{
  ℕ, String, ◌<>◌, Bool, ◌||◌, nat_eq, true, false, Option, none, some, List, [], ◌∷◌, string_eq,
  ◌==◌, if◌then◌else◌,
}
use pgscv.Base.Text.{has_prefix}
use pgscv.Base.Dict
use pgscv.Base.Dict.{Dict}
use pgscv.Discovery.Types.{Label, set_labels}
use pgscv.Service.Env.{ConnSetting, type_system, type_patroni}
use pgscv.Service.Repository.{Service, Repository, add_service, service_exists, empty_setting}

-- What the goroutines ask of the network: the status of a GET, sent with or without checking the
-- certificate, and whether a connection string parses and a connection can be made.
pub record Network : Type 0 where
  pub get : Bool → String → Option ℕ
  pub parses : String → Bool
  pub connects : String → Bool

-- `attemptRequest`: true where it gives no error.
unfoldable pub attempt_request : Network → String → Bool
unfolding has_prefix
attempt_request net baseurl =
    let url = baseurl <> "/health" in
    elim (net.get (has_prefix url "https://") url) [
      | none ↦ false
      | some status ↦ status == 200 || status == 503
    ]

-- The part of `Config` that is read here. The maps of labels hold pointers, which may be nil.
pub record Config : Type 0 where
  pub conns_settings : Option (Dict String ConnSetting)
  pub skip_conn_error_mode : Bool
  pub const_labels : Option (Dict String (Option (Dict String String)))
  pub target_labels : Option (Dict String (Option (Dict String String)))

-- `m != nil && (*m)[k] != nil`, and then `(*m)[k]`
abbrev pub labels_of :
    String → Option (Dict String (Option (Dict String String))) → Option (Dict String String)
labels_of k none = none
labels_of k (some m) = elim (Dict.lookup k m) [ none ↦ none | some l ↦ l ]

-- The service is to be added: it can be reached, or connection errors are skipped.
unfoldable pub reachable : Network → Config → ConnSetting → Bool
reachable net config cs =
    if cs.service_type == type_patroni
    then (if attempt_request net cs.base_url then true else config.skip_conn_error_mode)
    else if net.parses cs.conninfo
    then (if net.connects cs.conninfo then true else config.skip_conn_error_mode)
    else false

unfoldable pub target_labels_of : Config → String → ConnSetting → Option (Dict String String)
unfolding set_labels
target_labels_of config k cs = elim cs.target_labels [
  | none ↦ labels_of k config.target_labels
  | some items ↦ some (set_labels items [])
]

module _ {C : Type 0} where
  unfoldable pub service_from : Config → String → ConnSetting → Service C
  unfolding target_labels_of
  service_from config k cs = record {
    service_id = k;
    conn_settings = cs;
    collector = none;
    const_labels = labels_of k config.const_labels;
    target_labels = target_labels_of config k cs;
  }

  unfoldable pub add_reachable :
      Network → Config → Dict String ConnSetting → Repository C → Repository C
  unfolding reachable service_from add_service
  add_reachable net config [] repo = repo
  add_reachable net config ((k, cs) ∷ settings) repo =
      add_reachable net config settings
        (if reachable net config cs then add_service (service_from config k cs) repo else repo)

  abbrev pub system_service : Service C
  system_service = record {
    service_id = "system:0";
    conn_settings = record empty_setting { service_type = type_system };
    collector = none;
    const_labels = none;
    target_labels = none;
  }

  unfoldable pub add_system : Repository C → Repository C
  unfolding add_service service_exists
  add_system repo = if service_exists "system:0" repo then repo else add_service system_service repo

  unfoldable pub add_services_from_config : Network → Config → Repository C → Repository C
  add_services_from_config net config repo = elim config.conns_settings [
    | none ↦ add_system repo
    | some settings ↦ add_reachable net config settings (add_system repo)
  ]
