-- ===== src/Start.antt =====
-- The start of the program, and what it does when a discovery announces services (`Start` and
-- `subscribeYandex` of internal/pgscv/pgscv.go).
pub mod Registered
pub mod Rounds
pub mod First
mod Tests
use pgscv.Base.{
  ℕ, zero, String, Bool, true, false, ◌&&◌, Option, none, some, List, [], ◌∷◌, string_eq,
  if◌then◌else◌,
}
use pgscv.Base.Dict.{Dict}
use pgscv.Base.External.{Regexps}
use pgscv.Model.{CollectorsSettings}
use pgscv.Collector.Config.{ServiceConfig}
use pgscv.Collector.Create.{Makers}
use pgscv.Discovery.Types as Discovery
use pgscv.Discovery.Subscribers.{Subscriber, subscribe}
use pgscv.Service.Env.{ConnSetting, type_postgresql}
use pgscv.Service.Fill as Fill
use pgscv.Service.Fill.{Network, add_services_from_config}
use pgscv.Service.Repository.{Registerer, Repository, new_repository, remove_service}
use pgscv.Service.Setup as Setup
use pgscv.Service.Setup.{Collector, setup_services}
use pgscv.Settings.{Config}

abbrev pub subscriber_id : String
subscriber_id = "pgscv_subscriber"

abbrev or_no_settings : {R : Regexps} → Option (CollectorsSettings R) → CollectorsSettings R
or_no_settings none = []
or_no_settings (some m) = m

-- The maps of labels that `subscribeYandex` fills.
abbrev pub Labels : Type 0
Labels = Option (Dict String (Option (Dict String String)))

-- `service.Config`, in the two parts that the repository reads.
abbrev pub fill_config :
    {R : Regexps} → Config R → Option (Dict String ConnSetting) → Labels → Labels → Fill.Config
fill_config config settings const_labels target_labels = record {
  conns_settings = settings;
  skip_conn_error_mode = config.skip_conn_error_mode;
  const_labels = const_labels;
  target_labels = target_labels;
}

-- A discovered service gets no pattern of databases.
abbrev pub setup_config :
    {R : Regexps} → Config R → Option R.Regexp → Labels → Labels → Setup.Config R
setup_config config databases_re const_labels target_labels = record {
  no_track_mode = config.no_track_mode;
  databases_re = databases_re;
  disabled_collectors = config.disable_collectors;
  collectors_settings = or_no_settings config.collectors_settings;
  collect_top_table = config.collect_top_table;
  collect_top_index = config.collect_top_index;
  collect_top_query = config.collect_top_query;
  const_labels = const_labels;
  target_labels = target_labels;
  conn_timeout = config.conn_timeout;
  concurrency_limit = config.concurrency_limit;
}

-- The loop over the announced services, whose keys are distinct.
unfoldable pub settings_of : Dict String Discovery.Service → Dict String ConnSetting
settings_of [] = []
settings_of ((id, svc) ∷ services) =
    (
      id,
      record {
        service_type = type_postgresql;
        conninfo = svc.dsn;
        base_url = "";
        target_labels = none;
      },
    )
    ∷ settings_of services

unfoldable pub const_labels_of :
    Dict String Discovery.Service → Dict String (Option (Dict String String))
const_labels_of [] = []
const_labels_of ((id, svc) ∷ services) = (id, some svc.const_labels) ∷ const_labels_of services

unfoldable pub target_labels_of :
    Dict String Discovery.Service → Dict String (Option (Dict String String))
target_labels_of [] = []
target_labels_of ((id, svc) ∷ services) = (id, some svc.target_labels) ∷ target_labels_of services

abbrev pub no_settings : Option (Dict String ConnSetting) → Bool
no_settings none = true
no_settings (some []) = true
no_settings (some (_ ∷ _)) = false

module _ {R : Regexps} (M : Makers R) (P : Registerer (Collector M)) (net : Network)
    (fill : String → ServiceConfig) (config : Config R) where
  -- The repository and the default registerer. A panic ends the program and leaves none of them.
  abbrev pub World : Type 0
  World = Option (Repository (Collector M) × P.State)

  abbrev pub or_panic : World → World × Option String
  or_panic none = (none, some "panic")
  or_panic (some w) = (some w, none)

  -- `AddServicesFromConfig` and `SetupServices`.
  unfoldable pub enter : Fill.Config → Setup.Config R → World → World × Option String
  unfolding add_services_from_config setup_services
  enter fill_with setup_with none = or_panic none
  enter fill_with setup_with (some (repo, p)) =
      or_panic (setup_services M P fill setup_with (add_services_from_config net fill_with repo) p)

  -- `addService`
  unfoldable pub add_discovered : Dict String Discovery.Service → World → World × Option String
  unfolding settings_of const_labels_of target_labels_of enter
  add_discovered services w =
      let const_labels : Labels = some (const_labels_of services) in
      let target_labels : Labels = some (target_labels_of services) in
      enter (fill_config config (some (settings_of services)) const_labels target_labels)
        (setup_config config none const_labels target_labels) w

  unfoldable pub remove_all :
      List String → Repository (Collector M) × P.State → Repository (Collector M) × P.State
  unfolding remove_service
  remove_all [] w = w
  remove_all (id ∷ ids) (repo, p) = remove_all ids (remove_service P id repo p)

  -- `removeService`
  unfoldable pub remove_discovered : List String → World → World × Option String
  unfolding remove_all
  remove_discovered ids none = or_panic none
  remove_discovered ids (some w) = (some (remove_all ids w), none)

  -- What is running: the world, and the subscribers of each discovery.
  pub record Running : Type 0 where
    pub world : World
    pub subscribers : List (Dict String (Subscriber World))
    pub error : Option String

  -- The loop over the discoveries, each by the engines that it has when it is subscribed to. The first
  -- error ends it.
  unfoldable pub subscribe_each : List (List Discovery.Engine) → World → Running
  unfolding subscribe add_discovered remove_discovered
  subscribe_each [] w = record { world = w; subscribers = []; error = none }
  subscribe_each (engines ∷ discoveries) w =
      let (subs, w', error) =
        subscribe engines subscriber_id add_discovered remove_discovered [] w in
      let rest = subscribe_each discoveries w' in
      elim error [
        | some e ↦ record { world = w'; subscribers = subs ∷ []; error = some e }
        | none ↦ record rest { subscribers = subs ∷ rest.subscribers }
      ]

  -- `Start`, up to the HTTP listener. `discoveries` is none where the settings have no discovery.
  unfoldable pub start : Option (List (List Discovery.Engine)) → P.State → Running
  unfolding new_repository enter subscribe_each
  start discoveries p =
      let nothing : Running = record {
        world = some (new_repository, p);
        subscribers = [];
        error = some "no services defined";
      } in
      let (w, error) =
        enter (fill_config config config.services_conns_settings none none)
          (setup_config config config.databases_re none none) (some (new_repository, p)) in
      elim discoveries [
        | none ↦
            if no_settings config.services_conns_settings
            then nothing
            else record { world = w; subscribers = []; error = error }
        | some ds ↦ elim error [
          | some e ↦ record { world = w; subscribers = []; error = some e }
          | none ↦ subscribe_each ds w
        ]
      ]
