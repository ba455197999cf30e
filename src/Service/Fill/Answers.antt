-- ===== src/Service/Fill/Answers.antt =====
-- Which services of the settings are taken, by what the network says.
use pgscv.Base.{
  is_some, refl, Option, List, [], ◌∷◌, ◌==◌, if◌then◌else◌, ◌≡◌, ◌≢◌, ◌↔◌, ◌⊎◌, String, ◌<>◌, true,
  none, some, arith, string_eq, nat_eq,
}
use pgscv.Base.Dict
use pgscv.Base.Dict.{Dict, NodupKeys}
use pgscv.Base.Text.{has_prefix}
use pgscv.Service.Env.{ConnSetting, type_patroni}
use pgscv.Service.Repository.{Service, Repository}
use pgscv.Discovery.Types.{Label, set_labels}
use pgscv.Discovery.Types.LastLabel.{last_value, lookup-set_labels}
use pgscv.Service.Fill.{
  Network, Config, attempt_request, labels_of, target_labels_of, reachable, service_from,
  add_services_from_config,
}
use pgscv.Service.Fill.Laws.{lookup-add_services_from_config}

module _ (net : Network) (config : Config) where
  -- The health check of a Patroni answers with a status that is accepted.
  abbrev pub Healthy : String → Type 0
  Healthy url =
      (net.get (has_prefix url "https://") url ≡ some 200)
      ⊎ (net.get (has_prefix url "https://") url ≡ some 503)

  -- A service of the settings that is worth watching: a Patroni that is healthy, or another service whose
  -- connection string parses and that can be connected to. Errors of either kind but a string that does
  -- not parse may be skipped.
  abbrev pub Answers : ConnSetting → Type 0
  Answers cs =
      ((cs.service_type ≡ type_patroni)
        × (Healthy (cs.base_url <> "/health") ⊎ (config.skip_conn_error_mode ≡ true)))
      ⊎ ((cs.service_type ≢ type_patroni)
          × (net.parses cs.conninfo ≡ true)
          × ((net.connects cs.conninfo ≡ true) ⊎ (config.skip_conn_error_mode ≡ true)))

  attempt_request_iff :
      (base : String) → (attempt_request net base ≡ true) ↔ Healthy (base <> "/health")
  unfolding attempt_request
  attempt_request_iff base = ground arith

  reachable_iff : (cs : ConnSetting) → (reachable net config cs ≡ true) ↔ Answers cs
  unfolding reachable
  reachable_iff cs = ground (arith, attempt_request_iff cs.base_url)

-- The labels that a map gives an id, where there is a map and it has some for the id.
abbrev pub named_labels :
    String → Option (Dict String (Option (Dict String String))) → Option (Dict String String)
named_labels k none = none
named_labels k (some []) = none
named_labels k (some ((j, labels) ∷ m)) = if k == j then labels else named_labels k (some m)

-- The labels of a target: the list of its own setting, where the last label of a name counts, or else
-- what the map of the configuration has.
abbrev pub HasTargetLabels :
    String → Config → Option (List Label) → Option (Dict String String) → Type 0
HasTargetLabels k config none given = given ≡ named_labels k config.target_labels
HasTargetLabels k config (some items) given =
    (m : Dict String String) × (given ≡ some m)
    × ((name : String) → Dict.lookup name m ≡ last_value name items)

-- A service as the settings have it, without a collector.
abbrev pub IsFrom : {C : Type 0} → Config → String → ConnSetting → Service C → Type 0
IsFrom config k cs s =
    (s.service_id ≡ k)
    × (s.conn_settings ≡ cs)
    × (s.collector ≡ none)
    × (s.const_labels ≡ named_labels k config.const_labels)
    × HasTargetLabels k config cs.target_labels s.target_labels

labels_of_lem :
    (k : String) (o : Option (Dict String (Option (Dict String String))))
    → labels_of k o ≡ named_labels k o
unfolding Dict.lookup
labels_of_lem k none = refl
labels_of_lem k (some []) = refl
labels_of_lem k (some ((j, labels) ∷ m)) = ground (arith, labels_of_lem k (some m))

target_labels_of-HasTargetLabels :
    (config : Config) (k : String) (cs : ConnSetting) (o : Option (List Label))
    → cs.target_labels ≡ o
    → HasTargetLabels k config o (target_labels_of config k cs)
unfolding target_labels_of
target_labels_of-HasTargetLabels config k cs none e =
    ground (arith, labels_of_lem k config.target_labels)
target_labels_of-HasTargetLabels config k cs (some items) e =
    (set_labels items [], ground arith, λ name. lookup-set_labels name items)

service_from-IsFrom :
    {C : Type 0} (config : Config) (k : String) (cs : ConnSetting)
    → IsFrom {C = C} config k cs (service_from config k cs)
unfolding service_from
service_from-IsFrom config k cs = (
  refl,
  refl,
  refl,
  labels_of_lem k config.const_labels,
  target_labels_of-HasTargetLabels config k cs cs.target_labels refl,
)

module _ {C : Type 0} (net : Network) (config : Config) where
  -- Filling the repository from settings with distinct keys, a service of them that is not called system:0
  -- and that the repository does not have yet is added exactly when it answers: a Patroni with the status
  -- 200 or 503, or connection errors being skipped; any other with a connection string that parses and a
  -- connection, or connection errors being skipped. What is then under its key has the name and the labels
  -- that the settings give.
  pub lookup-add_services_from_config_new :
      (settings : Dict String ConnSetting) (repo : Repository C) (k : String) (cs : ConnSetting)
      → config.conns_settings ≡ some settings
      → NodupKeys settings
      → k ≢ "system:0"
      → Dict.lookup k repo.services ≡ none
      → Dict.lookup k settings ≡ some cs
      → let filled = (add_services_from_config net config repo).services in
        ((is_some (Dict.lookup k filled) ≡ true) ↔ Answers net config cs)
        × ((s : Service C) → Dict.lookup k filled ≡ some s → IsFrom config k cs s)
  lookup-add_services_from_config_new settings repo k cs given u other new found =
      let filling = (lookup-add_services_from_config net config settings repo k given u).0 in
      (
        ground (arith, filling, reachable_iff net config cs),
        λ s there.
            let own : service_from config k cs ≡ s = ground (arith, filling) in
            rw (← own) (service_from-IsFrom config k cs),
      )
