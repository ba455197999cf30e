-- ===== src/Handlers/Targets/Groups.antt =====
-- Which group lists which services.
use pgscv.Base.{
  ◌≡◌, refl, ◌∙◌, String, Option, none, some, List, [], ◌∷◌, ◌++◌, arith, ◌==◌, string_eq,
  if◌then◌else◌,
}
use mathlib.Core.List.{append-nil, append_assoc}
use pgscv.Base.Dict
use pgscv.Base.Dict.{Dict}
use pgscv.Service.Repository.{Service}
use pgscv.Handlers.Targets.{
  Target, target_url, labels_key, empty_target, target_or, with_url, add_target, group_targets,
}

module _ {C : Type 0} (show : Dict String String → String) (url : String) where
  -- One group, followed through the services: a service with its key is added at the end, and the first one
  -- gives the labels.
  abbrev pub followed : String → Dict String (Service C) → Option Target → Option Target
  followed key [] group = group
  followed key ((_, s) ∷ services) group = followed key services (
      if key == labels_key show s
      then some (with_url (target_url url s.service_id) (target_or group (empty_target s)))
      else group)

  lookup-add_target :
      (key : String) (s : Service C) (groups : Dict String Target)
      → Dict.lookup key (add_target show url s groups) ≡ (
          if key == labels_key show s
          then some (
              with_url
                (target_url url s.service_id)
                (target_or (Dict.lookup key groups) (empty_target s)))
          else Dict.lookup key groups)
  unfolding add_target
  lookup-add_target key s groups = ground (
    arith,
    Dict.lookup-insert key (labels_key show s)
        (with_url (target_url url s.service_id)
          (target_or (Dict.lookup (labels_key show s) groups) (empty_target s)))
        groups,
  )

  lookup-group_targets :
      (key : String) (services : Dict String (Service C)) (groups : Dict String Target)
      → Dict.lookup key (group_targets show url services groups)
        ≡ followed key services (Dict.lookup key groups)
  unfolding group_targets
  lookup-group_targets key [] groups = refl
  lookup-group_targets key ((_, s) ∷ services) groups =
      lookup-group_targets key services (add_target show url s groups)
      ∙ rw (lookup-add_target key s groups)

  -- The addresses of the services with a key, in the order of the services.
  abbrev pub urls : String → Dict String (Service C) → List String
  urls key [] = []
  urls key ((_, s) ∷ services) =
      let rest = urls key services in
      if key == labels_key show s then target_url url s.service_id ∷ rest else rest

  -- The labels of the first service with a key.
  abbrev pub first_labels : String → Dict String (Service C) → Option (Dict String String)
  first_labels key [] = none
  first_labels key ((_, s) ∷ services) =
      let rest = first_labels key services in
      if key == labels_key show s then s.target_labels else rest

  abbrev pub expected : String → Dict String (Service C) → Option Target
  expected key services = elim (urls key services) [
    | [] ↦ none
    | u ∷ us ↦ some (record { targets = u ∷ us; labels = first_labels key services })
  ]

  followed-some :
      (key : String) (services : Dict String (Service C)) (t : Target)
      → followed key services (some t)
        ≡ some (record t { targets = t.targets ++ urls key services })
  followed-some key [] t = rw (append-nil t.targets)
  followed-some key ((_, s) ∷ services) t = ground (
    arith,
    followed-some key services t,
    followed-some key services (with_url (target_url url s.service_id) t),
    append_assoc t.targets (target_url url s.service_id ∷ []) (urls key services),
  )

  followed-none :
      (key : String) (services : Dict String (Service C))
      → followed key services none ≡ expected key services
  followed-none key [] = refl
  followed-none key ((_, s) ∷ services) = ground (
    arith,
    followed-none key services,
    followed-some key services (with_url (target_url url s.service_id) (empty_target s)),
  )

  -- There is a group for a key exactly when some service has labels with this key, and it lists the addresses
  -- of all the services that do, each once and in their order, under the labels of the first of them.
  pub lookup-targets :
      (key : String) (services : Dict String (Service C))
      → Dict.lookup key (group_targets show url services []) ≡ expected key services
  unfolding Dict.lookup
  lookup-targets key services = lookup-group_targets key services [] ∙ followed-none key services
