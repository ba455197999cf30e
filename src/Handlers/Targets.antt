-- ===== src/Handlers/Targets.antt =====
-- The handler of `/targets` (`getTargetsHandler`): the services, grouped by their labels.
pub mod Groups
use pgscv.Base.{
  String, ◌<>◌, Bool, not, Option, none, some, List, [], ◌∷◌, ◌++◌, ◌==◌, string_eq, if◌then◌else◌,
  is_some,
}
use pgscv.Base.Dict
use pgscv.Base.Dict.{Dict}
use pgscv.Base.Text.{trim}
use pgscv.Service.Repository.{Service, Repository}

-- `target`. Labels that are nil are left out of what is sent.
pub record Target : Type 0 where
  pub targets : List String
  pub labels : Option (Dict String String)

-- The address that the handler puts before the path.
unfoldable pub base_url : String → Bool → String → String
unfolding trim
base_url url_prefix enable_tls host =
    if not (url_prefix == "")
    then trim 47 url_prefix
    else if enable_tls
    then "https://" <> host
    else host

unfoldable pub target_url : String → String → String
target_url url id = url <> "/metrics?target=" <> id

abbrev pub empty_target : {C : Type 0} → Service C → Target
empty_target s = record { targets = []; labels = s.target_labels }

abbrev pub target_or : Option Target → Target → Target
target_or none t = t
target_or (some old) t = old

abbrev pub with_url : String → Target → Target
with_url u t = record t { targets = t.targets ++ (u ∷ []) }

-- The key of a group. `show` is `fmt.Sprintf("%v", …)` on a map of labels.
unfoldable pub labels_key : {C : Type 0} → (Dict String String → String) → Service C → String
labels_key show s = elim s.target_labels [ none ↦ "no_labels" | some labels ↦ show labels ]

module _ {C : Type 0} (show : Dict String String → String) (url : String) where
  -- The body of the loop over the services.
  unfoldable pub add_target : Service C → Dict String Target → Dict String Target
  unfolding labels_key target_url
  add_target s groups =
      let key = labels_key show s in
      Dict.insert key
        (with_url (target_url url s.service_id)
          (target_or (Dict.lookup key groups) (empty_target s)))
        groups

  unfoldable pub group_targets : Dict String (Service C) → Dict String Target → Dict String Target
  unfolding add_target
  group_targets [] groups = groups
  group_targets ((_, s) ∷ services) groups = group_targets services (add_target s groups)

unfoldable pub values : Dict String Target → List Target
values [] = []
values ((_, t) ∷ groups) = t ∷ values groups

-- The function that `getTargetsHandler` returns, up to the JSON: the groups in the order of the map.
unfoldable pub handle_targets :
    {C : Type 0}
    → (Dict String String → String)
    → String
    → Bool
    → String
    → Repository C
    → List Target
unfolding base_url group_targets
handle_targets show url_prefix enable_tls host repo =
    values (group_targets show (base_url url_prefix enable_tls host) repo.services [])
