-- ===== src/Collector/Create.antt =====
-- `NewPgscvCollector` (internal/collector/collector.go): the collectors that the factories name, made
-- with the labels of the service.
use mathlib.Core.Option.{or_else}
use pgscv.Base.{
  ◌≡◌, refl, String, Bool, true, false, ◌&&◌, Option, none, some, [], ◌∷◌, arith, string_eq,
  is_some, Option-cases, inl, inr,
}
use pgscv.Base.Dict
use pgscv.Base.Dict.{Dict, lookup-insert, lookup-copy}
use pgscv.Base.External.{Regexps}
use pgscv.Model.{CollectorSettings, zero_settings}
use pgscv.Collector.Factories.{Factories}
use pgscv.Collector.Config.{Config}

-- What the constructor calls besides: `pgx.ParseConfig`, with the host and the port that it finds, and
-- the constructors of the collectors, which may fail.
pub record Makers (R : Regexps) : Type 1 where
  pub Collector : Type 0
  pub parse_config : String → Option (String × String)
  pub make : String → Dict String String → CollectorSettings R → Option Collector

-- `PgscvCollector`. The anchor descriptor is written by what distinguishes it: the service and the labels.
pub record PgscvCollector {R : Regexps} (M : Makers R) : Type 0 where
  pub config : Config R
  pub collectors : Dict String M.Collector
  pub anchor : String × Dict String String

abbrev or_zero : {R : Regexps} → Option (CollectorSettings R) → CollectorSettings R
or_zero none = zero_settings
or_zero (some s) = s

abbrev copy_labels : Dict String String → Option (Dict String String) → Dict String String
copy_labels labels none = labels
copy_labels labels (some more) = Dict.copy labels more

-- The labels of every metric of the service; those of the configuration come over the others.
unfoldable pub const_labels :
    String → String → String → Option (Dict String String) → Dict String String
unfolding Dict.copy
const_labels service_id host port more =
    copy_labels (("service_id", service_id) ∷ ("host", host) ∷ ("port", port) ∷ []) more

module _ {R : Regexps} (M : Makers R) where
  abbrev pub settings_of : Config R → String → CollectorSettings R
  settings_of config key = or_zero (Dict.lookup key config.settings)

  -- `for key := range factories`
  unfoldable pub make_all :
      Config R → Dict String String → Factories → Option (Dict String M.Collector)
  make_all config labels [] = some []
  make_all config labels ((key, factory) ∷ factories) =
      let rest = make_all config labels factories in
      elim (M.make factory labels (settings_of config key)) [
        | none ↦ none
        | some c ↦ elim rest [ none ↦ none | some cs ↦ some (Dict.insert key c cs) ]
      ]

  unfoldable pub new_pgscv_collector : String → Factories → Config R → Option (PgscvCollector M)
  unfolding make_all
  new_pgscv_collector service_id factories config = elim (M.parse_config config.conn_string) [
    | none ↦ none
    | some (host, port) ↦
        let labels = const_labels service_id host port config.const_labels in
        elim (make_all config labels factories) [
          | none ↦ none
          | some cs ↦
              some (record { config = config; collectors = cs; anchor = (service_id, labels) })
        ]
  ]

  lookup-make_all :
      (config : Config R) (labels : Dict String String) (factories : Factories)
      (cs : Dict String M.Collector) (key : String)
      → make_all config labels factories ≡ some cs
      → Dict.lookup key cs ≡ (elim (Dict.lookup key factories) [
        | none ↦ none
        | some factory ↦ M.make factory labels (settings_of config key)
      ])
  unfolding make_all Dict.lookup
  lookup-make_all config labels [] cs key h = ground arith
  lookup-make_all config labels ((k, f) ∷ factories) cs key h =
      elim (Option-cases (make_all config labels factories)) [
        | inl e ↦ ground arith
        | inr (cs', e) ↦ elim (Option-cases (M.make f labels (settings_of config k))) [
          | inl e' ↦ ground arith
          | inr (c, e') ↦
              ground (
                arith,
                lookup-make_all config labels factories cs' key e,
                lookup-insert key k c cs',
              )
        ]
      ]

  -- A new collector has one collector for each factory and no other, each made by its own constructor
  -- with its own settings and the labels of the service.
  pub lookup-new_pgscv_collector :
      (service_id : String) (factories : Factories) (config : Config R) (n : PgscvCollector M)
      (host port key : String)
      → M.parse_config config.conn_string ≡ some (host, port)
      → new_pgscv_collector service_id factories config ≡ some n
      → Dict.lookup key n.collectors ≡ (elim (Dict.lookup key factories) [
        | none ↦ none
        | some factory ↦
            M.make factory
              (const_labels service_id host port config.const_labels)
              (settings_of config key)
      ])
  unfolding new_pgscv_collector
  lookup-new_pgscv_collector service_id factories config n host port key parsed made =
      let labels = const_labels service_id host port config.const_labels in
      elim (Option-cases (make_all config labels factories)) [
        | inl e ↦ ground arith
        | inr (cs, e) ↦ ground (arith, lookup-make_all config labels factories cs key e)
      ]

  -- The constructors that the factories name all succeed.
  abbrev pub all_made : Config R → Dict String String → Factories → Bool
  all_made config labels [] = true
  all_made config labels ((key, factory) ∷ factories) =
      is_some (M.make factory labels (settings_of config key)) && all_made config labels factories

  make_all_ok :
      (config : Config R) (labels : Dict String String) (factories : Factories)
      → is_some (make_all config labels factories) ≡ all_made config labels factories
  unfolding make_all
  make_all_ok config labels [] = refl
  make_all_ok config labels ((key, factory) ∷ factories) =
      ground (arith, make_all_ok config labels factories)

  -- The collector of a service cannot be made if its connection string does not parse or one of the
  -- constructors fails, and for no other reason.
  pub new_pgscv_collector_ok :
      (service_id : String) (factories : Factories) (config : Config R)
      → is_some (new_pgscv_collector service_id factories config)
        ≡ (elim (M.parse_config config.conn_string) [
          | none ↦ false
          | some (host, port) ↦
              all_made config (const_labels service_id host port config.const_labels) factories
        ])
  unfolding new_pgscv_collector
  new_pgscv_collector_ok service_id factories config =
      elim (Option-cases (M.parse_config config.conn_string)) [
        | inl e ↦ ground arith
        | inr ((host, port), e) ↦ ground (
          arith,
          make_all_ok config (const_labels service_id host port config.const_labels) factories,
        )
      ]

-- Each label of a service's metrics: the configured one, or else the id, the host and the port.
pub lookup-const_labels :
    (service_id host port name : String) (more : Dict String String)
    → Dict.lookup name (const_labels service_id host port (some more))
      ≡ or_else (Dict.lookup name more) (Dict.lookup name (const_labels service_id host port none))
unfolding const_labels
lookup-const_labels service_id host port name more = lookup-copy name _ more
