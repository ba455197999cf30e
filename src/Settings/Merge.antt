-- ===== src/Settings/Merge.antt =====
-- The settings of the file and those of the environment put together (`NewConfig`).
use pgscv.Base.{
  ◌≡◌, refl, String, Bool, true, false, not, ◌&&◌, Option, none, some, List, [], ◌∷◌, ◌++◌, arith,
  ◌==◌, string_eq, if◌then◌else◌, Option-cases, inl, inr,
}
use mathlib.Core.Option.{or_else}
use pgscv.Base.Dict
use pgscv.Base.Dict.{Dict}
use pgscv.Base.Int.{ℤ, pos, ltb_ℤ}
use pgscv.Base.External.{Regexps}
use pgscv.Settings.{Config}
use pgscv.Settings.Auth.{AuthConfig, no_auth}

-- The entries of a map, of which nil has none.
abbrev pub entries {ℓ} : {V : Type ℓ} → Option (Dict String V) → Dict String V
entries none = []
entries (some m) = m

-- `mergeCollectorsSettings` and `mergeServicesConnsSettings`, which differ in the type of the values.
unfoldable pub merge_settings {ℓ} :
    {V : Type ℓ} → Option (Dict String V) → Option (Dict String V) → Option (Dict String V)
merge_settings none src = src
merge_settings (some dest) src = some (Dict.copy dest (entries src))

abbrev is_empty {ℓ} : {A : Type ℓ} → List A → Bool
is_empty [] = true
is_empty (_ ∷ _) = false

-- `maps.Copy` on a destination that may be nil: writing to it panics (`none`).
unfoldable pub copy_into :
    Option (Dict String String) → Dict String String → Option (Option (Dict String String))
copy_into (some dest) src = some (some (Dict.copy dest src))
copy_into none [] = some none
copy_into none (_ ∷ _) = none

abbrev pub given : String → String → String
given new old = if not (new == "") then new else old

abbrev pub positive : ℤ → ℤ → ℤ
positive new old = if ltb_ℤ (pos 0) new then new else old

abbrev pub pointed {ℓ} : {A : Type ℓ} → Option A → Option A → Option A
pointed none old = old
pointed (some new) old = some new

abbrev same_bool : Bool → Bool → Bool
same_bool a b = if a then b else not b

abbrev pub same_auth : AuthConfig → AuthConfig → Bool
same_auth a b =
    same_bool a.enable_auth b.enable_auth
    && a.username == b.username
    && a.password == b.password
    && same_bool a.enable_tls b.enable_tls
    && a.keyfile == b.keyfile
    && a.certfile == b.certfile

module _ {R : Regexps} where
  -- The block of `NewConfig` for a file that was read. `none` is the panic of a copy into a nil map.
  unfoldable pub merge : Config R → Config R → Option (Config R)
  merge file env = elim (copy_into file.defaults (entries env.defaults)) [
    | none ↦ none
    | some defaults ↦ some (record file {
      no_track_mode = if env.no_track_mode then env.no_track_mode else file.no_track_mode;
      listen_address = given env.listen_address file.listen_address;
      services_conns_settings =
          if not (is_empty (entries env.services_conns_settings))
          then merge_settings file.services_conns_settings env.services_conns_settings
          else file.services_conns_settings;
      defaults = defaults;
      disable_collectors = file.disable_collectors ++ env.disable_collectors;
      collectors_settings = merge_settings file.collectors_settings env.collectors_settings;
      databases =
          if not (env.databases == "")
          then (if file.databases == "" then env.databases else file.databases)
          else file.databases;
      auth_config =
          if not (same_auth env.auth_config no_auth) then env.auth_config else file.auth_config;
      collect_top_table = positive env.collect_top_table file.collect_top_table;
      collect_top_index = positive env.collect_top_index file.collect_top_index;
      collect_top_query = positive env.collect_top_query file.collect_top_query;
      skip_conn_error_mode =
          if env.skip_conn_error_mode then env.skip_conn_error_mode else file.skip_conn_error_mode;
      conn_timeout = positive env.conn_timeout file.conn_timeout;
      url_prefix = given env.url_prefix file.url_prefix;
      throttling_interval = pointed env.throttling_interval file.throttling_interval;
      concurrency_limit = pointed env.concurrency_limit file.concurrency_limit;
      refresh_service_config_interval =
          positive env.refresh_service_config_interval file.refresh_service_config_interval;
    })
  ]

or_else_nothing {ℓ} : {A : Type ℓ} (o : Option A) → o ≡ or_else o none
unfolding or_else
or_else_nothing none = refl
or_else_nothing (some a) = refl

lookup-merge_settings {ℓ} :
    {V : Type ℓ} (k : String) (dest src : Option (Dict String V))
    → Dict.lookup k (entries (merge_settings dest src))
      ≡ or_else (Dict.lookup k (entries src)) (Dict.lookup k (entries dest))
unfolding merge_settings Dict.lookup or_else
lookup-merge_settings k none none = refl
lookup-merge_settings k none (some s) = or_else_nothing (Dict.lookup k s)
lookup-merge_settings k (some d) src = Dict.lookup-copy k d (entries src)

-- The maps of the environment are copied over those of the file, except where there is nothing to copy.
services_lem {ℓ} :
    {V : Type ℓ} (k : String) (dest src : Option (Dict String V))
    → Dict.lookup k
        (entries (if not (is_empty (entries src)) then merge_settings dest src else dest))
      ≡ or_else (Dict.lookup k (entries src)) (Dict.lookup k (entries dest))
unfolding Dict.lookup or_else
services_lem k dest none = refl
services_lem k dest (some []) = refl
services_lem k dest (some (x ∷ m)) = lookup-merge_settings k dest (some (x ∷ m))

copy_into_cases :
    (k : String) (dest : Option (Dict String String)) (src : Dict String String)
    (out : Option (Dict String String))
    → copy_into dest src ≡ some out
    → Dict.lookup k (entries out) ≡ or_else (Dict.lookup k src) (Dict.lookup k (entries dest))
unfolding copy_into Dict.lookup or_else
copy_into_cases k (some d) src out h = ground (arith, Dict.lookup-copy k d src)
copy_into_cases k none [] out h = ground arith
copy_into_cases k none (_ ∷ _) out h = ground arith

module _ {R : Regexps} where
  -- In the merged configuration a service, the settings of a collector and a default are what the
  -- environment has under the key, else what the file has. The filter of databases goes the other way:
  -- the environment's counts only where the file has none.
  pub lookup-merge :
      (file env c : Config R) (k : String)
      → merge file env ≡ some c
      → (Dict.lookup k (entries c.services_conns_settings)
          ≡ or_else
              (Dict.lookup k (entries env.services_conns_settings))
              (Dict.lookup k (entries file.services_conns_settings)))
        × (Dict.lookup k (entries c.collectors_settings)
            ≡ or_else
                (Dict.lookup k (entries env.collectors_settings))
                (Dict.lookup k (entries file.collectors_settings)))
        × (Dict.lookup k (entries c.defaults)
            ≡ or_else
                (Dict.lookup k (entries env.defaults))
                (Dict.lookup k (entries file.defaults)))
        × (c.databases ≡ given file.databases env.databases)
  unfolding merge
  lookup-merge file env c k h =
      elim (Option-cases (copy_into file.defaults (entries env.defaults))) [
        | inl panics ↦ ground arith
        | inr (out, done) ↦ ground (
          arith,
          copy_into_cases k file.defaults (entries env.defaults) out done,
          services_lem k file.services_conns_settings env.services_conns_settings,
          lookup-merge_settings k file.collectors_settings env.collectors_settings,
        )
      ]
