-- ===== src/Settings/Env.antt =====
-- The settings that environment variables make (`newConfigFromEnv`, `toBool`).
pub mod Laws
use pgscv.Base.{
  String, Bool, true, false, not, ◌&&◌, ◌||◌, Option, none, some, List, [], ◌∷◌, ◌==◌, string_eq,
  if◌then◌else◌, contains,
}
use pgscv.Base.Dict
use pgscv.Base.Text.{has_prefix, split_first, split_on, remove_all}
use pgscv.Base.Result.{Result, ok, err, ◌>>=◌}
use pgscv.Base.Int.{ℤ}
use pgscv.Base.External.{Regexps}
use pgscv.Service.Env.{
  ConnSetting, EnvError, parse_postgres_dsn_env, parse_pgbouncer_dsn_env, parse_patroni_url_env,
}
use pgscv.Settings.{Config, no_config}
use pgscv.Settings.Merge.{entries}

-- `strconv.Atoi` and `time.ParseDuration`, none where they give an error.
pub record Numbers : Type 0 where
  pub atoi : String → Option ℤ
  pub parse_duration : String → Option ℤ

-- The errors, and the panic of taking the second part of a variable that has no equals sign.
pub data Failure : Type 0 where
  bad_connection : EnvError → Failure
  invalid_setting : String → String → Failure
  no_value : String → Failure

-- `toBool`
unfoldable pub to_bool : String → Bool
to_bool s =
    if contains ("y" ∷ "yes" ∷ "Yes" ∷ "YES" ∷ "t" ∷ "true" ∷ "True" ∷ "TRUE" ∷ "1" ∷ "on" ∷ []) s
    then true
    else if contains
        ("n" ∷ "no" ∷ "No" ∷ "NO" ∷ "f" ∷ "false" ∷ "False" ∷ "FALSE" ∷ "0" ∷ "off" ∷ []) s
    then false
    else false

-- The program's own variables, by the prefixes of the whole entry.
unfoldable pub is_own : String → Bool
is_own entry =
    has_prefix entry "PGSCV_"
    || has_prefix entry "POSTGRES_DSN"
    || has_prefix entry "DATABASE_DSN"
    || has_prefix entry "PGBOUNCER_DSN"
    || has_prefix entry "PATRONI_URL"

module _ {R : Regexps} where
  -- `config.ServicesConnsSettings[id] = cs`
  abbrev pub with_service :
      Result EnvError (String × ConnSetting) → Config R → Result Failure (Config R)
  with_service (err e) c = err (bad_connection e)
  with_service (ok (id, cs)) c = ok (record c {
    services_conns_settings = some (Dict.insert id cs (entries c.services_conns_settings));
  })

  -- A service is made where the test on the name holds.
  abbrev pub guarded :
      Bool → Result EnvError (String × ConnSetting) → Config R → Result Failure (Config R)
  guarded b r c = if b then with_service r c else ok c

  -- The three tests on the name of the variable that make services, one after the other.
  unfoldable pub add_services : String → String → Config R → Result Failure (Config R)
  add_services key value c =
      guarded (has_prefix key "POSTGRES_DSN" || has_prefix key "DATABASE_DSN")
        (parse_postgres_dsn_env key value) c
      >>= guarded (has_prefix key "PGBOUNCER_DSN") (parse_pgbouncer_dsn_env key value)
      >>= guarded (has_prefix key "PATRONI_URL") (parse_patroni_url_env key value)

  abbrev with_number : String → String → Option ℤ → (ℤ → Config R) → Result Failure (Config R)
  with_number key value none set = err (invalid_setting key value)
  with_number key value (some n) set = ok (set n)

  -- The switch over the name of the variable.
  unfoldable pub set_field : Numbers → String → String → Config R → Result Failure (Config R)
  unfolding to_bool
  set_field parse key value c =
      let auth = c.auth_config in
      let number = with_number key value (parse.atoi value) in
      if key == "PGSCV_LISTEN_ADDRESS"
      then ok (record c { listen_address = value })
      else if key == "PGSCV_NO_TRACK_MODE"
      then ok (record c { no_track_mode = to_bool value })
      else if key == "PGSCV_DATABASES"
      then ok (record c { databases = value })
      else if key == "PGSCV_DISABLE_COLLECTORS"
      then ok (record c { disable_collectors = split_on 44 (remove_all 32 value) })
      else if key == "PGSCV_AUTH_USERNAME"
      then ok (record c { auth_config = record auth { username = value } })
      else if key == "PGSCV_AUTH_PASSWORD"
      then ok (record c { auth_config = record auth { password = value } })
      else if key == "PGSCV_AUTH_KEYFILE"
      then ok (record c { auth_config = record auth { keyfile = value } })
      else if key == "PGSCV_AUTH_CERTFILE"
      then ok (record c { auth_config = record auth { certfile = value } })
      else if key == "PGSCV_COLLECT_TOP_QUERY"
      then number (λ n. record c { collect_top_query = n })
      else if key == "PGSCV_COLLECT_TOP_TABLE"
      then number (λ n. record c { collect_top_table = n })
      else if key == "PGSCV_COLLECT_TOP_INDEX"
      then number (λ n. record c { collect_top_index = n })
      else if key == "PGSCV_SKIP_CONN_ERROR_MODE"
      then ok (record c { skip_conn_error_mode = to_bool value })
      else if key == "PGSCV_CONN_TIMEOUT"
      then number (λ n. record c { conn_timeout = n })
      else if key == "PGSCV_URL_PREFIX"
      then ok (record c { url_prefix = value })
      else if key == "PGSCV_THROTTLING_INTERVAL"
      then number (λ n. record c { throttling_interval = some n })
      else if key == "PGSCV_CONCURRENCY_LIMIT"
      then number (λ n. record c { concurrency_limit = some n })
      else if key == "PGSCV_REFRESH_SERVICE_CONFIG_INTERVAL"
      then with_number key value (parse.parse_duration value)
          (λ n. record c { refresh_service_config_interval = n })
      else ok c

  -- One round of the loop over `os.Environ()`.
  unfoldable pub read_entry : Numbers → String → Config R → Result Failure (Config R)
  unfolding is_own add_services set_field
  read_entry parse entry c = if not (is_own entry) then ok c else elim (split_first 61 entry) [
    | none ↦ err (no_value entry)
    | some (key, value) ↦ add_services key value c >>= λ c'. set_field parse key value c'
  ]

  unfoldable pub read_entries : Numbers → List String → Config R → Result Failure (Config R)
  unfolding read_entry
  read_entries parse [] c = ok c
  read_entries parse (entry ∷ environ) c =
      read_entry parse entry c >>= λ c'. read_entries parse environ c'

  -- `newConfigFromEnv`
  unfoldable pub new_config_from_env : Numbers → List String → Result Failure (Config R)
  unfolding read_entries
  new_config_from_env parse environ =
      read_entries parse environ
        (record no_config { defaults = some []; services_conns_settings = some [] })
