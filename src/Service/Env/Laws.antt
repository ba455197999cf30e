-- ===== src/Service/Env/Laws.antt =====
-- Which service a variable of the environment names.
use text.Mathlib.TextLemmas.{append-nil}
use pgscv.Base.{◌≡◌, refl, String, ◌<>◌, false, arith, ◌==◌, string_eq, if◌then◌else◌}
use pgscv.Base.Text.{has_prefix, trim_prefix}
use pgscv.Base.Text.Laws.{
  has_prefix-append, trim_prefix-append, append-eq_self, replace_first-append,
}
use pgscv.Base.Result.{Result, ok, err}
use pgscv.Service.Env.{
  EnvError, invalid_key, invalid_value, service_id, dsn_setting, url_setting, type_postgresql,
  type_pgbouncer, type_patroni, with_setting, parse_dsn_env, parse_url_env, parse_postgres_dsn_env,
  parse_pgbouncer_dsn_env, parse_patroni_url_env,
}

-- The id that a variable should have, by what its name has after the prefix.
abbrev pub id_after : String → String → String → String → Result EnvError String
id_after stype key value s =
    if s == ""
    then ok stype
    else if trim_prefix s "_" == ""
    then err (invalid_value value key)
    else ok (trim_prefix s "_")

service_id-append :
    (stype prefix s value : String)
    → service_id stype prefix (prefix <> s) value ≡ id_after stype (prefix <> s) value s
unfolding service_id
service_id-append stype prefix s value = ground (
  arith,
  has_prefix-append prefix s,
  trim_prefix-append prefix s,
  append-eq_self prefix s,
  append-nil prefix,
)

postgres_lem :
    (key value : String)
    → parse_dsn_env "POSTGRES_DSN" key value
      ≡ with_setting
          (dsn_setting type_postgresql value)
          (service_id type_postgresql "POSTGRES_DSN" key value)
unfolding parse_dsn_env string_eq
postgres_lem key value = refl

pgbouncer_lem :
    (key value : String)
    → parse_dsn_env "PGBOUNCER_DSN" key value
      ≡ with_setting
          (dsn_setting type_pgbouncer value)
          (service_id type_pgbouncer "PGBOUNCER_DSN" key value)
unfolding parse_dsn_env string_eq
pgbouncer_lem key value = refl

patroni_lem :
    (key value : String)
    → parse_url_env "PATRONI_URL" key value
      ≡ with_setting
          (url_setting type_patroni value)
          (service_id type_patroni "PATRONI_URL" key value)
unfolding parse_url_env string_eq
patroni_lem key value = refl

-- A variable whose name begins as it should names a service by the rest of its name: by the type alone
-- where there is no rest, by the rest without one leading underscore otherwise, and an empty id is
-- refused. `DATABASE_DSN` is read as `POSTGRES_DSN`.
pub parse_env_ids :
    (s value : String)
    → (parse_postgres_dsn_env ("DATABASE_DSN" <> s) value
        ≡ with_setting
            (dsn_setting type_postgresql value)
            (id_after type_postgresql ("POSTGRES_DSN" <> s) value s))
      × (parse_pgbouncer_dsn_env ("PGBOUNCER_DSN" <> s) value
          ≡ with_setting
              (dsn_setting type_pgbouncer value)
              (id_after type_pgbouncer ("PGBOUNCER_DSN" <> s) value s))
      × (parse_patroni_url_env ("PATRONI_URL" <> s) value
          ≡ with_setting
              (url_setting type_patroni value)
              (id_after type_patroni ("PATRONI_URL" <> s) value s))
unfolding parse_postgres_dsn_env parse_pgbouncer_dsn_env parse_patroni_url_env
parse_env_ids s value = (
  rw (replace_first-append, postgres_lem, service_id-append),
  rw (pgbouncer_lem, service_id-append),
  rw (patroni_lem, service_id-append),
)

-- A name that does not begin as it should is refused.
pub parse_env_invalid :
    (key value : String)
    → has_prefix key "PGBOUNCER_DSN" ≡ false
    → has_prefix key "PATRONI_URL" ≡ false
    → (parse_pgbouncer_dsn_env key value ≡ err (invalid_key key))
      × (parse_patroni_url_env key value ≡ err (invalid_key key))
unfolding parse_pgbouncer_dsn_env parse_patroni_url_env service_id
parse_env_invalid key value p q = (rw (pgbouncer_lem, p), rw (patroni_lem, q))
