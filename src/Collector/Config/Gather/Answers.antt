-- ===== src/Collector/Config/Gather/Answers.antt =====
-- What a gathered configuration says of its server.
use pgscv.Base.{
  Option-cases, inl, inr, [], ◌∷◌, ◌||◌, ◌==◌, any, List, string_eq, not, false, ◌≡◌, ◌≢◌, refl,
  String, Bool, true, false, ◌&&◌, Option, none, some, arith, string_eq, if◌then◌else◌, is_some,
}
use mathlib.Core.Option
use pgscv.Base.Text.{contains_text, has_prefix}
use pgscv.Base.Int.{ℤ, pos, ltb_ℤ}
use pgscv.Collector.Config.{ServiceConfig, zero_service_config}
use pgscv.Collector.Config.Gather.Statements.{looked_for, discover_pg_stat_statements-looked_for}
use pgscv.Collector.Config.Gather.{
  rolconnlimit, setting, version, is_aws_aurora, is_citus, Db, System, FoundStatements, Known,
  then_put, number, put_statements, is_address_local, any_prefix, discover_pg_stat_statements,
  ask_version, ask_rest, new_postgres_service_config,
}

-- The address is a path, a name or an address of the loopback, or begins the address of an interface.
abbrev pub is_local : Option (List String) → String → Bool
is_local interfaces addr =
    not (addr == "")
    && (has_prefix addr "/"
        || addr == "localhost"
        || has_prefix addr "127."
        || addr == "::1"
        || elim interfaces [
          | none ↦ false
          | some addresses ↦ any (λ a. has_prefix a addr) addresses
        ])

any_prefix_lem :
    (addresses : List String) (addr : String)
    → any_prefix addresses addr ≡ any (λ a. has_prefix a addr) addresses
unfolding any_prefix
any_prefix_lem [] addr = refl
any_prefix_lem (a ∷ addresses) addr = ground (arith, any_prefix_lem addresses addr)

is_address_local_lem :
    (sys : System) (addr : String) → is_address_local sys addr ≡ is_local sys.interface_addrs addr
unfolding is_address_local
is_address_local_lem sys addr = elim (Option-cases sys.interface_addrs) [
  | inl e ↦ ground (arith, e)
  | inr (addresses, e) ↦ ground (arith, e, any_prefix_lem addresses addr)
]

module _ (sys : System) (db : Db) where
  -- The answers that are asked for first, and whether they are all given and are numbers where they have
  -- to be.
  abbrev pub answers_version : Bool
  answers_version =
      is_some (number sys.parse_int (db.row rolconnlimit))
      && is_some (number sys.parse_uint (db.row (setting "block_size")))
      && is_some (number sys.parse_uint (db.row (setting "wal_segment_size")))
      && is_some (number sys.atoi (db.row (setting "server_version_num")))
      && is_some (db.row (setting "server_version"))
      && is_some (db.row version)

  abbrev pub answers_rest : Bool
  answers_rest =
      is_some (db.flag is_aws_aurora)
      && is_some (db.flag is_citus)
      && is_some (db.row (setting "data_directory"))
      && is_some (db.row (setting "logging_collector"))
      && is_some (db.row (setting "log_destination"))

  -- The configuration says what the server has answered.
  abbrev pub SaysVersion : ServiceConfig → Type 0
  SaysVersion c =
      (number sys.parse_int (db.row rolconnlimit) ≡ some c.rol_conn_limit)
      × (number sys.parse_uint (db.row (setting "block_size")) ≡ some c.block_size)
      × (number sys.parse_uint (db.row (setting "wal_segment_size")) ≡ some c.wal_segment_size)
      × (number sys.atoi (db.row (setting "server_version_num")) ≡ some c.pg_version.numeric)
      × (db.row (setting "server_version") ≡ some c.pg_version.short)
      × (db.row version ≡ some c.pg_version.full)
      × (c.pg_version.is_epas ≡ contains_text c.pg_version.full "EnterpriseDB Advanced Server")
      × (c.pg_version.is_yandex ≡ contains_text c.pg_version.full "yandex")

  abbrev pub SaysRest : ServiceConfig → Type 0
  SaysRest c =
      (db.flag is_aws_aurora ≡ some c.pg_version.is_aws_aurora)
      × (db.flag is_citus ≡ some c.pg_version.is_citus)
      × (db.row (setting "data_directory") ≡ some c.data_directory)
      × (db.row (setting "log_destination") ≡ some c.log_destination)
      × (Option.map (λ s. s == "on") (db.row (setting "logging_collector"))
          ≡ some c.logging_collector)

  ask_version_ok : (c : ServiceConfig) → (ask_version sys db (c, true)).1 ≡ answers_version
  unfolding ask_version
  ask_version_ok c = ground arith

  ask_version-SaysVersion :
      (c : ServiceConfig)
      → (ask_version sys db (c, true)).1 ≡ true
      → SaysVersion (ask_version sys db (c, true)).0
  unfolding ask_version
  ask_version-SaysVersion c h = ground arith

  ask_version_local : (k : Known) → (ask_version sys db k).0.local_service ≡ k.0.local_service
  unfolding ask_version
  ask_version_local k = ground arith

  ask_rest_ok : (k : Known) → (ask_rest db k).1 ≡ (k.1 && answers_rest)
  unfolding ask_rest
  ask_rest_ok k = ground arith

  ask_rest-SaysRest : (k : Known) → (ask_rest db k).1 ≡ true → SaysRest (ask_rest db k).0
  unfolding ask_rest
  ask_rest-SaysRest k h = ground arith

  ask_rest_keeps :
      (k : Known)
      → ((ask_rest db k).0.local_service ≡ k.0.local_service)
        × ((ask_rest db k).0.rol_conn_limit ≡ k.0.rol_conn_limit)
        × ((ask_rest db k).0.block_size ≡ k.0.block_size)
        × ((ask_rest db k).0.wal_segment_size ≡ k.0.wal_segment_size)
        × ((ask_rest db k).0.pg_version.numeric ≡ k.0.pg_version.numeric)
        × ((ask_rest db k).0.pg_version.short ≡ k.0.pg_version.short)
        × ((ask_rest db k).0.pg_version.full ≡ k.0.pg_version.full)
        × ((ask_rest db k).0.pg_version.is_epas ≡ k.0.pg_version.is_epas)
        × ((ask_rest db k).0.pg_version.is_yandex ≡ k.0.pg_version.is_yandex)
  unfolding ask_rest
  ask_rest_keeps k = ground arith

  abbrev pub statements_of : ServiceConfig → FoundStatements
  statements_of c = record {
    exists = c.pg_stat_statements;
    database = c.pg_stat_statements_database;
    schema = c.pg_stat_statements_schema;
  }

  put_last :
      (k : Known) (o : Option FoundStatements)
      → let out = then_put k o put_statements in
        (out.1 ≡ (k.1 && is_some o))
        × (out.0.local_service ≡ k.0.local_service)
        × (SaysVersion k.0 → SaysVersion out.0)
        × (SaysRest k.0 → SaysRest out.0)
        × (out.1 ≡ true → o ≡ some (statements_of out.0))
  put_last (c, false) o = (refl, refl, (λ h. h), (λ h. h), λ h. absurd (ground arith))
  put_last (c, true) none = (refl, refl, (λ h. h), (λ h. h), λ h. absurd (ground arith))
  put_last (c, true) (some found) = (refl, refl, (λ h. h), (λ h. h), λ h. refl)

  asked : String → ServiceConfig → Known
  asked conn_str c =
      then_put (ask_rest db (ask_version sys db (c, true)))
        (discover_pg_stat_statements sys conn_str) put_statements

  gathered :
      (conn_str host : String) (conn_timeout : ℤ)
      → conn_str ≢ ""
      → sys.parse_config conn_str ≡ some host
      → sys.connect conn_str (if ltb_ℤ (pos 0) conn_timeout then some conn_timeout else none) none
        ≡ some db
      → new_postgres_service_config sys conn_str conn_timeout
        ≡ asked conn_str (record zero_service_config { local_service = is_address_local sys host })
  unfolding new_postgres_service_config asked
  gathered conn_str host conn_timeout given parsed connected = ground (arith, parsed, connected)

  ask_rest-SaysVersion :
      (c : ServiceConfig)
      → (ask_rest db (ask_version sys db (c, true))).1 ≡ true
      → SaysVersion (ask_rest db (ask_version sys db (c, true))).0
  ask_rest-SaysVersion c h =
      let first = ask_version sys db (c, true) in
      ground (arith, ask_rest_ok first, ask_rest_keeps first, ask_version-SaysVersion c)

  -- Where a connection string that is not empty parses and a connection is made, a configuration is
  -- gathered without an error exactly when each query is answered, with a number where one is read, and the
  -- search for pg_stat_statements is not stopped by an error; it then says in each field what the server has answered. With an error or
  -- without, it says whether the host is local.
  pub new_postgres_service_config_lem :
      (conn_str host : String) (conn_timeout : ℤ)
      → conn_str ≢ ""
      → sys.parse_config conn_str ≡ some host
      → sys.connect conn_str (if ltb_ℤ (pos 0) conn_timeout then some conn_timeout else none) none
        ≡ some db
      → let out = new_postgres_service_config sys conn_str conn_timeout in
        (out.1 ≡ (answers_version && answers_rest && is_some (looked_for sys conn_str)))
        × (out.0.local_service ≡ is_local sys.interface_addrs host)
        × (out.1 ≡ true
            → SaysVersion out.0
              × SaysRest out.0
              × (looked_for sys conn_str ≡ some (statements_of out.0)))
  unfolding asked
  new_postgres_service_config_lem conn_str host conn_timeout given parsed connected =
      let local = record zero_service_config { local_service = is_address_local sys host } in
      let first = ask_version sys db (local, true) in
      let second = ask_rest db first in
      let (ok, kept, version_kept, rest_kept, looked) =
        put_last second (discover_pg_stat_statements sys conn_str) in
      rw
        (
          ← discover_pg_stat_statements-looked_for sys conn_str,
          gathered conn_str host conn_timeout given parsed connected,
        )
        (
          ground (arith, ok, ask_rest_ok first, ask_version_ok local),
          ground (
            arith,
            kept,
            ask_rest_keeps first,
            ask_version_local (local, true),
            is_address_local_lem sys host,
          ),
          λ h.
              let fine : second.1 ≡ true = ground (arith, ok) in
              (
                version_kept (ask_rest-SaysVersion local fine),
                rest_kept (ask_rest-SaysRest first fine),
                looked h,
              ),
        )
