-- ===== src/Collector/Config/Gather.antt =====
-- What the program asks a server before it collects from it (`newPostgresServiceConfig`, `isAddressLocal`,
-- `discoverPgStatStatements` and `extensionInstalledSchema` of internal/collector/config.go).
pub mod Answers
pub mod Statements
mod Tests
use pgscv.Base.{
  ℕ, String, Bool, true, false, not, ◌||◌, Option, none, some, List, [], ◌∷◌, ◌==◌, string_eq,
  if◌then◌else◌,
}
use pgscv.Base.Int.{ℤ, pos, ltb_ℤ}
use pgscv.Base.Text.{has_prefix, contains_text}
use pgscv.Collector.Config.{PostgresVersion, ServiceConfig, zero_service_config}

-- The texts that are asked for by one query each.
pub data Asked : Type 0 where
  rolconnlimit : Asked
  setting : String → Asked
  version : Asked

-- The tests that are asked for.
pub data Flag : Type 0 where
  is_aws_aurora : Flag
  is_citus : Flag

-- A connection: the answer to a query, none where it fails; the schema of an extension, none where the
-- query fails or gives no row; the databases; and the name of its own database.
pub record Db : Type 0 where
  pub row : Asked → Option String
  pub flag : Flag → Option Bool
  pub extension : String → Option String
  pub databases : Option (List String)
  pub database : String

-- pgx, the network interfaces and `strconv`: the host of a connection string, a connection by the string,
-- with a timeout and to a database if these are given, the addresses of the machine, and numbers.
pub record System : Type 0 where
  pub parse_config : String → Option String
  pub connect : String → Option ℤ → Option String → Option Db
  pub interface_addrs : Option (List String)
  pub parse_int : String → Option ℤ
  pub parse_uint : String → Option ℕ
  pub atoi : String → Option ℤ

-- `isAddressLocal`
unfoldable pub any_prefix : List String → String → Bool
unfolding has_prefix
any_prefix [] addr = false
any_prefix (a ∷ addresses) addr =
    let rest = any_prefix addresses addr in if has_prefix a addr then true else rest

unfoldable pub is_address_local : System → String → Bool
unfolding any_prefix
is_address_local sys addr =
    if addr == ""
    then false
    else if has_prefix addr "/"
    then true
    else if addr == "localhost" || has_prefix addr "127." || addr == "::1"
    then true
    else elim sys.interface_addrs [ none ↦ false | some addresses ↦ any_prefix addresses addr ]

-- `extensionInstalledSchema`
unfoldable pub extension_installed_schema : Db → String → String
extension_installed_schema db name = elim (db.extension name) [ none ↦ "" | some schema ↦ schema ]

-- Whether pg_stat_statements is there, and where.
pub record FoundStatements : Type 0 where
  pub exists : Bool
  pub database : String
  pub schema : String

abbrev pub not_found : FoundStatements
not_found = record { exists = false; database = ""; schema = "" }

abbrev pub found_in : Db → FoundStatements
found_in db = record {
  exists = true;
  database = db.database;
  schema = extension_installed_schema db "pg_stat_statements";
}

-- The loop over the databases: one that cannot be connected to is skipped.
unfoldable pub walk : (String → Option Db) → List String → FoundStatements
walk connect [] = not_found
walk connect (d ∷ databases) =
    let rest = walk connect databases in
    elim (connect d) [
      | none ↦ rest
      | some db ↦
          if not (extension_installed_schema db "pg_stat_statements" == "")
          then found_in db
          else rest
    ]

-- `discoverPgStatStatements`; none is an error.
unfoldable pub discover_pg_stat_statements : System → String → Option FoundStatements
unfolding contains_text walk
discover_pg_stat_statements sys conn_str = elim (sys.parse_config conn_str) [
  | none ↦ none
  | some _ ↦ elim (sys.connect conn_str none none) [
    | none ↦ none
    | some home ↦ elim (home.row (setting "shared_preload_libraries")) [
      | none ↦ none
      | some libraries ↦
          if not (contains_text libraries "pg_stat_statements")
          then some not_found
          else if not (extension_installed_schema home "pg_stat_statements" == "")
          then some (found_in home)
          else elim home.databases [
            | none ↦ none
            | some databases ↦ some (walk (λ d. sys.connect conn_str none (some d)) databases)
          ]
    ]
  ]
]

-- What is known so far, and whether no step has failed.
abbrev pub Known : Type 0
Known = ServiceConfig × Bool

-- `if err != nil { return config, err }`, and then the value is put into the configuration.
abbrev pub then_put {ℓ} :
    {A : Type ℓ} → Known → Option A → (A → ServiceConfig → ServiceConfig) → Known
then_put (c, false) answer put = (c, false)
then_put (c, true) none put = (c, false)
then_put (c, true) (some a) put = (put a c, true)

abbrev pub number {ℓ} : {A : Type ℓ} → (String → Option A) → Option String → Option A
number parse none = none
number parse (some s) = parse s

abbrev pub put_version : (PostgresVersion → PostgresVersion) → ServiceConfig → ServiceConfig
put_version f c = record c { pg_version = f c.pg_version }

abbrev pub put_full : String → ServiceConfig → ServiceConfig
unfolding contains_text
put_full full = put_version (λ v. record v {
  full = full;
  is_epas = contains_text full "EnterpriseDB Advanced Server";
  is_yandex = contains_text full "yandex";
})

abbrev pub put_statements : FoundStatements → ServiceConfig → ServiceConfig
put_statements found c = record c {
  pg_stat_statements = found.exists;
  pg_stat_statements_database = found.database;
  pg_stat_statements_schema = found.schema;
}

-- The queries on a connection, from the role's limit to the version.
unfoldable pub ask_version : System → Db → Known → Known
unfolding put_full
ask_version sys db c0 =
    let c1 =
      then_put c0 (number sys.parse_int (db.row rolconnlimit))
        (λ n c. record c { rol_conn_limit = n }) in
    let c2 =
      then_put c1 (number sys.parse_uint (db.row (setting "block_size")))
        (λ n c. record c { block_size = n }) in
    let c3 =
      then_put c2 (number sys.parse_uint (db.row (setting "wal_segment_size")))
        (λ n c. record c { wal_segment_size = n }) in
    let c4 =
      then_put c3 (number sys.atoi (db.row (setting "server_version_num")))
        (λ n. put_version (λ v. record v { numeric = n })) in
    let c5 =
      then_put c4 (db.row (setting "server_version"))
        (λ s. put_version (λ v. record v { short = s })) in
    then_put c5 (db.row version) put_full

-- The queries after it.
unfoldable pub ask_rest : Db → Known → Known
ask_rest db c0 =
    let c1 =
      then_put c0 (db.flag is_aws_aurora)
        (λ b. put_version (λ v. record v { is_aws_aurora = b })) in
    let c2 = then_put c1 (db.flag is_citus) (λ b. put_version (λ v. record v { is_citus = b })) in
    let c3 =
      then_put c2 (db.row (setting "data_directory")) (λ s c. record c { data_directory = s }) in
    let c4 =
      then_put c3 (db.row (setting "logging_collector"))
        (λ s c. record c { logging_collector = s == "on" }) in
    then_put c4 (db.row (setting "log_destination")) (λ s c. record c { log_destination = s })

-- `newPostgresServiceConfig`: the configuration, also where a step has failed, and whether none has.
unfoldable pub new_postgres_service_config : System → String → ℤ → Known
unfolding is_address_local ask_version ask_rest discover_pg_stat_statements
new_postgres_service_config sys conn_str conn_timeout =
    if conn_str == "" then (zero_service_config, true) else elim (sys.parse_config conn_str) [
      | none ↦ (zero_service_config, false)
      | some host ↦
          let local = record zero_service_config { local_service = is_address_local sys host } in
          let timeout = if ltb_ℤ (pos 0) conn_timeout then some conn_timeout else none in
          elim (sys.connect conn_str timeout none) [
            | none ↦ (local, false)
            | some db ↦
                then_put (ask_rest db (ask_version sys db (local, true)))
                  (discover_pg_stat_statements sys conn_str) put_statements
          ]
    ]
