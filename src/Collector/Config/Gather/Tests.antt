-- ===== src/Collector/Config/Gather/Tests.antt =====
-- A server whose pg_stat_statements stands in the second of two other databases.
use pgscv.Base.{
  ◌≡◌, ◌≢◌, refl, ap, String, true, false, ◌&&◌, Option, none, some, [], ◌∷◌, arith, ◌==◌,
  string_eq, nat_eq, if◌then◌else◌, is_some,
}
use pgscv.Base.Int.{pos}
use pgscv.Base.Text.{contains_text}
use pgscv.Collector.Config.Gather.{
  Asked, rolconnlimit, setting, version, Db, System, is_address_local, discover_pg_stat_statements,
  new_postgres_service_config,
}
use pgscv.Collector.Config.Gather.Answers.{
  is_local, answers_version, answers_rest, SaysVersion, SaysRest, statements_of,
  new_postgres_service_config_lem,
}
use pgscv.Collector.Config.Gather.Statements.{
  looked_for, connections, first_with, nowhere, discover_pg_stat_statements_lem,
}

abbrev answer : Asked → Option String
answer rolconnlimit = some "10"
answer version = some "PostgreSQL 16"
answer (setting name) =
    if name == "shared_preload_libraries" then some "pg_stat_statements" else some "8192"

abbrev home : Db
home = record {
  row = answer;
  flag = λ f. some false;
  extension = λ name. none;
  databases = some ("closed" ∷ "shop" ∷ []);
  database = "postgres";
}

abbrev shop : Db
shop = record home { extension = λ name. some "public"; database = "shop" }

abbrev connect_to : Option String → Option Db
connect_to none = some home
connect_to (some d) = if d == "shop" then some shop else none

abbrev system : System
system = record {
  parse_config = λ s. some "10.0.0.1";
  connect = λ s timeout d. connect_to d;
  interface_addrs = some ("10.0.0.15/24" ∷ []);
  parse_int = λ s. some (pos 10);
  parse_uint = λ s. some 8192;
  atoi = λ s. some (pos 160000);
}

-- The address of another host is a prefix of one of this machine.
remote_is_local : is_address_local system "10.0.0.1" ≡ true
unfolding is_address_local string_eq
remote_is_local = refl

discover_pg_stat_statements_lem_example :
    discover_pg_stat_statements system "dsn"
    ≡ some (
        if contains_text "pg_stat_statements" "pg_stat_statements"
        then first_with
            (home ∷ connections (λ d. system.connect "dsn" none (some d)) ("closed" ∷ "shop" ∷ []))
        else nowhere)
unfolding string_eq
discover_pg_stat_statements_lem_example =
    discover_pg_stat_statements_lem system "dsn" "10.0.0.1" "pg_stat_statements" home
      ("closed" ∷ "shop" ∷ []) refl refl refl refl

given : ◌≢◌ {A = String} "dsn" ""
unfolding string_eq
given e = let same = ap (λ s. s == "") e in ground (arith, same)

new_postgres_service_config_lem_example :
    let out = new_postgres_service_config system "dsn" (pos 0) in
    (out.1 ≡ (
      answers_version system home && answers_rest system home && is_some (looked_for system "dsn")))
    × (out.0.local_service ≡ is_local system.interface_addrs "10.0.0.1")
    × (out.1 ≡ true
        → SaysVersion system home out.0
          × SaysRest system home out.0
          × (looked_for system "dsn" ≡ some (statements_of system home out.0)))
new_postgres_service_config_lem_example =
    new_postgres_service_config_lem system home "dsn" "10.0.0.1" (pos 0) given refl refl
