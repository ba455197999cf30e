-- ===== src/Collector/Factories.antt =====
-- Which collectors a service of each type has (internal/collector/collector.go). A constructor is
-- written by its name in the source.
pub mod Laws
use pgscv.Base.{String, Bool, List, [], ◌∷◌, string_eq, ◌==◌, contains, if◌then◌else◌}
use pgscv.Base.Dict
use pgscv.Base.Dict.{Dict}

abbrev pub Factories : Type 0
Factories = Dict String String

-- `register`
unfoldable pub register : Factories → String → String → Factories
register f collector factory = Dict.insert collector factory f

-- The loop `for name, fn := range funcs`.
unfoldable pub register_all : Factories → Factories → List String → Factories
register_all [] f disabled = f
register_all ((name, fn) ∷ funcs) f disabled =
    register_all funcs (if contains disabled name then f else register f name fn) disabled

unfoldable pub register_group : String → Factories → Factories → List String → Factories
register_group group funcs f disabled =
    if contains disabled group then f else register_all funcs f disabled

abbrev pub system_funcs : Factories
system_funcs =
    ("system/pgscv", "NewPgscvServicesCollector")
    ∷ ("system/sysinfo", "NewSysInfoCollector")
    ∷ ("system/loadaverage", "NewLoadAverageCollector")
    ∷ ("system/cpu", "NewCPUCollector")
    ∷ ("system/diskstats", "NewDiskstatsCollector")
    ∷ ("system/filesystems", "NewFilesystemCollector")
    ∷ ("system/netdev", "NewNetdevCollector")
    ∷ ("system/network", "NewNetworkCollector")
    ∷ ("system/memory", "NewMeminfoCollector")
    ∷ ("system/sysconfig", "NewSysconfigCollector")
    ∷ []

abbrev pub postgres_funcs : Factories
postgres_funcs =
    ("postgres/pgscv", "NewPgscvServicesCollector")
    ∷ ("postgres/activity", "NewPostgresActivityCollector")
    ∷ ("postgres/archiver", "NewPostgresWalArchivingCollector")
    ∷ ("postgres/bgwriter", "NewPostgresBgwriterCollector")
    ∷ ("postgres/conflicts", "NewPostgresConflictsCollector")
    ∷ ("postgres/databases", "NewPostgresDatabasesCollector")
    ∷ ("postgres/indexes", "NewPostgresIndexesCollector")
    ∷ ("postgres/functions", "NewPostgresFunctionsCollector")
    ∷ ("postgres/locks", "NewPostgresLocksCollector")
    ∷ ("postgres/logs", "NewPostgresLogsCollector")
    ∷ ("postgres/replication", "NewPostgresReplicationCollector")
    ∷ ("postgres/replication_slots", "NewPostgresReplicationSlotsCollector")
    ∷ ("postgres/statements", "NewPostgresStatementsCollector")
    ∷ ("postgres/schemas", "NewPostgresSchemasCollector")
    ∷ ("postgres/settings", "NewPostgresSettingsCollector")
    ∷ ("postgres/storage", "NewPostgresStorageCollector")
    ∷ ("postgres/subscription_rel", "NewPostgresSubscriptionRelCollector")
    ∷ ("postgres/stat_io", "NewPostgresStatIOCollector")
    ∷ ("postgres/stat_slru", "NewPostgresStatSlruCollector")
    ∷ ("postgres/stat_subscription", "NewPostgresStatSubscriptionCollector")
    ∷ ("postgres/stat_ssl", "NewPostgresStatSslCollector")
    ∷ ("postgres/tables", "NewPostgresTablesCollector")
    ∷ ("postgres/wal", "NewPostgresWalCollector")
    ∷ ("postgres/custom", "NewPostgresCustomCollector")
    ∷ []

abbrev pub pgbouncer_funcs : Factories
pgbouncer_funcs =
    ("pgbouncer/pgscv", "NewPgscvServicesCollector")
    ∷ ("pgbouncer/pools", "NewPgbouncerPoolsCollector")
    ∷ ("pgbouncer/stats", "NewPgbouncerStatsCollector")
    ∷ ("pgbouncer/settings", "NewPgbouncerSettingsCollector")
    ∷ []

abbrev pub patroni_funcs : Factories
patroni_funcs =
    ("patroni/pgscv", "NewPgscvServicesCollector")
    ∷ ("patroni/common", "NewPatroniCommonCollector")
    ∷ []

-- `RegisterSystemCollectors` and its three siblings
unfoldable pub register_system_collectors : Factories → List String → Factories
register_system_collectors = register_group "system" system_funcs

unfoldable pub register_postgres_collectors : Factories → List String → Factories
register_postgres_collectors = register_group "postgres" postgres_funcs

unfoldable pub register_pgbouncer_collectors : Factories → List String → Factories
register_pgbouncer_collectors = register_group "pgbouncer" pgbouncer_funcs

unfoldable pub register_patroni_collectors : Factories → List String → Factories
register_patroni_collectors = register_group "patroni" patroni_funcs
