-- ===== src/Lib.antt =====
-- pgSCV collects metrics of PostgreSQL, PgBouncer, Patroni and of the system for Prometheus.
--
-- Parts. The settings name services or a discovery finds them. The repository
-- (internal/service/service.go) holds the services; setting it up gives each service a collector
-- and a registry. A scrape runs the collectors of a service (internal/collector/collector.go),
-- whose metrics pass the label filters (internal/filter/filter.go). The discovery
-- (internal/discovery/service) follows the databases of a cloud folder and tells its subscribers
-- which services came and went; the subscriber of the program adds them to the repository and
-- removes them.
--
-- Files.
-- Base and below: Go maps as association lists, texts, results, signed integers, and what stands
-- outside the program (regular expressions, floating-point numbers).
-- Filter: internal/filter/filter.go, Pass, Add and Compile.
-- Mapops: internal/discovery/mapops/full_join.go.
-- Discovery: discovery/common.go, internal/discovery/service/yandex.go and yandex_engine.go,
-- internal/discovery/cloud/yandex/filter.go and postgresql.go. Discovery.Listing is
-- GetPostgreSQLClusters, Discovery.Engine is one pass of the loop of yandexEngine.Start;
-- Discovery.Subscribers is Subscribe, Unsubscribe and Sync.
-- Model: internal/model/model.go.
-- Collector: internal/collector/collector.go and internal/collector/config.go. Config is the data
-- of config.go, Config.Gather what is asked of a server. Factories is the four registrations,
-- Create is NewPgscvCollector, Launch is the choice that Collect makes, Pool is the run of its
-- goroutines.
-- Settings: internal/pgscv/config.go, and the authentication of internal/http/http_server.go. Env
-- is newConfigFromEnv, Merge the rest of NewConfig, Validate the method Validate.
-- Handlers: the handlers of internal/pgscv/pgscv.go. Metrics is getMetricsHandler and
-- getFlushHandler, Targets is getTargetsHandler.
-- Descriptors: internal/collector/collector_common.go. Made is newConstMetric, Single and Multiple
-- are the metrics of a row, Sets the sets from the settings, Databases the collection over the
-- databases.
-- Rows: internal/collector/postgres_common.go.
-- Activity: internal/collector/postgres_activity.go. Updates is the methods of
-- postgresActivityStat, Parse is parsePostgresActivityStats.
-- Logs: internal/collector/postgres_logs.go. Severity and Effect say what a line adds to the
-- counters, Collector is the constructor and Update, Tail the goroutines that tail the log files.
-- Start: Start of internal/pgscv/pgscv.go up to the HTTP listener, and subscribeYandex: the
-- discovery and the repository together. Registered is what an announcement leaves in the
-- repository, Rounds and First the rounds of the discovery from the start on.
-- Locks: internal/collector/postgres_locks.go.
-- Service: internal/service. Env is config.go; Repository, Fill and Setup are the methods of
-- service.go.
--
-- State. A Go map is an association list whose order stands for the order in which range visits
-- the map, so a statement about all lists is about all orders. A method that holds a lock is one
-- step. Goroutines that each work on their own key are run in the order of the list; the
-- collectors of a scrape and the tails of the log files are step relations in which the scheduler
-- picks any that can go on. A callback acts on a world and may fail. A panic is none, and a nil
-- pointer or interface is none.
--
-- A row of a query is the list of its cells, one for each column, as the database driver makes it.
-- A count that the code keeps as a float64 is a natural number.
--
-- Bounds. The engine version is a uint64 and wraps. A loop is structural over a list, but for the
-- two loops over the pages of the cloud, which take fuel: the number of pages is enough.
--
-- Parameters. Regular expressions, rate limiters, the printing of a map of labels, strconv.Atoi,
-- time.ParseDuration, strings.TrimSpace, the network, pgx.ParseConfig, the answers of the
-- database, the Prometheus registerer and client library and the constructors of the single
-- collectors are arguments of the definitions.
--
-- Not modelled: SQL texts, most parsers of single collectors, reading the configuration file, the
-- HTTP listener and the flusher that Start runs, logging, and sleeping between rounds.
pub mod Base
pub mod Filter
pub mod Start
pub mod Locks
pub mod Logs
pub mod Mapops
pub mod Discovery
pub mod Model
pub mod Collector
pub mod Service
pub mod Settings
pub mod Handlers
pub mod Activity
pub mod Rows
pub mod Descriptors
