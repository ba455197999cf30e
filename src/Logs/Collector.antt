-- ===== src/Logs/Collector.antt =====
-- The collector of log messages (`NewPostgresLogsCollector`, `Update` and `queryCurrentLogfile` of
-- internal/collector/postgres_logs.go).
pub mod Branches
use pgscv.Base.{
  ℕ, String, ◌<>◌, Bool, true, false, not, Option, none, some, List, [], ◌∷◌, ◌==◌, string_eq,
  if◌then◌else◌,
}
use pgscv.Base.Dict.{Dict}
use pgscv.Base.Int.{ℤ, pos, ltb_ℤ}
use pgscv.Base.Text.{has_prefix}
use pgscv.Base.External.{Regexps, Floats}
use pgscv.Collector.Config.{Config}
use pgscv.Descriptors.{
  Prometheus, DescOpts, TypedDesc, ValueType, counter_value, new_builtin_typed_desc,
  new_const_metric,
}
use pgscv.Descriptors.Single.{Sent}
use pgscv.Descriptors.Multiple.{and_then}
use pgscv.Filter.{Filters}
use pgscv.Logs.{LogStats}

-- The descriptors of `postgresLogsCollector`.
pub record LogDescs (R : Regexps) (F : Floats) : Type 0 where
  pub messages_total : TypedDesc R F
  pub panic_messages : TypedDesc R F
  pub fatal_messages : TypedDesc R F
  pub error_messages : TypedDesc R F
  pub warning_messages : TypedDesc R F

-- `PostgresV10`
abbrev pub postgres_v10 : ℤ
postgres_v10 = pos 100000

-- `queryCurrentLogfile`, from the answer to its query: the data directory and the log file. Where the
-- connection or the query fails, there is none.
unfoldable pub query_current_logfile : Option (String × String) → Option String
query_current_logfile none = none
query_current_logfile (some (datadir, logfile)) =
    some (if not (has_prefix logfile "/") then datadir <> "/" <> logfile else logfile)

-- What `Update` does: what it sends on, whether it ends without an error, and the file that it
-- notifies the loop of.
pub record Updated (F : Floats) : Type 0 where
  pub sent : Sent F
  pub succeeds : Bool
  pub notified : Option String

module _ ⦃R : Regexps⦄ ⦃F : Floats⦄ (prom : Prometheus) (of_count : ℕ → F.Float) where
  abbrev counter_desc : String → String → String → Dict String String → Filters R → TypedDesc R F
  counter_desc name help label const_labels filters =
      new_builtin_typed_desc prom
        (record {
          namespace = "postgres";
          subsystem = "log";
          name = name;
          help = help;
          factor = F.zero;
        })
        counter_value (some (label ∷ [])) const_labels filters

  -- The descriptors of `NewPostgresLogsCollector`.
  unfoldable pub new_postgres_logs_collector : Dict String String → Filters R → LogDescs R F
  unfolding new_builtin_typed_desc
  new_postgres_logs_collector const_labels filters = record {
    messages_total =
        counter_desc "messages_total" "Total number of log messages written by each level." "level"
          const_labels filters;
    panic_messages =
        counter_desc "panic_messages_total" "Total number of PANIC log messages written." "msg"
          const_labels filters;
    fatal_messages =
        counter_desc "fatal_messages_total" "Total number of FATAL log messages written." "msg"
          const_labels filters;
    error_messages =
        counter_desc "error_messages_total" "Total number of ERROR log messages written." "msg"
          const_labels filters;
    warning_messages =
        counter_desc "warning_messages_total" "Total number of WARNING log messages written." "msg"
          const_labels filters;
  }

  -- The loop over a map of counts.
  unfoldable pub send_counts : TypedDesc R F → Dict String ℕ → Sent F
  unfolding new_const_metric and_then
  send_counts d [] = some []
  send_counts d ((label, value) ∷ m) =
      let rest = send_counts d m in
      elim (new_const_metric prom d (of_count value) (label ∷ [])) [
        | none ↦ none
        | some metric ↦ and_then (some (metric ∷ [])) rest
      ]

  abbrev pub send_all : LogDescs R F → LogStats → Sent F
  unfolding send_counts and_then
  send_all d s =
      and_then
        (and_then
          (and_then
            (and_then (send_counts d.messages_total s.totals)
              (send_counts d.panic_messages s.panics))
            (send_counts d.fatal_messages s.fatals))
          (send_counts d.error_messages s.errors))
        (send_counts d.warning_messages s.warnings)

  abbrev pub quiet : Bool → Updated F
  quiet succeeds = record { sent = some []; succeeds = succeeds; notified = none }

  -- `Update`, from the counters as they are when it reads them.
  unfoldable pub update :
      LogDescs R F → Config R → Option (String × String) → String → LogStats → Updated F
  unfolding query_current_logfile send_all
  update d config answer current s =
      if not config.service_config.local_service
      then quiet true
      else if not config.service_config.logging_collector
      then quiet true
      else if ltb_ℤ config.service_config.pg_version.numeric postgres_v10
      then quiet true
      else if not (config.service_config.log_destination == "stderr")
      then quiet true
      else elim (query_current_logfile answer) [
        | none ↦ quiet false
        | some logfile ↦ record {
          sent = send_all d s;
          succeeds = true;
          notified = if not (logfile == current) then some logfile else none;
        }
      ]
