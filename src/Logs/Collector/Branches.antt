-- ===== src/Logs/Collector/Branches.antt =====
-- What `Update` of the log collector sends.
use pgscv.Base.Text.{has_prefix}
use pgscv.Base.{
  ◌<>◌, ◌≡◌, refl, ℕ, String, Bool, true, false, not, ◌&&◌, Option, none, some, List, [], ◌∷◌, ◌++◌,
  arith, ◌==◌, string_eq, if◌then◌else◌,
}
use pgscv.Base.Dict.{Dict}
use pgscv.Base.Int.{ltb_ℤ}
use pgscv.Base.External.{Regexps, Floats}
use pgscv.Collector.Config.{Config}
use pgscv.Collector.Pool.{send}
use pgscv.Descriptors.{Prometheus, TypedDesc, Metric}
use pgscv.Descriptors.Made.{is_made, metric_of, new_const_metric_lem}
use pgscv.Descriptors.Sends.{Sends, and_then-Sends}
use pgscv.Logs.{LogStats}
use pgscv.Logs.Collector.{
  LogDescs, Updated, postgres_v10, query_current_logfile, quiet, send_counts, send_all, update,
}

-- The log file, as a path from the root, where the query for it is answered.
abbrev pub logfile_of : Option (String × String) → Option String
logfile_of none = none
logfile_of (some (datadir, logfile)) =
    some (if has_prefix logfile "/" then logfile else datadir <> "/" <> logfile)

logfile_of_lem :
    (answer : Option (String × String)) → query_current_logfile answer ≡ logfile_of answer
unfolding query_current_logfile
logfile_of_lem none = refl
logfile_of_lem (some (datadir, logfile)) = ground arith

module _ ⦃R : Regexps⦄ ⦃F : Floats⦄ (prom : Prometheus) (of_count : ℕ → F.Float) where
  -- A metric for each count, unless a filter or the client library stops it.
  abbrev pub metrics_of : TypedDesc R F → Dict String ℕ → List (Metric F)
  metrics_of d [] = []
  metrics_of d ((label, n) ∷ m) =
      let rest = metrics_of d m in
      if is_made prom d (label ∷ [])
      then metric_of prom d (of_count n) (label ∷ []) ∷ rest
      else rest

  send_counts-Sends :
      (d : TypedDesc R F) (m : Dict String ℕ)
      → Sends (send_counts prom of_count d m) (metrics_of d m)
  unfolding send_counts send
  send_counts-Sends d [] = ([], refl, refl)
  send_counts-Sends d ((label, n) ∷ m) =
      let (ms, e, f) = send_counts-Sends d m in
      (
        (if is_made prom d (label ∷ [])
              then some (metric_of prom d (of_count n) (label ∷ []))
              else none)
            ∷ ms,
        ground (arith, new_const_metric_lem prom d (of_count n) (label ∷ []), e),
        ground (arith, f),
      )

  -- The server is local, collects its log itself, to stderr, and is not older than 10.
  abbrev pub collects : Config R → Bool
  collects config =
      config.service_config.local_service
      && config.service_config.logging_collector
      && not (ltb_ℤ config.service_config.pg_version.numeric postgres_v10)
      && config.service_config.log_destination == "stderr"

  abbrev pub all_metrics : LogDescs R F → LogStats → List (Metric F)
  all_metrics d s =
      metrics_of d.messages_total s.totals
      ++ metrics_of d.panic_messages s.panics
      ++ metrics_of d.fatal_messages s.fatals
      ++ metrics_of d.error_messages s.errors
      ++ metrics_of d.warning_messages s.warnings

  send_all-Sends :
      (d : LogDescs R F) (s : LogStats) → Sends (send_all prom of_count d s) (all_metrics d s)
  unfolding send_all
  send_all-Sends d s =
      and_then-Sends
        (and_then-Sends
          (and_then-Sends
            (and_then-Sends (send_counts-Sends d.messages_total s.totals)
              (send_counts-Sends d.panic_messages s.panics))
            (send_counts-Sends d.fatal_messages s.fatals))
          (send_counts-Sends d.error_messages s.errors))
        (send_counts-Sends d.warning_messages s.warnings)

  -- What `Update` should do, by whether it collects and by the log file.
  abbrev pub Does : LogDescs R F → String → LogStats → Bool → Option String → Updated F → Type 0
  Does d current s false logfile u = Sends u.sent [] × (u.succeeds ≡ true) × (u.notified ≡ none)
  Does d current s true none u = Sends u.sent [] × (u.succeeds ≡ false) × (u.notified ≡ none)
  Does d current s true (some file) u =
      Sends u.sent (all_metrics d s)
      × (u.succeeds ≡ true)
      × (u.notified ≡ (if file == current then none else some file))

  abbrev outcome : LogDescs R F → String → LogStats → Bool → Option String → Updated F
  outcome d current s false logfile = quiet prom of_count true
  outcome d current s true none = quiet prom of_count false
  outcome d current s true (some file) = record {
    sent = send_all prom of_count d s;
    succeeds = true;
    notified = if not (file == current) then some file else none;
  }

  update-outcome :
      (d : LogDescs R F) (config : Config R) (answer : Option (String × String)) (current : String)
      (s : LogStats)
      → update prom of_count d config answer current s
        ≡ outcome d current s (collects config) (logfile_of answer)
  unfolding update
  update-outcome d config answer current s = ground (arith, logfile_of_lem answer)

  outcome-Does :
      (d : LogDescs R F) (current : String) (s : LogStats) (b : Bool) (logfile : Option String)
      → Does d current s b logfile (outcome d current s b logfile)
  unfolding send
  outcome-Does d current s false logfile = (([], refl, refl), refl, refl)
  outcome-Does d current s true none = (([], refl, refl), refl, refl)
  outcome-Does d current s true (some file) = (send_all-Sends d s, refl, ground arith)

  -- `Update` never panics. For a server that is not local, does not collect its log itself, is older than
  -- 10 or does not log to stderr it sends and tells nothing, without an error; where the log file is not
  -- known it fails; otherwise it sends the metric of each counter that the filters and the client library
  -- let pass, and tells the loop of the log file exactly when it is another than before.
  pub update-Does :
      (d : LogDescs R F) (config : Config R) (answer : Option (String × String)) (current : String)
      (s : LogStats)
      → Does d current s
          (collects config)
          (logfile_of answer)
          (update prom of_count d config answer current s)
  update-Does d config answer current s =
      rw (update-outcome d config answer current s)
        (outcome-Does d current s (collects config) (logfile_of answer))
