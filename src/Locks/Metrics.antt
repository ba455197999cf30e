-- ===== src/Locks/Metrics.antt =====
-- What `Update` of the lock collector sends.
use pgscv.Base.{
  if◌then◌else◌, ◌≡◌, refl, String, true, false, Option, none, some, List, [], ◌∷◌, ◌++◌, arith,
}
use pgscv.Base.External.{Regexps, Floats}
use pgscv.Collector.Pool.{send}
use pgscv.Descriptors.{Prometheus, TypedDesc, Metric}
use pgscv.Descriptors.Made.{is_made, metric_of, new_const_metric_lem}
use pgscv.Descriptors.Single.{Sent}
use pgscv.Descriptors.Sends.{Sends, and_then-Sends, made}
use pgscv.Model.{PgResult}
use pgscv.Rows.{cells_of}
use pgscv.Locks.{LocksCollector, LocksStat, parse_postgres_locks_stats, send_before, update}
use pgscv.Locks.Columns.{
  Mode, access_share, row_share, row_exclusive, share_update_exclusive, share, share_row_exclusive,
  exclusive, access_exclusive, waiting, every, column, locks_in, last_row_number,
  locks_in-parse_postgres_locks_stats,
}

abbrev pub label_values : Mode → List String
label_values access_share = "AccessShareLock" ∷ []
label_values row_share = "RowShareLock" ∷ []
label_values row_exclusive = "RowExclusiveLock" ∷ []
label_values share_update_exclusive = "ShareUpdateExclusiveLock" ∷ []
label_values share = "ShareLock" ∷ []
label_values share_row_exclusive = "ShareRowExclusiveLock" ∷ []
label_values exclusive = "ExclusiveLock" ∷ []
label_values access_exclusive = "AccessExclusiveLock" ∷ []
label_values waiting = []
label_values every = []

abbrev pub modes : List Mode
modes =
    access_share ∷ row_share ∷ row_exclusive ∷ share_update_exclusive ∷ share ∷ share_row_exclusive
    ∷ exclusive ∷ access_exclusive ∷ waiting ∷ every ∷ []

module _ ⦃R : Regexps⦄ ⦃F : Floats⦄ (prom : Prometheus) (c : LocksCollector R F) where
  abbrev pub desc_for : Mode → TypedDesc R F
  desc_for waiting = c.notgranted
  desc_for every = c.locks_all
  desc_for _ = c.locks

  -- One metric for each mode, by a value for each.
  abbrev pub metrics_by : (Mode → F.Float) → List Mode → List (Metric F)
  metrics_by f [] = []
  metrics_by f (m ∷ ms) = made prom (desc_for m) (f m) (label_values m) ++ metrics_by f ms

  send_before-Sends :
      (d : TypedDesc R F) (v : F.Float) (values : List String) (later : Sent F)
      (xs : List (Metric F))
      → Sends later xs
      → Sends (send_before prom d v values later) (made prom d v values ++ xs)
  unfolding send_before send
  send_before-Sends d v values later xs sends =
      let one : Option (Metric F) =
        if is_made prom d values then some (metric_of prom d v values) else none in
      let first : Sends (some (one ∷ [])) (made prom d v values) = (one ∷ [], refl, ground arith) in
      rw (new_const_metric_lem prom d v values, send_before) (and_then-Sends first sends)

  send_modes : LocksStat F → List Mode → Sent F
  unfolding send_before
  send_modes s [] = some []
  send_modes s (m ∷ ms) =
      send_before prom (desc_for m) (locks_in m s) (label_values m) (send_modes s ms)

  send_modes-Sends :
      (s : LocksStat F) (f : Mode → F.Float) (ms : List Mode)
      → ((m : Mode) → locks_in m s ≡ f m)
      → Sends (send_modes s ms) (metrics_by f ms)
  unfolding send_modes send
  send_modes-Sends s f [] h = ([], refl, refl)
  send_modes-Sends s f (m ∷ ms) h = rw (h m) (
      send_before-Sends (desc_for m) (f m) (label_values m) (send_modes s ms) (metrics_by f ms)
        (send_modes-Sends s f ms h))

  -- Where its query is answered, `Update` ends without an error or panic and sends, in the order of the
  -- modes, the last number of each mode's column, and zero where there is none, unless the filters or the
  -- client library stop it; where the query fails, it sends nothing and fails.
  pub update-modes :
      (r : PgResult)
      → Sends
          (update prom c (some r)).0
          (metrics_by (λ m. last_row_number (column m) (cells_of r.colnames r.rows) F.zero) modes)
        × ((update prom c (some r)).1 ≡ true)
        × (update prom c none ≡ (some [], false))
  unfolding update send_modes
  update-modes r = (
    send_modes-Sends (parse_postgres_locks_stats r)
        (λ m. last_row_number (column m) (cells_of r.colnames r.rows) F.zero) modes
        (λ m. locks_in-parse_postgres_locks_stats m r),
    refl,
    refl,
  )
