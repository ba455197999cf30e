-- ===== src/Locks/Tests.antt =====
-- Three locks, one of which waits.
use pgscv.Base.{◌≡◌, refl, String, true, false, none, some, [], ◌∷◌, string_eq, nat_eq}
use pgscv.Base.Samples.{exact_regexps, whole_floats}
use pgscv.Descriptors.{Prometheus}
use pgscv.Descriptors.Sends.{Sends}
use pgscv.Model.{NullString, PgResult}
use pgscv.Rows.{cells_of}
use pgscv.Locks.{LocksCollector, new_postgres_locks_collector, update}
use pgscv.Locks.Columns.{column, last_row_number}
use pgscv.Locks.Metrics.{modes, metrics_by, update-modes}

abbrev text : String → NullString
text s = record { text = s; valid = true }

abbrev client : Prometheus
client = record { build_fq_name = λ a b c. c; accepts = λ d values. true }

abbrev result : PgResult
result = record {
  colnames = "not_granted" ∷ "share_lock" ∷ [];
  rows = (text "1" ∷ text "2" ∷ []) ∷ [];
}

abbrev collector : LocksCollector exact_regexps whole_floats
unfolding new_postgres_locks_collector
collector = new_postgres_locks_collector client [] []

waiting_locks : last_row_number "not_granted" (cells_of result.colnames result.rows) 0 ≡ 1
unfolding string_eq mathlib.Core.List.zip
waiting_locks = refl

update-modes_example :
    Sends (update client collector (some result)).0 (
      metrics_by client collector
        (λ m. last_row_number (column m) (cells_of result.colnames result.rows) 0)
        modes)
    × ((update client collector (some result)).1 ≡ true)
    × (update client collector none ≡ (some [], false))
update-modes_example = update-modes client collector result
