-- ===== src/Locks.antt =====
-- The locks of a server (internal/collector/postgres_locks.go).
pub mod Columns
pub mod Metrics
mod Tests
use pgscv.Base.{
  String, Bool, true, false, not, Option, none, some, List, [], ◌∷◌, ◌==◌, string_eq, if◌then◌else◌,
}
use pgscv.Base.Dict.{Dict}
use pgscv.Base.External.{Regexps, Floats}
use pgscv.Descriptors.{Prometheus, TypedDesc, gauge_value, new_builtin_typed_desc, new_const_metric}
use pgscv.Descriptors.Single.{Sent}
use pgscv.Descriptors.Multiple.{and_then}
use pgscv.Filter.{Filters}
use pgscv.Model.{NullString, PgResult}
use pgscv.Rows.{Cells, cells_of}

-- `postgresLocksCollector`
pub record LocksCollector (R : Regexps) (F : Floats) : Type 0 where
  pub locks : TypedDesc R F
  pub locks_all : TypedDesc R F
  pub notgranted : TypedDesc R F

-- `locksStat`
pub record LocksStat (F : Floats) : Type 0 where
  pub access_share_lock : F.Float
  pub row_share_lock : F.Float
  pub row_exclusive_lock : F.Float
  pub share_update_exclusive_lock : F.Float
  pub share_lock : F.Float
  pub share_row_exclusive_lock : F.Float
  pub exclusive_lock : F.Float
  pub access_exclusive_lock : F.Float
  pub not_granted : F.Float
  pub total : F.Float

module _ ⦃F : Floats⦄ where
  abbrev pub no_locks : LocksStat F
  no_locks = record {
    access_share_lock = F.zero;
    row_share_lock = F.zero;
    row_exclusive_lock = F.zero;
    share_update_exclusive_lock = F.zero;
    share_lock = F.zero;
    share_row_exclusive_lock = F.zero;
    exclusive_lock = F.zero;
    access_exclusive_lock = F.zero;
    not_granted = F.zero;
    total = F.zero;
  }

  -- The switch over the name of the column.
  unfoldable pub put : String → F.Float → LocksStat F → LocksStat F
  put colname v s =
      if colname == "access_share_lock"
      then record s { access_share_lock = v }
      else if colname == "row_share_lock"
      then record s { row_share_lock = v }
      else if colname == "row_exclusive_lock"
      then record s { row_exclusive_lock = v }
      else if colname == "share_update_exclusive_lock"
      then record s { share_update_exclusive_lock = v }
      else if colname == "share_lock"
      then record s { share_lock = v }
      else if colname == "share_row_exclusive_lock"
      then record s { share_row_exclusive_lock = v }
      else if colname == "exclusive_lock"
      then record s { exclusive_lock = v }
      else if colname == "access_exclusive_lock"
      then record s { access_exclusive_lock = v }
      else if colname == "not_granted"
      then record s { not_granted = v }
      else if colname == "total"
      then record s { total = v }
      else s

  -- The loop over the columns of a row.
  unfoldable pub put_cells : Cells → LocksStat F → LocksStat F
  unfolding put
  put_cells [] s = s
  put_cells ((colname, cell) ∷ cells) s = put_cells cells (
      if not cell.valid
      then s
      else elim (F.parse_float cell.text) [ none ↦ s | some v ↦ put colname v s ])

  unfoldable pub put_rows : List Cells → LocksStat F → LocksStat F
  unfolding put_cells
  put_rows [] s = s
  put_rows (cells ∷ rows) s = put_rows rows (put_cells cells s)

  -- `parsePostgresLocksStats`, where each row has a cell for each column.
  unfoldable pub parse_postgres_locks_stats : PgResult → LocksStat F
  unfolding put_rows
  parse_postgres_locks_stats r = put_rows (cells_of r.colnames r.rows) no_locks

module _ ⦃R : Regexps⦄ ⦃F : Floats⦄ (prom : Prometheus) where
  abbrev gauge_desc :
      String → String → Option (List String) → Dict String String → Filters R → TypedDesc R F
  gauge_desc name help labels const_labels filters =
      new_builtin_typed_desc prom
        (record {
          namespace = "postgres";
          subsystem = "locks";
          name = name;
          help = help;
          factor = F.zero;
        })
        gauge_value labels const_labels filters

  -- `NewPostgresLocksCollector`
  unfoldable pub new_postgres_locks_collector : Dict String String → Filters R → LocksCollector R F
  unfolding new_builtin_typed_desc
  new_postgres_locks_collector const_labels filters = record {
    locks =
        gauge_desc "in_flight" "Number of in-flight locks held by active processes in each mode."
          (some ("mode" ∷ [])) const_labels filters;
    locks_all =
        gauge_desc "all_in_flight" "Total number of all in-flight locks held by active processes."
          none const_labels filters;
    notgranted =
        gauge_desc "not_granted_in_flight"
          "Number of in-flight not granted locks held by active processes." none const_labels
          filters;
  }

  -- A metric that is sent, before the others.
  unfoldable pub send_before : TypedDesc R F → F.Float → List String → Sent F → Sent F
  unfolding new_const_metric and_then
  send_before d v values later = elim (new_const_metric prom d v values) [
    | none ↦ none
    | some metric ↦ and_then (some (metric ∷ [])) later
  ]

  -- `Update`, from the answer to its query, none where the connection or the query fails: what it sends,
  -- and whether it ends without an error.
  unfoldable pub update : LocksCollector R F → Option PgResult → Sent F × Bool
  unfolding parse_postgres_locks_stats send_before
  update c none = (some [], false)
  update c (some res) =
      let stats = parse_postgres_locks_stats res in
      let sent = send_before c.locks stats.access_share_lock ("AccessShareLock" ∷ []) (
        send_before c.locks stats.row_share_lock ("RowShareLock" ∷ []) (
          send_before c.locks stats.row_exclusive_lock ("RowExclusiveLock" ∷ []) (
            send_before c.locks stats.share_update_exclusive_lock ("ShareUpdateExclusiveLock" ∷ [])
              (send_before c.locks stats.share_lock ("ShareLock" ∷ []) (
                send_before c.locks stats.share_row_exclusive_lock ("ShareRowExclusiveLock" ∷ []) (
                  send_before c.locks stats.exclusive_lock ("ExclusiveLock" ∷ []) (
                    send_before c.locks stats.access_exclusive_lock ("AccessExclusiveLock" ∷ []) (
                      send_before c.notgranted stats.not_granted []
                        (send_before c.locks_all stats.total [] (some [])))))))))) in
      (sent, true)
