-- ===== src/Activity/Updates.antt =====
-- The updates of the statistics by one value of a row.

use pgscv.Base.{
  ◌+◌, String, ◌<>◌, Bool, true, false, not, ◌&&◌, ◌||◌, none, some, ◌==◌, string_eq, if◌then◌else◌,
}
use pgscv.Base.Dict
use pgscv.Base.Dict.{Dict}
use pgscv.Base.Text.{has_prefix, contains_text}
use pgscv.Base.External.{Regexps, Floats}
use pgscv.Base.Counts.{count_up}
use pgscv.Activity.{ActivityStat}

abbrev pub st_active : String
st_active = "active"

abbrev pub st_idle : String
st_idle = "idle"

abbrev pub st_idle_xact : String
st_idle_xact = "idle in transaction"

abbrev pub st_idle_xact_aborted : String
st_idle_xact_aborted = "idle in transaction (aborted)"

abbrev pub st_fastpath : String
st_fastpath = "fastpath function call"

abbrev pub st_disabled : String
st_disabled = "disabled"

abbrev pub st_waiting : String
st_waiting = "waiting"

abbrev pub we_lock : String
we_lock = "Lock"

abbrev pub stat_key : String → String → String
stat_key usename datname = usename <> "/" <> datname

abbrev pub in_xact : String → Bool
in_xact state = state == st_idle_xact || state == st_idle_xact_aborted

module _ ⦃R : Regexps⦄ ⦃F : Floats⦄ where
  -- `updateState`
  unfoldable pub update_state : String → String → String → ActivityStat R F → ActivityStat R F
  unfolding count_up
  update_state usename datname state s =
      let key = stat_key usename datname in
      if state == st_active
      then record s { active = count_up key s.active }
      else if state == st_idle
      then record s { idle = count_up key s.idle }
      else if in_xact state
      then record s { idlexact = count_up key s.idlexact }
      else if state == st_fastpath || state == st_disabled
      then record s { other = count_up key s.other }
      else if state == st_waiting
      then record s { waiting = count_up key s.waiting }
      else s

  -- `if v > m[key] { m[key] = v }`
  unfoldable pub raise : String → F.Float → Dict String F.Float → Dict String F.Float
  raise key v m = elim (F.lt (elim (Dict.lookup key m) [ none ↦ F.zero | some w ↦ w ]) v) [
    | true ↦ Dict.insert key v m
    | false ↦ m
  ]

  -- `updateMaxIdletimeDuration`
  unfoldable pub update_max_idletime_duration :
      String → String → String → String → String → ActivityStat R F → ActivityStat R F
  unfolding raise
  update_max_idletime_duration value usename datname state query s =
      if value == "" || state == "" || query == ""
      then s
      else if not (state == st_idle_xact) && not (state == st_idle_xact_aborted)
      then s
      else elim (F.parse_float value) [
        | none ↦ s
        | some v ↦
            if R.match_string s.re.vacanl query
            then record s { max_idle_maint = raise (stat_key usename datname) v s.max_idle_maint }
            else record s { max_idle_user = raise (stat_key usename datname) v s.max_idle_user }
      ]

  -- `updateMaxRuntimeDuration`
  unfoldable pub update_max_runtime_duration :
      String → String → String → String → String → String → ActivityStat R F → ActivityStat R F
  unfolding raise
  update_max_runtime_duration value usename datname state etype query s =
      if value == "" || state == "" || query == ""
      then s
      else if not (state == st_active) || etype == we_lock
      then s
      else elim (F.parse_float value) [
        | none ↦ s
        | some v ↦
            if R.match_string s.re.vacanl query
            then record s {
              max_active_maint = raise (stat_key usename datname) v s.max_active_maint;
            }
            else record s { max_active_user = raise (stat_key usename datname) v s.max_active_user }
      ]

  -- `updateMaxWaittimeDuration`
  unfoldable pub update_max_waittime_duration :
      String → String → String → String → String → ActivityStat R F → ActivityStat R F
  unfolding raise
  update_max_waittime_duration value usename datname waiting query s =
      if value == "" || waiting == "" || query == ""
      then s
      else if not (waiting == we_lock) && not (waiting == "t")
      then s
      else elim (F.parse_float value) [
        | none ↦ s
        | some v ↦
            if R.match_string s.re.vacanl query
            then record s { max_wait_maint = raise (stat_key usename datname) v s.max_wait_maint }
            else record s { max_wait_user = raise (stat_key usename datname) v s.max_wait_user }
      ]

  -- The block of `updateQueryStat` for a vacuum.
  unfoldable pub update_vacuum : String → ActivityStat R F → ActivityStat R F
  unfolding has_prefix contains_text count_up
  update_vacuum str s =
      let counted = record s { query_maint = s.query_maint + 1 } in
      if has_prefix str "autovacuum:" && contains_text str "(to prevent wraparound)"
      then record counted { vacuum_ops = count_up "wraparound" s.vacuum_ops }
      else if has_prefix str "autovacuum:"
      then record counted { vacuum_ops = count_up "regular" s.vacuum_ops }
      else record counted { vacuum_ops = count_up "user" s.vacuum_ops }

  -- `updateQueryStat`
  unfoldable pub update_query_stat : String → String → ActivityStat R F → ActivityStat R F
  unfolding update_vacuum
  update_query_stat query state s =
      if not (state == st_active)
      then s
      else if R.match_string s.re.selects query
      then record s { query_select = s.query_select + 1 }
      else if R.match_string s.re.mods query
      then record s { query_mod = s.query_mod + 1 }
      else if R.match_string s.re.ddl query
      then record s { query_ddl = s.query_ddl + 1 }
      else if R.match_string s.re.maint query
      then record s { query_maint = s.query_maint + 1 }
      else if not (R.find_string s.re.vacuum query == "")
      then update_vacuum (R.find_string s.re.vacuum query) s
      else if R.match_string s.re.withs query
      then record s { query_with = s.query_with + 1 }
      else if R.match_string s.re.copy query
      then record s { query_copy = s.query_copy + 1 }
      else record s { query_other = s.query_other + 1 }
