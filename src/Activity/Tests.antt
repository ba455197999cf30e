-- ===== src/Activity/Tests.antt =====
-- Two backends of a user, one of which waits.
use pgscv.Base.{◌≡◌, refl, String, true, false, [], ◌∷◌, string_eq, nat_eq}
use pgscv.Base.Dict
use pgscv.Base.Samples.{exact_regexps, whole_floats}
use pgscv.Model.{NullString, PgResult}
use pgscv.Base.Counts.{count_at}
use pgscv.Activity.{ActivityStat, QueryRegexp}
use pgscv.Activity.Parse.{parse_postgres_activity_stats}
use pgscv.Activity.Parse.Columns.{total_queries}
use pgscv.Activity.Parse.Queries.{
  AllDistinct, count_rows, has_query, total_queries-parse_postgres_activity_stats,
}
use pgscv.Activity.Parse.Counts.{
  in_active, counter, has_state, count_at-parse_postgres_activity_stats,
}

abbrev text : String → NullString
text s = record { text = s; valid = true }

abbrev null : NullString
null = record { text = ""; valid = false }

abbrev patterns : QueryRegexp exact_regexps
patterns = record {
  selects = "select";
  mods = "update";
  ddl = "create";
  maint = "analyze";
  vacuum = "vacuum";
  vacanl = "vacuum";
  withs = "with";
  copy = "copy";
}

abbrev result : PgResult
result = record {
  colnames =
      "user" ∷ "database" ∷ "state" ∷ "wait_event_type" ∷ "wait_event" ∷ "active_seconds" ∷ "query"
      ∷ [];
  rows =
      (text "ann" ∷ text "shop" ∷ text "active" ∷ null ∷ null ∷ text "42" ∷ text "select" ∷ [])
      ∷ (text "ann"
          ∷ text "shop"
          ∷ text "active"
          ∷ text "Lock"
          ∷ text "relation"
          ∷ text "2"
          ∷ text "vacuum"
          ∷ [])
      ∷ [];
}

abbrev stat : ActivityStat exact_regexps whole_floats
stat = parse_postgres_activity_stats result patterns

one_active : stat.active ≡ ("ann/shop", 1) ∷ []
unfolding parse_postgres_activity_stats mathlib.Core.List.zip string_eq Dict.insert Dict.lookup
one_active = refl

one_waits : stat.waiting ≡ ("ann/shop", 1) ∷ []
unfolding parse_postgres_activity_stats mathlib.Core.List.zip string_eq Dict.insert Dict.lookup
one_waits = refl

longest : stat.max_active_user ≡ ("ann/shop", 42) ∷ []
unfolding parse_postgres_activity_stats mathlib.Core.List.zip string_eq Dict.lookup Dict.insert
longest = refl

distinct : AllDistinct result.colnames result.rows
unfolding mathlib.Core.List.zip Dict.lookup string_eq
distinct = (
  (refl, (refl, (refl, (refl, (refl, (refl, (refl, tt))))))),
  ((refl, (refl, (refl, (refl, (refl, (refl, (refl, tt))))))), tt),
)

total_queries-parse_postgres_activity_stats_example :
    total_queries (parse_postgres_activity_stats ⦃F = whole_floats⦄ result patterns)
    ≡ count_rows has_query result.colnames result.rows
total_queries-parse_postgres_activity_stats_example =
    total_queries-parse_postgres_activity_stats result patterns distinct

count_at-parse_postgres_activity_stats_example :
    count_at "ann/shop"
      (counter in_active (parse_postgres_activity_stats ⦃F = whole_floats⦄ result patterns))
    ≡ count_rows (has_state "ann/shop" in_active) result.colnames result.rows
count_at-parse_postgres_activity_stats_example =
    count_at-parse_postgres_activity_stats result patterns "ann/shop" in_active distinct
