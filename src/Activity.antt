-- ===== src/Activity.antt =====
-- The activity of the backends (internal/collector/postgres_activity.go). A count, a float64 in the code,
-- is a natural number: it stays far below 2^53.
pub mod Updates
pub mod Parse
mod Tests
use pgscv.Base.{ℕ, ◌+◌, String, Option, none, some, [], ◌∷◌, string_eq}
use pgscv.Base.Dict
use pgscv.Base.Dict.{Dict}
use pgscv.Base.External.{Regexps, Floats}

-- `queryRegexp`
pub record QueryRegexp (R : Regexps) : Type 0 where
  pub selects : R.Regexp
  pub mods : R.Regexp
  pub ddl : R.Regexp
  pub maint : R.Regexp
  pub vacuum : R.Regexp
  pub vacanl : R.Regexp
  pub withs : R.Regexp
  pub copy : R.Regexp

-- `postgresActivityStat`, without what other queries fill in (`prepared`, `startTime`).
pub record ActivityStat (R : Regexps) (F : Floats) : Type 0 where
  pub idle : Dict String ℕ
  pub idlexact : Dict String ℕ
  pub active : Dict String ℕ
  pub other : Dict String ℕ
  pub waiting : Dict String ℕ
  pub wait_events : Dict String ℕ
  pub max_idle_user : Dict String F.Float
  pub max_idle_maint : Dict String F.Float
  pub max_active_user : Dict String F.Float
  pub max_active_maint : Dict String F.Float
  pub max_wait_user : Dict String F.Float
  pub max_wait_maint : Dict String F.Float
  pub query_select : ℕ
  pub query_mod : ℕ
  pub query_ddl : ℕ
  pub query_maint : ℕ
  pub query_with : ℕ
  pub query_copy : ℕ
  pub query_other : ℕ
  pub vacuum_ops : Dict String ℕ
  pub re : QueryRegexp R

-- `newPostgresActivityStat`
unfoldable pub new_postgres_activity_stat :
    {R : Regexps} {F : Floats} → QueryRegexp R → ActivityStat R F
new_postgres_activity_stat re = record {
  idle = [];
  idlexact = [];
  active = [];
  other = [];
  waiting = [];
  wait_events = [];
  max_idle_user = [];
  max_idle_maint = [];
  max_active_user = [];
  max_active_maint = [];
  max_wait_user = [];
  max_wait_maint = [];
  query_select = 0;
  query_mod = 0;
  query_ddl = 0;
  query_maint = 0;
  query_with = 0;
  query_copy = 0;
  query_other = 0;
  vacuum_ops = ("wraparound", 0) ∷ ("regular", 0) ∷ ("user", 0) ∷ [];
  re = re;
}
