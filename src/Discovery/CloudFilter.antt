-- ===== src/Discovery/CloudFilter.antt =====
-- The cluster filters of the cloud (internal/discovery/cloud/yandex/filter.go).
use pgscv.Base.{String, Bool, true, false, Option, none, some, if◌then◌else◌}
use pgscv.Base.External.{Regexps}

-- `Filter`
pub record CloudFilter (R : Regexps) : Type 0 where
  pub name_re : R.Regexp
  pub db_re : Option R.Regexp
  pub exclude_name_re : Option R.Regexp
  pub exclude_db_re : Option R.Regexp

module _ ⦃R : Regexps⦄ where
  -- A pattern that is given and matches.
  abbrev pub hits : Option R.Regexp → String → Bool
  hits none name = false
  hits (some re) name = R.match_string re name

  -- `MatchName`
  unfoldable pub match_name : CloudFilter R → String → Bool
  match_name f name = if hits f.exclude_name_re name then false else R.match_string f.name_re name

  -- `MatchDb`
  unfoldable pub match_db : CloudFilter R → String → Bool
  match_db f name =
      if hits f.exclude_db_re name
      then false
      else elim f.db_re [ none ↦ true | some re ↦ R.match_string re name ]
