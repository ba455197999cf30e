-- ===== src/Logs.antt =====
-- The messages of a server's log (internal/collector/postgres_logs.go): how a line is classified and
-- counted.
pub mod Severity
pub mod Effect
mod Tests
pub mod Collector
pub mod Tail
use pgscv.Base.{
  ℕ, String, Bool, true, false, not, Option, none, some, List, [], ◌∷◌, ◌==◌, string_eq,
  if◌then◌else◌,
}
use pgscv.Base.Dict
use pgscv.Base.Dict.{Dict}
use pgscv.Base.Counts.{count_up}
use pgscv.Base.External.{Regexps}

-- `logParser`
pub record LogParser (R : Regexps) : Type 0 where
  pub re_severity : Dict String R.Regexp
  pub re_extract : R.Regexp
  pub re_normalize : List R.Regexp

-- The counters of `postgresLogsCollector`.
pub record LogStats : Type 0 where
  pub totals : Dict String ℕ
  pub panics : Dict String ℕ
  pub fatals : Dict String ℕ
  pub errors : Dict String ℕ
  pub warnings : Dict String ℕ

-- The counters as `NewPostgresLogsCollector` makes them.
abbrev pub new_log_stats : LogStats
new_log_stats = record {
  totals = ("log", 0) ∷ ("warning", 0) ∷ ("error", 0) ∷ ("fatal", 0) ∷ ("panic", 0) ∷ [];
  panics = [];
  fatals = [];
  errors = [];
  warnings = [];
}

abbrev pub severity_patterns : Dict String String
severity_patterns =
    ("log", "\\s?LOG:\\s+")
    ∷ ("warning", "\\s?WARNING:\\s+")
    ∷ ("error", "\\s?ERROR:\\s+")
    ∷ ("fatal", "\\s?FATAL:\\s+")
    ∷ ("panic", "\\s?PANIC:\\s+")
    ∷ []

abbrev pub normalize_patterns : List String
normalize_patterns = "(\\s+\\d+\\s?)" ∷ "(\\s+\".+?\"\\s?)" ∷ []

-- `strings.TrimSpace`
abbrev pub TrimSpace : Type 0
TrimSpace = String → String

module _ ⦃R : Regexps⦄ where
  abbrev pub and_pattern : Option R.Regexp → Option (List R.Regexp) → Option (List R.Regexp)
  and_pattern (some re) (some res) = some (re ∷ res)
  and_pattern _ _ = none

  abbrev pub and_severity :
      String → Option R.Regexp → Option (Dict String R.Regexp) → Option (Dict String R.Regexp)
  and_severity name (some re) (some m) = some ((name, re) ∷ m)
  and_severity _ _ _ = none

  unfoldable pub compile_severities : Dict String String → Option (Dict String R.Regexp)
  compile_severities [] = some []
  compile_severities ((name, pattern) ∷ m) =
      and_severity name (R.compile pattern) (compile_severities m)

  unfoldable pub compile_all : List String → Option (List R.Regexp)
  compile_all [] = some []
  compile_all (pattern ∷ ps) = and_pattern (R.compile pattern) (compile_all ps)

  abbrev parser_of :
      Option (Dict String R.Regexp)
      → Option R.Regexp
      → Option (List R.Regexp)
      → Option (LogParser R)
  parser_of (some m) (some extract) (some normalize) =
      some (record { re_severity = m; re_extract = extract; re_normalize = normalize })
  parser_of _ _ _ = none

  -- `newLogParser`: a pattern that does not compile is a panic (`none`).
  unfoldable pub new_log_parser : Option (LogParser R)
  unfolding compile_severities compile_all
  new_log_parser =
      parser_of (compile_severities severity_patterns)
        (R.compile "\\s?(PANIC|FATAL|ERROR|WARNING):\\s+(.+)") (compile_all normalize_patterns)

  unfoldable pub first_match : Dict String R.Regexp → String → Option String
  first_match [] line = none
  first_match ((name, re) ∷ m) line =
      let later = first_match m line in if R.match_string re line then some name else later

  -- `parseMessageSeverity`, with the patterns in the order in which `range` gives them this time.
  unfoldable pub parse_message_severity : Dict String R.Regexp → String → Option String
  unfolding first_match
  parse_message_severity range line = if line == "" then none else first_match range line

  module _ (trim_space : TrimSpace) where
    unfoldable pub normalize_all : List R.Regexp → String → String
    normalize_all [] message = message
    normalize_all (re ∷ res) message =
        normalize_all res (trim_space (R.replace_all_string re message " ? "))

    unfoldable pub normalize_parts : List R.Regexp → List String → Option String
    unfolding normalize_all
    normalize_parts res [] = some ""
    normalize_parts res (_ ∷ []) = some ""
    normalize_parts res (_ ∷ _ ∷ []) = none
    normalize_parts res (_ ∷ _ ∷ message ∷ _) = some (normalize_all res message)

    -- `normalizeMessage`: `parts[2]` is a panic (`none`) where there are two parts.
    unfoldable pub normalize_message : LogParser R → String → Option String
    unfolding normalize_parts
    normalize_message p message =
        normalize_parts p.re_normalize (R.find_string_submatch p.re_extract message)

    -- The switch over the severity.
    unfoldable pub count_message : String → String → LogStats → LogStats
    unfolding count_up
    count_message m normalized s =
        if m == "panic"
        then record s { panics = count_up normalized s.panics }
        else if m == "fatal"
        then record s { fatals = count_up normalized s.fatals }
        else if m == "error"
        then record s { errors = count_up normalized s.errors }
        else if m == "warning"
        then record s { warnings = count_up normalized s.warnings }
        else s

    abbrev pub count_normalized : String → Option String → LogStats → Option LogStats
    count_normalized m none s = none
    count_normalized m (some normalized) s = some (count_message m normalized s)

    -- `updateMessagesStats`; a panic is none.
    unfoldable pub update_messages_stats :
        LogParser R → Dict String R.Regexp → String → LogStats → Option LogStats
    unfolding parse_message_severity normalize_message count_message count_up
    update_messages_stats p range line s = elim (parse_message_severity range line) [
      | none ↦ some s
      | some m ↦
          let counted = record s { totals = count_up m s.totals } in
          if m == "log" then some counted else count_normalized m (normalize_message p line) counted
    ]
