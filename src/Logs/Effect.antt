-- ===== src/Logs/Effect.antt =====
-- What a line of the log adds to the counters.
use pgscv.Base.{
  ◌≡◌, refl, inl, inr, ℕ, ◌+◌, String, Bool, false, ◌&&◌, ◌||◌, some, [], arith, ◌==◌, string_eq,
  if◌then◌else◌, Option-cases,
}
use pgscv.Base.Dict.{Dict}
use pgscv.Base.Counts.{count_at, count_up, one_if, count_at-count_up}
use pgscv.Base.External.{Regexps}
use pgscv.Logs.{
  LogParser, LogStats, TrimSpace, parse_message_severity, normalize_message, count_message,
  update_messages_stats,
}
use pgscv.Logs.Severity.{Reordered, is_level, OneLevel, is_found, parse_message_severity-is_level}

-- The severities whose messages are kept.
abbrev pub is_serious : String → Bool
is_serious level = level == "panic" || level == "fatal" || level == "error" || level == "warning"

abbrev pub messages : String → LogStats → Dict String ℕ
messages level s =
    if level == "panic"
    then s.panics
    else if level == "fatal"
    then s.fatals
    else if level == "error"
    then s.errors
    else if level == "warning"
    then s.warnings
    else []

serious_log : is_serious "log" ≡ false
unfolding string_eq
serious_log = refl

serious-not_log : (level : String) → level ≡ "log" → is_serious level ≡ false
serious-not_log level e = rw e serious_log

module _ ⦃R : Regexps⦄ (trim_space : TrimSpace) where
  messages-count_message :
      (m normalized level : String) (s : LogStats)
      → messages level (count_message trim_space m normalized s) ≡ (
          if is_serious level && level == m
          then count_up normalized (messages level s)
          else messages level s)
  unfolding count_message
  messages-count_message m normalized level s = ground arith

  count_at-count_message :
      (m normalized level msg : String) (s : LogStats)
      → count_at msg (messages level (count_message trim_space m normalized s))
        ≡ count_at msg (messages level s)
          + one_if (is_serious level && level == m && msg == normalized)
  count_at-count_message m normalized level msg s = ground (
    arith,
    messages-count_message m normalized level s,
    count_at-count_up msg normalized (messages level s),
  )

  totals-count_message :
      (m normalized : String) (s : LogStats)
      → (count_message trim_space m normalized s).totals ≡ s.totals
  unfolding count_message
  totals-count_message m normalized s = ground arith

  -- A line that is counted as the message at the severity.
  abbrev pub is_message : LogParser R → String → String → String → Bool
  is_message p level msg line =
      is_serious level
      && is_level p level line
      && is_found msg (normalize_message trim_space p line)

  module _ (p : LogParser R) (range : Dict String R.Regexp) (line : String) (s : LogStats) where
    pub count_at-update_messages_stats :
        (s' : LogStats) (level : String)
        → Reordered range p.re_severity
        → OneLevel p line
        → update_messages_stats trim_space p range line s ≡ some s'
        → count_at level s'.totals ≡ count_at level s.totals + one_if (is_level p level line)
    unfolding update_messages_stats
    count_at-update_messages_stats s' level u one h =
        let found = parse_message_severity-is_level p range line level u one in
        elim (Option-cases (parse_message_severity range line)) [
          | inl absent ↦ ground (arith, absent, found)
          | inr (m, present) ↦
              let counted = record s { totals = count_up m s.totals } in
              elim (Option-cases (normalize_message trim_space p line)) [
                | inl panics ↦
                    ground (arith, present, panics, found, count_at-count_up level m s.totals)
                | inr (n, normal) ↦ ground (
                  arith,
                  present,
                  normal,
                  found,
                  count_at-count_up level m s.totals,
                  totals-count_message m n counted,
                )
              ]
        ]

    pub count_at-messages :
        (s' : LogStats) (level msg : String)
        → Reordered range p.re_severity
        → OneLevel p line
        → update_messages_stats trim_space p range line s ≡ some s'
        → count_at msg (messages level s')
          ≡ count_at msg (messages level s) + one_if (is_message p level msg line)
    unfolding update_messages_stats
    count_at-messages s' level msg u one h =
        let found = parse_message_severity-is_level p range line level u one in
        elim (Option-cases (parse_message_severity range line)) [
          | inl absent ↦ ground (arith, absent, found)
          | inr (m, present) ↦
              let counted = record s { totals = count_up m s.totals } in
              elim (Option-cases (normalize_message trim_space p line)) [
                | inl panics ↦ ground (arith, present, panics, found, serious-not_log level)
                | inr (n, normal) ↦ ground (
                  arith,
                  present,
                  normal,
                  found,
                  serious-not_log level,
                  count_at-count_message m n level msg counted,
                )
              ]
        ]
