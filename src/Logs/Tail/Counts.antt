-- ===== src/Logs/Tail/Counts.antt =====
-- What the counters say after any run of the tails.
use pgscv.Base.{◌≡◌, ℕ, ◌+◌, String, Bool, List, [], ◌∷◌, ◌++◌, arith, string_eq}
use pgscv.Base.Dict
use pgscv.Base.Counts.{count_at, one_if}
use pgscv.Base.External.{Regexps}
use pgscv.Logs.{LogParser, LogStats, TrimSpace}
use pgscv.Logs.Severity.{is_level, OneLevel}
use pgscv.Logs.Effect.{messages, is_message, count_at-update_messages_stats, count_at-messages}
use pgscv.Logs.Tail.{
  TailLoop, new_tail_loop, Step, notice, start, change, stop, fail, respawn, read, Run, here, next,
}

-- How many lines pass a test.
abbrev pub count_lines : (String → Bool) → List String → ℕ
count_lines test [] = 0
count_lines test (line ∷ lines) = one_if (test line) + count_lines test lines

count_lines-append :
    (test : String → Bool) (xs ys : List String)
    → count_lines test (xs ++ ys) ≡ count_lines test xs + count_lines test ys
count_lines-append test [] ys = omega arith
count_lines-append test (x ∷ xs) ys = omega (arith, count_lines-append test xs ys)

module _ ⦃R : Regexps⦄ (trim_space : TrimSpace) (p : LogParser R) where
  abbrev pub AllOneLevel : List String → Type 0
  AllOneLevel [] = Unit
  AllOneLevel (line ∷ lines) = OneLevel p line × AllOneLevel lines

  AllOneLevel-append :
      (xs ys : List String) → AllOneLevel (xs ++ ys) → AllOneLevel xs × AllOneLevel ys
  AllOneLevel-append [] ys h = (tt, h)
  AllOneLevel-append (x ∷ xs) ys (one, h) =
      let both = AllOneLevel-append xs ys h in ((one, both.0), both.1)

  -- The counters have grown by what the lines say.
  abbrev pub Counted : LogStats → List String → LogStats → Type 0
  Counted before lines after =
      ((level : String)
        → count_at level after.totals
          ≡ count_at level before.totals + count_lines (is_level p level) lines)
      × ((level msg : String)
          → count_at msg (messages level after)
            ≡ count_at msg (messages level before)
              + count_lines (is_message trim_space p level msg) lines)

  Counted-nothing : (s : LogStats) → Counted s [] s
  Counted-nothing s = (λ level. omega arith, λ level msg. omega arith)

  Step-Counted :
      {faults : Bool} {s t : TailLoop} {lines : List String}
      → Step trim_space p faults s lines t
      → AllOneLevel lines
      → Counted s.stats lines t.stats
  Step-Counted (notice s logfile quiet new) _ = Counted-nothing s.stats
  Step-Counted (start s logfile first sent) _ = Counted-nothing s.stats
  Step-Counted (change s logfile polls sent) _ = Counted-nothing s.stats
  Step-Counted (stop s xs ys t e cancelled) _ = Counted-nothing s.stats
  Step-Counted (fail s xs ys t e faulty) _ = Counted-nothing s.stats
  Step-Counted (respawn s logfile waits done) _ = Counted-nothing s.stats
  Step-Counted (read s xs ys t line range stats e same counted) (one, _) = (
    λ level. omega (
      arith,
      count_at-update_messages_stats trim_space p range line s.stats stats level same one counted,
    ),
    λ level msg.
        omega (
          arith,
          count_at-messages trim_space p range line s.stats stats level msg same one counted,
        ),
  )

  Run-Counted :
      {faults : Bool} {s t : TailLoop} {lines : List String}
      → Run trim_space p faults s lines t
      → AllOneLevel lines
      → Counted s.stats lines t.stats
  Run-Counted (here {s = s}) _ = Counted-nothing s.stats
  Run-Counted (next {s} {t} {u} {lines} {more} r step) h =
      let both = AllOneLevel-append lines more h in
      let before = Run-Counted r both.0 in
      let after = Step-Counted step both.1 in
      (
        λ level. omega (
          arith,
          before.0 level,
          after.0 level,
          count_lines-append (is_level p level) lines more,
        ),
        λ level msg. omega (
          arith,
          before.1 level msg,
          after.1 level msg,
          count_lines-append (is_message trim_space p level msg) lines more,
        ),
      )

  count_at-new : (level : String) → count_at level new_tail_loop.stats.totals ≡ 0
  unfolding Dict.lookup
  count_at-new level = ground arith

  messages-new : (level msg : String) → count_at msg (messages level new_tail_loop.stats) ≡ 0
  unfolding Dict.lookup
  messages-new level msg = ground arith

  -- Where the pattern of one severity at most matches each line read, the tails count each line once,
  -- across every change of the file and in any order of the patterns: the total of a severity is the
  -- number of lines of it, and the count of a message at PANIC, FATAL, ERROR or WARNING is the number of
  -- lines of this severity that it is the normal form of.
  pub count_at-Run :
      {faults : Bool} {s : TailLoop} {lines : List String} (level msg : String)
      → Run trim_space p faults new_tail_loop lines s
      → AllOneLevel lines
      → (count_at level s.stats.totals ≡ count_lines (is_level p level) lines)
        × (count_at msg (messages level s.stats)
            ≡ count_lines (is_message trim_space p level msg) lines)
  count_at-Run level msg r h =
      let counted = Run-Counted r h in
      (
        omega (arith, counted.0 level, count_at-new level),
        omega (arith, counted.1 level msg, messages-new level msg),
      )
