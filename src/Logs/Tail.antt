-- ===== src/Logs/Tail.antt =====
-- The tailing of the log files (`runTailLoop` and `tailCollect` of internal/collector/postgres_logs.go, and
-- what `Update` tells them). The loop, `Update` and the tails are goroutines; the scheduler picks any step
-- that can be made. One `Update` runs at a time. The channel has no buffer: `Update` waits in its send
-- until the loop receives.
pub mod Safety
pub mod Counts
pub mod Progress
use pgscv.Base.{
  ◌≡◌, String, Bool, true, false, Option, none, some, List, [], ◌∷◌, ◌++◌, ◌==◌, string_eq,
}
use pgscv.Base.Dict.{Dict}
use pgscv.Base.External.{Regexps}
use pgscv.Logs.{LogParser, LogStats, TrimSpace, new_log_stats, update_messages_stats}
use pgscv.Logs.Severity.{Reordered}

-- A goroutine of `tailCollect`: its file, whether it began at the end of the file (`init`), and whether its
-- context is cancelled.
pub record Tail : Type 0 where
  pub file : String
  pub from_end : Bool
  pub cancelled : Bool

-- Where the loop stands: before its first receive, in the receive of `range`, or in `wg.Wait()` before it
-- starts on a new file.
pub data Phase : Type 0 where
  unstarted : Phase
  polling : Phase
  stopping : String → Phase

-- `current` is `currentLogfile`, `sending` the file that `Update` is about to send, `tails` the goroutines
-- that the wait group counts.
pub record TailLoop : Type 0 where
  pub current : String
  pub sending : Option String
  pub phase : Phase
  pub tails : List Tail
  pub stats : LogStats

-- `cancel()`
unfoldable pub cancel : List Tail → List Tail
cancel [] = []
cancel (t ∷ ts) = record t { cancelled = true } ∷ cancel ts

-- The collector as `NewPostgresLogsCollector` leaves it.
abbrev pub new_tail_loop : TailLoop
new_tail_loop = record {
  current = "";
  sending = none;
  phase = unstarted;
  tails = [];
  stats = new_log_stats;
}

module _ ⦃R : Regexps⦄ (trim_space : TrimSpace) (p : LogParser R) (faults : Bool) where
  -- A step, with the lines that it reads. Where `faults` is false, no tail fails.
  pub data Step : TailLoop → List String → TailLoop → Type 0 where
    notice :
        (s : TailLoop) (logfile : String)
        → s.sending ≡ none
        → (logfile == s.current) ≡ false
        → Step s [] (record s { current = logfile; sending = some logfile })
    start :
        (s : TailLoop) (logfile : String)
        → s.phase ≡ unstarted
        → s.sending ≡ some logfile
        → Step s [] (record s {
          sending = none;
          phase = polling;
          tails = record { file = logfile; from_end = true; cancelled = false } ∷ s.tails;
        })
    change :
        (s : TailLoop) (logfile : String)
        → s.phase ≡ polling
        → s.sending ≡ some logfile
        → Step s [] (record s { sending = none; phase = stopping logfile; tails = cancel s.tails })
    stop :
        (s : TailLoop) (xs ys : List Tail) (t : Tail)
        → s.tails ≡ xs ++ (t ∷ ys)
        → t.cancelled ≡ true
        → Step s [] (record s { tails = xs ++ ys })
    -- The file cannot be tailed, or the tail gives nil in place of a line.
    fail :
        (s : TailLoop) (xs ys : List Tail) (t : Tail)
        → s.tails ≡ xs ++ (t ∷ ys)
        → faults ≡ true
        → Step s [] (record s { tails = xs ++ ys })
    respawn :
        (s : TailLoop) (logfile : String)
        → s.phase ≡ stopping logfile
        → s.tails ≡ []
        → Step s [] (record s {
          phase = polling;
          tails = record { file = logfile; from_end = false; cancelled = false } ∷ [];
        })
    -- A tail whose context is cancelled may still take a line first.
    read :
        (s : TailLoop) (xs ys : List Tail) (t : Tail) (line : String) (range : Dict String R.Regexp)
        (stats : LogStats)
        → s.tails ≡ xs ++ (t ∷ ys)
        → Reordered range p.re_severity
        → update_messages_stats trim_space p range line s.stats ≡ some stats
        → Step s (line ∷ []) (record s { stats = stats })

  pub data Run : TailLoop → List String → TailLoop → Type 0 where
    here : {s : TailLoop} → Run s [] s
    next :
        {s t u : TailLoop} {lines more : List String}
        → Run s lines t
        → Step t more u
        → Run s (lines ++ more) u
