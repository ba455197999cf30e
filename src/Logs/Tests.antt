-- ===== src/Logs/Tests.antt =====
-- A collector that is told of a file, tails it, reads a line and is told of the next.
use pgscv.Base.{
  all, ◌≡◌, refl, sym, ◌∙◌, ◌≤◌, String, true, false, none, some, [], ◌∷◌, arith, ◌==◌, string_eq,
  nat_eq, length,
}
use pgscv.Base.Dict
use pgscv.Base.Dict.{Dict}
use pgscv.Base.Counts.{count_at}
use pgscv.Base.Int.{pos}
use pgscv.Base.Samples.{exact_regexps, whole_floats}
use pgscv.Collector.Config.{Config}
use pgscv.Descriptors.{Prometheus}
use pgscv.Logs.{LogParser, new_log_stats}
use pgscv.Logs.Severity.{matches, is_level, OneLevel}
use pgscv.Logs.Effect.{messages, is_message}
use pgscv.Logs.Collector.{new_postgres_logs_collector, update}
use pgscv.Logs.Collector.Branches.{logfile_of, Does, collects, update-Does}
use pgscv.Logs.Tail.{Tail, TailLoop, new_tail_loop, Run, here, next, notice, start, read}
use pgscv.Logs.Tail.Safety.{Run-one_tail}
use pgscv.Logs.Tail.Counts.{count_lines, count_at-Run}
use pgscv.Logs.Tail.Progress.{Follows, Run-Follows}

abbrev untrimmed : String → String
untrimmed s = s

abbrev parser : LogParser exact_regexps
parser = record {
  re_severity = ("log", "L") ∷ ("error", "E") ∷ [];
  re_extract = "E";
  re_normalize = "1" ∷ [];
}

abbrev told : TailLoop
told = record new_tail_loop { current = "/a"; sending = some "/a" }

told-Run : Run untrimmed parser true new_tail_loop [] told
unfolding string_eq
told-Run = next here (notice new_tail_loop "/a" refl refl)

abbrev first_tail : Tail
first_tail = record { file = "/a"; from_end = true; cancelled = false }

abbrev tailing : TailLoop
tailing = record told { sending = none; phase = pgscv.Logs.Tail.polling; tails = first_tail ∷ [] }

abbrev counted : TailLoop
counted = record tailing {
  stats = record new_log_stats {
    totals = ("log", 0) ∷ ("warning", 0) ∷ ("error", 1) ∷ ("fatal", 0) ∷ ("panic", 0) ∷ [];
    errors = ("E", 1) ∷ [];
  };
}

counted-Run : Run untrimmed parser true new_tail_loop ("E" ∷ []) counted
unfolding string_eq Dict.lookup pgscv.Logs.update_messages_stats Dict.insert
counted-Run = next (next told-Run (start told "/a" refl refl)) (
    read tailing [] [] first_tail "E" parser.re_severity counted.stats refl
      ((refl, (refl, tt)), λ k. refl) refl)

other_text : ◌==◌ {A = String} "L" "E" ≡ false
unfolding string_eq
other_text = refl

only_error : (j : String) → matches parser.re_severity "E" j ≡ true → j ≡ "error"
unfolding Dict.lookup
only_error j h = ground (arith, other_text)

one_level : OneLevel parser "E"
one_level j k h i = only_error j h ∙ sym (only_error k i)

count_at-Run_example :
    (count_at "error" counted.stats.totals ≡ count_lines (is_level parser "error") ("E" ∷ []))
    × (count_at "E" (messages "error" counted.stats)
        ≡ count_lines (is_message untrimmed parser "error" "E") ("E" ∷ []))
count_at-Run_example = count_at-Run untrimmed parser "error" "E" counted-Run (one_level, tt)

Run-one_tail_example :
    (length counted.tails ≤ 1)
    × ((t : Tail)
        → counted.tails ≡ t ∷ []
        → counted.sending ≡ none
        → t.cancelled ≡ false
        → t.file ≡ counted.current)
Run-one_tail_example = Run-one_tail untrimmed parser true counted-Run

abbrev told_again : TailLoop
told_again = record counted { current = "/b"; sending = some "/b" }

told_again-Run : Run untrimmed parser true new_tail_loop ("E" ∷ []) told_again
unfolding string_eq
told_again-Run = next counted-Run (notice counted "/b" refl refl)

Run-Follows_example :
    ((u : TailLoop) × Follows untrimmed parser told_again "/b" u × (u.sending ≡ none))
    × ((old : String)
        → told_again.phase ≡ pgscv.Logs.Tail.stopping old
        → all (λ t. t.cancelled) told_again.tails ≡ true)
Run-Follows_example = Run-Follows untrimmed parser told_again ("E" ∷ []) "/b" told_again-Run refl

abbrev client : Prometheus
client = record { build_fq_name = λ a b c. c; accepts = λ d values. true }

abbrev config : Config exact_regexps
config = record {
  no_track_mode = false;
  service_type = "postgres";
  conn_string = "";
  base_url = "";
  service_config = record {
    local_service = true;
    block_size = 8192;
    wal_segment_size = 16777216;
    pg_version = record {
      full = "";
      short = "16.0";
      numeric = pos 160000;
      is_aws_aurora = false;
      is_citus = false;
      is_epas = false;
      is_yandex = false;
      is_pgpro = false;
    };
    data_directory = "/d";
    logging_collector = true;
    log_destination = "stderr";
    pg_stat_statements = false;
    pg_stat_statements_database = "";
    pg_stat_statements_schema = "";
    rol_conn_limit = pos 10;
  };
  databases_re = none;
  settings = [];
  collect_top_table = pos 0;
  collect_top_index = pos 0;
  collect_top_query = pos 0;
  const_labels = none;
  target_labels = none;
  conn_timeout = pos 0;
  concurrency_limit = none;
}

collects_here : collects client (λ n. n) config ≡ true
unfolding string_eq
collects_here = refl

update-Does_example :
    let d = new_postgres_logs_collector client (λ n. n) [] [] in
    Does client
      (λ n. n)
      d
      ""
      counted.stats
      (collects client (λ n. n) config)
      (logfile_of (some ("/d", "log/a")))
      (update client (λ n. n) d config (some ("/d", "log/a")) "" counted.stats)
update-Does_example =
    update-Does client (λ n. n) (new_postgres_logs_collector client (λ n. n) [] []) config
      (some ("/d", "log/a")) "" counted.stats
