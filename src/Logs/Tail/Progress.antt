-- ===== src/Logs/Tail/Progress.antt =====
-- The loop can always take a new file.
use mathlib.Core.List.{append_assoc, append-nil}
use pgscv.Base.{
  all, sym, ◌++◌, ◌≡◌, refl, ◌∙◌, String, Bool, true, false, none, some, List, [], ◌∷◌, arith,
}
use pgscv.Base.External.{Regexps}
use pgscv.Logs.{LogParser, TrimSpace}
use pgscv.Logs.Tail.{
  Tail, Phase, unstarted, polling, stopping, TailLoop, cancel, new_tail_loop, start, change, stop,
  respawn, Run, here, next,
}
use pgscv.Logs.Tail.Safety.{Tidy, Step-Tidy, Run-Tidy, new_tail_loop-Tidy}

module _ ⦃R : Regexps⦄ (trim_space : TrimSpace) (p : LogParser R) where
  abbrev pub Follows : TailLoop → String → TailLoop → Type 0
  Follows s file u =
      Run trim_space p false s [] u
      × (u.phase ≡ polling)
      × ((b : Bool) × (u.tails ≡ record { file = file; from_end = b; cancelled = false } ∷ []))

  -- A tail that is told to end ends, and the loop starts on the file that it waits for.
  settle :
      (s : TailLoop) (file : String)
      → Tidy s
      → s.phase ≡ stopping file
      → (u : TailLoop) × Follows s file u × (u.sending ≡ s.sending)
  settle s file h waits = go s.tails refl
    where
      go :
          (ts : List Tail)
          → s.tails ≡ ts
          → (u : TailLoop) × Follows s file u × (u.sending ≡ s.sending)
      go [] e = (
        record s {
          phase = polling;
          tails = record { file = file; from_end = false; cancelled = false } ∷ [];
        },
        (next here (respawn s file waits e), refl, (false, refl)),
        refl,
      )
      go (t ∷ []) e = (
        record s {
          phase = polling;
          tails = record { file = file; from_end = false; cancelled = false } ∷ [];
        },
        (
          next (next here (stop s [] [] t e (ground (arith, h.stops_all file waits))))
              (respawn (record s { tails = [] }) file waits refl),
          refl,
          (false, refl),
        ),
        refl,
      )
      go (t ∷ t2 ∷ ts) e = absurd (ground (arith, h.one))

  Run-append :
      {s t u : TailLoop} {xs ys : List String}
      → Run trim_space p false s xs t
      → Run trim_space p false t ys u
      → Run trim_space p false s (xs ++ ys) u
  Run-append {xs = xs} r here = rw (append-nil xs) r
  Run-append {xs = xs} r (next {lines = ys} {more = zs} later step) =
      rw (sym (append_assoc xs ys zs)) (next (Run-append r later) step)

  after_start :
      (s : TailLoop) (file : String)
      → Tidy s
      → s.phase ≡ unstarted
      → s.sending ≡ some file
      → (u : TailLoop) × Follows s file u × (u.sending ≡ none)
  after_start s file h first sent = (
    record s {
      sending = none;
      phase = polling;
      tails = record { file = file; from_end = true; cancelled = false } ∷ s.tails;
    },
    (next here (start s file first sent), refl, (true, ground (arith, h.none_yet first))),
    refl,
  )

  after_change :
      (s : TailLoop) (file : String)
      → Tidy s
      → s.phase ≡ polling
      → s.sending ≡ some file
      → (u : TailLoop) × Follows s file u × (u.sending ≡ none)
  after_change s file h polls sent =
      let waiting = record s { sending = none; phase = stopping file; tails = cancel s.tails } in
      let changed = change s file polls sent in
      let (u, (r, at, tail), quiet) =
        settle waiting file (Step-Tidy trim_space p false changed h) refl in
      (u, (Run-append (next here changed) r, at, tail), quiet)

  after_stopping :
      (s : TailLoop) (old file : String)
      → Tidy s
      → s.phase ≡ stopping old
      → s.sending ≡ some file
      → (u : TailLoop) × Follows s file u × (u.sending ≡ none)
  after_stopping s old file h waits sent =
      let (m, (r, at, _), same) = settle s old h waits in
      let (u, (r2, at2, tail), quiet) =
        after_change m file (Run-Tidy trim_space p false h r) at (same ∙ sent) in
      (u, (Run-append r r2, at2, tail), quiet)

  -- From every state that the collector reaches, whether or not tails have failed, in which `Update` waits
  -- to send a file, steps by which no line is read and no tail fails lead to a state in which the send is done
  -- and one tail, of this file, runs. And while the loop waits for a tail, the tail has been told to end, so
  -- that no schedule waits for more than that.
  pub Run-Follows :
      (s : TailLoop) (lines : List String) (file : String)
      → Run trim_space p true new_tail_loop lines s
      → s.sending ≡ some file
      → ((u : TailLoop) × Follows s file u × (u.sending ≡ none))
        × ((old : String) → s.phase ≡ stopping old → all (λ t. t.cancelled) s.tails ≡ true)
  Run-Follows s lines file r sent = (go s.phase refl, h.stops_all)
    where
      h : Tidy s
      h = Run-Tidy trim_space p true (new_tail_loop-Tidy trim_space p true) r

      go :
          (phase : Phase) → s.phase ≡ phase → (u : TailLoop) × Follows s file u × (u.sending ≡ none)
      go unstarted e = after_start s file h e sent
      go polling e = after_change s file h e sent
      go (stopping old) e = after_stopping s old file h e sent
