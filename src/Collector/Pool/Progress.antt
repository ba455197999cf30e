-- ===== src/Collector/Pool/Progress.antt =====
-- A run never gets stuck.
use pgscv.Base.{ℕ, zero, suc, ◌≡◌, refl, inl, inr, String, List, [], ◌∷◌, arith}
use pgscv.Collector.Pool.{Pool, Step, start, finish, HasPlace, Run, here, next}

place : (limit : ℕ) → HasPlace limit []
place zero = inl refl
place (suc limit) = inr (omega arith)

-- The state with the same output in which all are done.
abbrev pub Done : {A : Type 0} → Pool A → Pool A → Type 0
Done p q = (q.waiting ≡ []) × (q.running ≡ []) × (q.out ≡ p.out)

module _ {A : Type 0} (limit : ℕ) where
  -- One more step in front of a run.
  before : {p q r : Pool A} → Step limit p q → Run limit q r → Run limit p r
  before s here = next here s
  before s (next r t) = next (before s r) t

  drain_waiting :
      (waiting finished : List String) (out : List A)
      → let p : Pool A = record {
        waiting = waiting;
        running = [];
        finished = finished;
        out = out;
      } in
        (q : Pool A) × Run limit p q × Done p q
  drain_waiting [] finished out = (
    record { waiting = []; running = []; finished = finished; out = out },
    here,
    (refl, refl, refl),
  )
  drain_waiting (name ∷ waiting) finished out =
      let (q, run, done) = drain_waiting waiting (name ∷ finished) out in
      (
        q,
        before (start [] waiting [] finished name out (place limit))
            (before (finish waiting [] [] finished name out) run),
        done,
      )

  drain_running :
      (waiting running finished : List String) (out : List A)
      → let p : Pool A = record {
        waiting = waiting;
        running = running;
        finished = finished;
        out = out;
      } in
        (q : Pool A) × Run limit p q × Done p q
  drain_running waiting [] finished out = drain_waiting waiting finished out
  drain_running waiting (name ∷ running) finished out =
      let (q, run, done) = drain_running waiting running (name ∷ finished) out in
      (q, before (finish waiting [] running finished name out) run, done)

  -- From every state the scheduler can bring all collectors to their end, under every limit: the
  -- semaphore cannot block them for good.
  pub Run-finishes : (p : Pool A) → (q : Pool A) × Run limit p q × Done p q
  Run-finishes p = drain_running p.waiting p.running p.finished p.out
