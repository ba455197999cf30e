-- ===== src/Collector/Pool.antt =====
-- The run of the collectors of a service (`Collect` and `send` of internal/collector/collector.go): each
-- collector is a goroutine that takes a place of the semaphore, sends its metrics and gives the place
-- back; the sender passes the metrics on. The scheduler picks any goroutine that can go on.
pub mod Safety
pub mod Progress
use pgscv.Base.{ℕ, ◌<◌, ◌≡◌, ◌⊎◌, String, Bool, Option, none, some, List, [], ◌∷◌, ◌++◌, length}

-- `send`: nil metrics are skipped.
unfoldable pub send {ℓ} : {A : Type ℓ} → List (Option A) → List A
send [] = []
send (none ∷ ms) = send ms
send (some m ∷ ms) = m ∷ send ms

-- Which collectors wait for a place, hold one and are done, and what the sender has put out.
pub record Pool (A : Type 0) : Type 0 where
  pub waiting : List String
  pub running : List String
  pub finished : List String
  pub out : List A

-- A limit of 0 is no limit: the goroutines then do not touch the semaphore.
abbrev pub HasPlace : ℕ → List String → Type 0
HasPlace limit running = (limit ≡ 0) ⊎ (length running < limit)

pub data Step {A : Type 0} (limit : ℕ) : Pool A → Pool A → Type 0 where
  start :
      (xs ys running finished : List String) (name : String) (out : List A)
      → HasPlace limit running
      → Step limit
          (record {
            waiting = xs ++ (name ∷ ys);
            running = running;
            finished = finished;
            out = out;
          })
          (record { waiting = xs ++ ys; running = name ∷ running; finished = finished; out = out })
  emit :
      (waiting xs ys finished : List String) (name : String) (m : Option A) (out : List A)
      → Step limit
          (record {
            waiting = waiting;
            running = xs ++ (name ∷ ys);
            finished = finished;
            out = out;
          })
          (record {
            waiting = waiting;
            running = xs ++ (name ∷ ys);
            finished = finished;
            out = out ++ send (m ∷ []);
          })
  finish :
      (waiting xs ys finished : List String) (name : String) (out : List A)
      → Step limit
          (record {
            waiting = waiting;
            running = xs ++ (name ∷ ys);
            finished = finished;
            out = out;
          })
          (record { waiting = waiting; running = xs ++ ys; finished = name ∷ finished; out = out })

pub data Run {A : Type 0} (limit : ℕ) (p : Pool A) : Pool A → Type 0 where
  here : Run limit p p
  next : {q r : Pool A} → Run limit p q → Step limit q r → Run limit p r

-- All collectors wait.
unfoldable pub initial : {A : Type 0} → List String → Pool A
initial names = record { waiting = names; running = []; finished = []; out = [] }
