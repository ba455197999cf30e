-- ===== src/Descriptors/Sends.antt =====
-- What is sent where nothing panics.
use pgscv.Base.{
  ◌≡◌, refl, ap, String, Option, none, some, List, [], ◌∷◌, ◌++◌, arith, if◌then◌else◌,
}
use pgscv.Base.External.{Regexps, Floats}
use pgscv.Collector.Pool.{send}
use pgscv.Descriptors.{Prometheus, TypedDesc, Metric}
use pgscv.Descriptors.Made.{is_made, metric_of}
use pgscv.Descriptors.Single.{Sent}
use pgscv.Descriptors.Multiple.{and_then}

-- Nothing panics, and the metrics that are not nil are these.
abbrev pub Sends : {F : Floats} → Sent F → List (Metric F) → Type 0
Sends {F} sent metrics = (ms : List (Option (Metric F))) × (sent ≡ some ms) × (send ms ≡ metrics)

send-append : {F : Floats} (xs ys : List (Option (Metric F))) → send (xs ++ ys) ≡ send xs ++ send ys
unfolding send
send-append [] ys = refl
send-append (none ∷ xs) ys = send-append xs ys
send-append (some m ∷ xs) ys = ap (λ ms. m ∷ ms) (send-append xs ys)

pub and_then-Sends :
    {F : Floats} {a b : Sent F} {xs ys : List (Metric F)}
    → Sends a xs
    → Sends b ys
    → Sends (and_then a b) (xs ++ ys)
unfolding and_then
and_then-Sends (ms, e, f) (ns, g, h) =
    (ms ++ ns, ground (arith, e, g), ground (arith, send-append ms ns, f, h))

-- The metric, if the filters and the client library let it pass.
abbrev pub made :
    ⦃R : Regexps⦄ ⦃F : Floats⦄
    → Prometheus
    → TypedDesc R F
    → F.Float
    → List String
    → List (Metric F)
made prom d v values = if is_made prom d values then metric_of prom d v values ∷ [] else []
