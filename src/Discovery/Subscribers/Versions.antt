-- ===== src/Discovery/Subscribers/Versions.antt =====
-- What the first loop of `Sync` finds: the services of all engines, and whether a version is new.
use mathlib.Core.Option.{or_else}
use pgscv.Base.{
  ℕ, ◌+◌, ◌<◌, ◌≡◌, refl, ◌∙◌, String, false, Option, none, List, [], ◌∷◌, arith, string_eq, nat_eq,
  ◌==◌, if◌then◌else◌,
}
use pgscv.Base.Dict
use pgscv.Base.Dict.{Dict, NodupKeys, lookup-insert, lookup-copy, insert-NodupKeys}
use pgscv.Discovery.Types.{ClusterDsn, Engine}
use pgscv.Discovery.Subscribers.{version_or_zero, Scan, scan_engine, scan}

-- The entry of a service over all engines: the last engine that has one.
abbrev pub known : String → List Engine → Option ClusterDsn
known k [] = none
known k (e ∷ es) = or_else (known k es) (Dict.lookup k e.dsn)

-- The remembered versions are those of the engines, which are numbered from `i`.
abbrev pub Current : ℕ → List Engine → Dict ℕ ℕ → Type 0
Current i [] versions = Unit
Current i (e ∷ es) versions =
    (version_or_zero (Dict.lookup i versions) ≡ e.version) × Current (i + 1) es versions

copy-NodupKeys : (dst src : Dict String ClusterDsn) → NodupKeys dst → NodupKeys (Dict.copy dst src)
unfolding Dict.copy
copy-NodupKeys dst [] u = u
copy-NodupKeys dst ((k, d) ∷ src) u = insert-NodupKeys k d _ (copy-NodupKeys dst src u)

scan_engine_services :
    (i : ℕ) (e : Engine) (s : Scan) → (scan_engine i e s).services ≡ Dict.copy s.services e.dsn
unfolding scan_engine
scan_engine_services i e s = ground arith

scan_engine_versions :
    (i j : ℕ) (e : Engine) (s : Scan)
    → version_or_zero (Dict.lookup j (scan_engine i e s).versions)
      ≡ (if j == i then e.version else version_or_zero (Dict.lookup j s.versions))
unfolding scan_engine
scan_engine_versions i j e s = ground (arith, lookup-insert j i e.version s.versions)

scan_engine_current :
    (i : ℕ) (e : Engine) (s : Scan)
    → version_or_zero (Dict.lookup i s.versions) ≡ e.version
    → ((scan_engine i e s).versions ≡ s.versions) × ((scan_engine i e s).need_sync ≡ s.need_sync)
unfolding scan_engine
scan_engine_current i e s h = ground arith

scan_engine_stale :
    (i : ℕ) (e : Engine) (s : Scan)
    → (scan_engine i e s).need_sync ≡ false
    → (s.need_sync ≡ false)
      × (version_or_zero (Dict.lookup i s.versions) ≡ e.version)
      × ((scan_engine i e s).versions ≡ s.versions)
unfolding scan_engine
scan_engine_stale i e s h = ground arith

pub lookup-scan :
    (k : String) (i : ℕ) (es : List Engine) (s : Scan)
    → Dict.lookup k (scan i es s).services ≡ or_else (known k es) (Dict.lookup k s.services)
unfolding scan or_else
lookup-scan k i [] s = refl
lookup-scan k i (e ∷ es) s = ground (
  arith,
  lookup-scan k (i + 1) es (scan_engine i e s),
  scan_engine_services i e s,
  lookup-copy k s.services e.dsn,
)

pub scan-NodupKeys :
    (i : ℕ) (es : List Engine) (s : Scan) → NodupKeys s.services → NodupKeys (scan i es s).services
unfolding scan
scan-NodupKeys i [] s u = u
scan-NodupKeys i (e ∷ es) s u =
    scan-NodupKeys (i + 1) es (scan_engine i e s)
      (rw (scan_engine_services i e s) (copy-NodupKeys s.services e.dsn u))

versions_below :
    (i j : ℕ) (es : List Engine) (s : Scan)
    → j < i
    → version_or_zero (Dict.lookup j (scan i es s).versions)
      ≡ version_or_zero (Dict.lookup j s.versions)
unfolding scan
versions_below i j [] s h = refl
versions_below i j (e ∷ es) s h =
    ground (arith, versions_below (i + 1) j es (scan_engine i e s), scan_engine_versions i j e s)

-- After the loop the remembered versions are current.
pub scan-Current : (i : ℕ) (es : List Engine) (s : Scan) → Current i es (scan i es s).versions
unfolding scan
scan-Current i [] s = tt
scan-Current i (e ∷ es) s = (
  ground (arith, versions_below (i + 1) i es (scan_engine i e s), scan_engine_versions i i e s),
  scan-Current (i + 1) es (scan_engine i e s),
)

-- Where they were current before it, the loop finds nothing to do.
pub scan_same :
    (i : ℕ) (es : List Engine) (s : Scan)
    → Current i es s.versions
    → ((scan i es s).versions ≡ s.versions) × ((scan i es s).need_sync ≡ s.need_sync)
unfolding scan
scan_same i [] s h = (refl, refl)
scan_same i (e ∷ es) s h =
    let same = scan_engine_current i e s h.0 in
    let later = scan_same (i + 1) es (scan_engine i e s) (rw same.0 h.1) in
    (later.0 ∙ same.0, later.1 ∙ same.1)

-- And where it finds nothing to do, they were.
pub Current-of_scan :
    (i : ℕ) (es : List Engine) (s : Scan)
    → (scan i es s).need_sync ≡ false
    → (s.need_sync ≡ false) × Current i es s.versions
unfolding scan
Current-of_scan i [] s h = (h, tt)
Current-of_scan i (e ∷ es) s h =
    let later = Current-of_scan (i + 1) es (scan_engine i e s) h in
    let same = scan_engine_stale i e s later.0 in (same.0, (same.1, rw same.2 at (later.1)))
