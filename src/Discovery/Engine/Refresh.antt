-- ===== src/Discovery/Engine/Refresh.antt =====
-- What one round of an engine leaves, and what its version tells.
use mathlib.Core.Option.{or_else}
use pgscv.Base.{
  ℕ, ◌+◌, ◌*◌, ◌≤◌, ◌<◌, ◌≡◌, refl, ◌≢◌, String, true, not, ◌&&◌, none, some, List, [], ◌∷◌, arith,
  string_eq, contains, if◌then◌else◌, is_some, length, Bool-cases, inl, inr,
}
use pgscv.Base.Dict
use pgscv.Base.Dict.{Dict, lookup-insert, lookup-erase, contains-keys}
use pgscv.Discovery.Types.{ClusterDsn, Engine, u64}
use pgscv.Discovery.Engine.{Cluster, Known, add_clusters, append_new, drop_gone, refresh}

lookup-append_new :
    (k : String) (found : Dict String ClusterDsn) (s : Known)
    → Dict.lookup k (append_new found s).dsn ≡ or_else (Dict.lookup k s.dsn) (Dict.lookup k found)
unfolding append_new Dict.lookup or_else
lookup-append_new k [] s = ground arith
lookup-append_new k ((j, d) ∷ found) s = ground (
  arith,
  lookup-append_new k found s,
  lookup-append_new k found (record { dsn = Dict.insert j d s.dsn; version = u64 (s.version + 1) }),
  lookup-insert k j d s.dsn,
)

lookup-drop_gone :
    (k : String) (ks : List String) (found : Dict String ClusterDsn) (s : Known)
    → Dict.lookup k (drop_gone ks found s).dsn
      ≡ (if contains ks k && not (is_some (Dict.lookup k found)) then none else Dict.lookup k s.dsn)
unfolding drop_gone Dict.lookup or_else
lookup-drop_gone k [] found s = refl
lookup-drop_gone k (j ∷ ks) found s = ground (
  arith,
  lookup-drop_gone k ks found s,
  lookup-drop_gone k ks found (record { dsn = Dict.erase j s.dsn; version = u64 (s.version + 1) }),
  lookup-erase k j s.dsn,
)

-- The map that the engine builds from an answer of the cloud.
abbrev pub answer : Engine → List Cluster → Dict String ClusterDsn
answer e clusters = add_clusters e clusters []

-- After a round, the engine knows exactly the databases of the answer; one that it knew before keeps
-- the entry that it had.
pub lookup-refresh :
    (k : String) (clusters : List Cluster) (e : Engine)
    → Dict.lookup k (refresh (some clusters) e).dsn ≡ (
        if is_some (Dict.lookup k (answer e clusters))
        then or_else (Dict.lookup k e.dsn) (Dict.lookup k (answer e clusters))
        else none)
unfolding refresh or_else
lookup-refresh k clusters e =
    let found = answer e clusters in
    let added = append_new found (record { dsn = e.dsn; version = e.version }) in
    ground (
      arith,
      lookup-drop_gone k (Dict.keys added.dsn) found added,
      contains-keys added.dsn k,
      lookup-append_new k found (record { dsn = e.dsn; version = e.version }),
    )

append_new-eq_self :
    (found : Dict String ClusterDsn) (s : Known)
    → ((k : String) → Dict.lookup k found ≢ none → is_some (Dict.lookup k s.dsn) ≡ true)
    → append_new found s ≡ s
unfolding append_new Dict.lookup
append_new-eq_self [] s known = refl
append_new-eq_self ((j, d) ∷ found) s known =
    rw (known j (ground arith)) (append_new-eq_self found s (λ k h. known k (ground arith)))

drop_gone-eq_self :
    (ks : List String) (found : Dict String ClusterDsn) (s : Known)
    → ((k : String) → contains ks k ≡ true → is_some (Dict.lookup k found) ≡ true)
    → drop_gone ks found s ≡ s
unfolding drop_gone
drop_gone-eq_self [] found s known = refl
drop_gone-eq_self (j ∷ ks) found s known =
    rw (known j (ground arith)) (drop_gone-eq_self ks found s (λ k h. known k (ground arith)))

-- A round whose answer has just the databases that are known changes nothing, the version included.
pub refresh-eq_self :
    (clusters : List Cluster) (e : Engine)
    → ((k : String) → is_some (Dict.lookup k (answer e clusters)) ≡ is_some (Dict.lookup k e.dsn))
    → refresh (some clusters) e ≡ e
unfolding refresh
refresh-eq_self clusters e same =
    let found = answer e clusters in
    let start : Known = record { dsn = e.dsn; version = e.version } in
    rw (append_new-eq_self found start (λ k h. ground (arith, same k))) (
      rw (
        drop_gone-eq_self (Dict.keys e.dsn) found start
          (λ k h. ground (arith, same k, contains-keys e.dsn k))))

-- How many keys a loop has counted, and that it has counted each that it should.
Counted : ℕ → ℕ → ℕ → (String → Type 0) → Type 0
Counted before after most P =
    (n : ℕ) × (n ≤ most) × (u64 after ≡ u64 (before + n)) × ((k : String) → P k → 0 < n)

append_new-Counted :
    (found : Dict String ClusterDsn) (s : Known)
    → Counted s.version
        (append_new found s).version
        (length found)
        (λ k. (Dict.lookup k s.dsn ≡ none) × (Dict.lookup k found ≢ none))
unfolding append_new Dict.lookup Counted
append_new-Counted [] s = (0, omega arith, omega arith, λ k h. absurd (h.1 refl))
append_new-Counted ((j, d) ∷ found) s = elim (Bool-cases (is_some (Dict.lookup j s.dsn))) [
  | inl old ↦
      let (n, most, v, all) = append_new-Counted found s in
      (n, omega arith, rw (old, append_new) v, λ k h. all k (h.0, ground arith))
  | inr new ↦
      let t : Known = record { dsn = Dict.insert j d s.dsn; version = u64 (s.version + 1) } in
      let (n, most, v, all) = append_new-Counted found t in
      (n + 1, omega arith, rw (new, append_new) (omega arith), λ k h. omega arith)
]

drop_gone-Counted :
    (ks : List String) (found : Dict String ClusterDsn) (s : Known)
    → Counted s.version
        (drop_gone ks found s).version
        (length ks)
        (λ k. (contains ks k ≡ true) × (Dict.lookup k found ≡ none))
unfolding drop_gone Counted
drop_gone-Counted [] found s = (0, omega arith, omega arith, λ k h. cc)
drop_gone-Counted (j ∷ ks) found s = elim (Bool-cases (is_some (Dict.lookup j found))) [
  | inl here ↦
      let (n, most, v, all) = drop_gone-Counted ks found s in
      (n, omega arith, rw (here, drop_gone) v, λ k h. all k (ground arith, h.1))
  | inr gone ↦
      let t : Known = record { dsn = Dict.erase j s.dsn; version = u64 (s.version + 1) } in
      let (n, most, v, all) = drop_gone-Counted ks found t in
      (n + 1, omega arith, rw (gone, drop_gone) (omega arith), λ k h. omega arith)
]

length-keys-insert :
    (k : String) (d : ClusterDsn) (m : Dict String ClusterDsn)
    → length (Dict.keys (Dict.insert k d m)) ≤ length (Dict.keys m) + 1
unfolding Dict.insert Dict.keys
length-keys-insert k d [] = omega arith
length-keys-insert k d ((j, _) ∷ m) = ground (arith, length-keys-insert k d m)

length-keys-append_new :
    (found : Dict String ClusterDsn) (s : Known)
    → length (Dict.keys (append_new found s).dsn) ≤ length (Dict.keys s.dsn) + length found
unfolding append_new
length-keys-append_new [] s = omega arith
length-keys-append_new ((j, d) ∷ found) s = ground (
  arith,
  length-keys-append_new found s,
  length-keys-append_new found
      (record { dsn = Dict.insert j d s.dsn; version = u64 (s.version + 1) }),
  length-keys-insert j d s.dsn,
)

-- A round that brings or takes a database changes the version, a uint64, if the databases are few
-- enough that the round cannot count 2 ^ 64 of them: a subscriber that compares versions sees it.
pub version-refresh :
    (clusters : List Cluster) (e : Engine) (k : String)
    → e.version < 18446744073709551616
    → 2 * length (answer e clusters) + length (Dict.keys e.dsn) < 18446744073709551616
    → is_some (Dict.lookup k (answer e clusters)) ≢ is_some (Dict.lookup k e.dsn)
    → (refresh (some clusters) e).version ≢ e.version
unfolding refresh Counted or_else
version-refresh clusters e k small few differ =
    let found = answer e clusters in
    let start : Known = record { dsn = e.dsn; version = e.version } in
    let added = append_new found start in
    let size = length-keys-append_new found start in
    let (n, most, v, all) = append_new-Counted found start in
    let (m, most', v', all') = drop_gone-Counted (Dict.keys added.dsn) found added in
    elim (Bool-cases (is_some (Dict.lookup k found))) [
      | inl here ↦ let p : 0 < n = all k (ground arith, ground arith) in omega arith
      | inr gone ↦
          let listed : contains (Dict.keys added.dsn) k ≡ true =
            ground (arith, contains-keys added.dsn k, lookup-append_new k found start) in
          let p : 0 < m = all' k (listed, ground arith) in omega arith
    ]
