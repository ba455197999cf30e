-- ===== src/Discovery/Subscribers/Join.antt =====
-- What a round announces, and what it remembers as announced.
use pgscv.Base.{
  ◌≡◌, refl, String, Bool, true, false, ◌&&◌, ◌||◌, Option, none, some, List, [], ◌∷◌, ◌++◌, arith,
  string_eq, ◌==◌, contains, if◌then◌else◌,
}
use pgscv.Base.Dict
use pgscv.Base.Dict.{Dict, lookup-insert, lookup-erase}
use pgscv.Mapops.{Joined, left_only, both, right_only, key, entry, NodupEntries}
use pgscv.Discovery.Types.{ClusterDsn, Service}
use pgscv.Discovery.Subscribers.{or_zero, service_of, Changes, change, changes}

contains-append :
    (xs ys : List String) (k : String) → contains (xs ++ ys) k ≡ (contains xs k || contains ys k)
contains-append [] ys k = refl
contains-append (x ∷ xs) ys k = ground (arith, contains-append xs ys k)

-- What an entry of the join does to its key in each of the three results.
abbrev pub synced_by : Service → Option (Joined String) → Option Service → Option Service
synced_by svc none old = old
synced_by svc (some (left_only _)) old = some svc
synced_by svc (some (both _)) old = old
synced_by svc (some (right_only _)) old = none

abbrev pub appended_by : Service → Option (Joined String) → Option Service → Option Service
appended_by svc none old = old
appended_by svc (some (left_only _)) old = some svc
appended_by svc (some (both _)) old = old
appended_by svc (some (right_only _)) old = old

abbrev pub removed_by : Option (Joined String) → Bool
removed_by none = false
removed_by (some (left_only _)) = false
removed_by (some (both _)) = false
removed_by (some (right_only _)) = true

module _ (services : Dict String ClusterDsn) (k : String) where
  abbrev pub announced : Service
  announced = service_of (or_zero (Dict.lookup k services))

  change_synced :
      (j : Joined String) (c : Changes)
      → Dict.lookup k (change services j c).synced ≡ (
          if k == key j
          then synced_by announced (some j) (Dict.lookup k c.synced)
          else Dict.lookup k c.synced)
  unfolding change
  change_synced (left_only j) c =
      ground (arith, lookup-insert k j (service_of (or_zero (Dict.lookup j services))) c.synced)
  change_synced (both j) c = ground arith
  change_synced (right_only j) c = ground (arith, lookup-erase k j c.synced)

  change_append_svc :
      (j : Joined String) (c : Changes)
      → Dict.lookup k (change services j c).append_svc ≡ (
          if k == key j
          then appended_by announced (some j) (Dict.lookup k c.append_svc)
          else Dict.lookup k c.append_svc)
  unfolding change
  change_append_svc (left_only j) c =
      ground (arith, lookup-insert k j (service_of (or_zero (Dict.lookup j services))) c.append_svc)
  change_append_svc (both j) c = ground arith
  change_append_svc (right_only j) c = ground arith

  change_remove_svc :
      (j : Joined String) (c : Changes)
      → contains (change services j c).remove_svc k
        ≡ (contains c.remove_svc k || (k == key j && removed_by (some j)))
  unfolding change
  change_remove_svc (left_only j) c = ground arith
  change_remove_svc (both j) c = ground arith
  change_remove_svc (right_only j) c = ground (arith, contains-append c.remove_svc (j ∷ []) k)

  pub changes_synced :
      (js : List (Joined String)) (c : Changes)
      → NodupEntries js
      → Dict.lookup k (changes services js c).synced
        ≡ synced_by announced (entry k js) (Dict.lookup k c.synced)
  unfolding changes
  changes_synced [] c u = refl
  changes_synced (j ∷ js) c u =
      ground (arith, changes_synced js (change services j c) u.1, change_synced j c)

  pub changes_append_svc :
      (js : List (Joined String)) (c : Changes)
      → NodupEntries js
      → Dict.lookup k (changes services js c).append_svc
        ≡ appended_by announced (entry k js) (Dict.lookup k c.append_svc)
  unfolding changes
  changes_append_svc [] c u = refl
  changes_append_svc (j ∷ js) c u =
      ground (arith, changes_append_svc js (change services j c) u.1, change_append_svc j c)

  pub changes_remove_svc :
      (js : List (Joined String)) (c : Changes)
      → NodupEntries js
      → contains (changes services js c).remove_svc k
        ≡ (contains c.remove_svc k || removed_by (entry k js))
  unfolding changes
  changes_remove_svc [] c u = ground arith
  changes_remove_svc (j ∷ js) c u =
      ground (arith, changes_remove_svc js (change services j c) u.1, change_remove_svc j c)
