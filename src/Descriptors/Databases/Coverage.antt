-- ===== src/Descriptors/Databases/Coverage.antt =====
-- Which sets are collected where.
use mathlib.Core.List.{append_assoc}
use pgscv.Base.{
  ◌≡◌, refl, sym, ap, ◌∙◌, inl, inr, Option-cases, String, true, false, Option, none, some, List,
  [], ◌∷◌, ◌++◌, arith, if◌then◌else◌, is_some, all,
}
use pgscv.Base.External.{Regexps, Floats}
use pgscv.Descriptors.{Prometheus}
use pgscv.Descriptors.Single.{Sent}
use pgscv.Descriptors.Multiple.{and_then}
use pgscv.Descriptors.Sets.{TypedDescSet}
use pgscv.Descriptors.Databases.{
  Server, update_single_desc_set, matches, update_database, update_databases,
  update_from_multiple_databases, update_sets, update_from_single_database, need_multiple_update,
  update_all_desc_sets,
}

and_then_assoc :
    {F : Floats} (a b c : Sent F) → and_then (and_then a b) c ≡ and_then a (and_then b c)
unfolding and_then
and_then_assoc none b c = refl
and_then_assoc (some ms) none c = refl
and_then_assoc (some ms) (some ns) none = refl
and_then_assoc (some ms) (some ns) (some os) = ap some (append_assoc ms ns os)

first_nothing : {F : Floats} (a : Sent F) → and_then (some []) a ≡ a
unfolding and_then
first_nothing none = refl
first_nothing (some ms) = refl

module _ ⦃R : Regexps⦄ ⦃F : Floats⦄ (prom : Prometheus) (server : Server) where
  -- Where to collect: a database by its name, or the configured one, and the set.
  abbrev pub Visits : Type 0
  Visits = List (Option String × TypedDescSet R F)

  -- All the visits, one after the other.
  abbrev pub collect_all : Visits → Sent F
  unfolding and_then
  collect_all [] = some []
  collect_all ((database, set) ∷ visits) =
      and_then (update_single_desc_set prom server database set) (collect_all visits)

  -- A database is visited for every set whose pattern matches it, and the configured database for every set
  -- that has no pattern.
  abbrev pub visits_to : String → List (TypedDescSet R F) → Visits
  visits_to database [] = []
  visits_to database (set ∷ sets) =
      let rest = visits_to database sets in
      if matches prom set.databases_re database then (some database, set) ∷ rest else rest

  abbrev pub visits_to_all : List String → List (TypedDescSet R F) → Visits
  visits_to_all [] sets = []
  visits_to_all (database ∷ databases) sets =
      visits_to database sets ++ visits_to_all databases sets

  abbrev pub visits_home : List (TypedDescSet R F) → Visits
  visits_home [] = []
  visits_home (set ∷ sets) =
      let rest = visits_home sets in if is_some set.databases_re then rest else (none, set) ∷ rest

  collect_all-append :
      (v w : Visits) → collect_all (v ++ w) ≡ and_then (collect_all v) (collect_all w)
  unfolding and_then
  collect_all-append [] w = sym (first_nothing (collect_all w))
  collect_all-append ((database, set) ∷ v) w =
      ap (and_then (update_single_desc_set prom server database set)) (collect_all-append v w)
      ∙ sym (
          and_then_assoc (update_single_desc_set prom server database set) (collect_all v)
            (collect_all w))

  update_database_lem :
      (database : String) (sets : List (TypedDescSet R F))
      → server.connects_to database ≡ true
      → update_database prom server database sets ≡ (collect_all (visits_to database sets), true)
  unfolding update_database
  update_database_lem database [] h = refl
  update_database_lem database (set ∷ sets) h = ground (arith, update_database_lem database sets)

  update_databases_lem :
      (databases : List String) (sets : List (TypedDescSet R F))
      → all server.connects_to databases ≡ true
      → update_databases prom server databases sets
        ≡ (collect_all (visits_to_all databases sets), true)
  unfolding update_databases
  update_databases_lem [] sets h = refl
  update_databases_lem (database ∷ databases) sets h = ground (
    arith,
    update_database_lem database sets,
    update_databases_lem databases sets,
    collect_all-append (visits_to database sets) (visits_to_all databases sets),
  )

  update_sets_lem :
      (sets : List (TypedDescSet R F))
      → update_sets prom server sets ≡ collect_all (visits_home sets)
  unfolding update_sets
  update_sets_lem [] = refl
  update_sets_lem (set ∷ sets) = ground (arith, update_sets_lem sets)

  -- Without a pattern in any set, no database is visited by its name.
  visits_to_none :
      (database : String) (sets : List (TypedDescSet R F))
      → need_multiple_update prom sets ≡ false
      → visits_to database sets ≡ []
  unfolding need_multiple_update
  visits_to_none database [] h = refl
  visits_to_none database (set ∷ sets) h = elim (Option-cases set.databases_re) [
    | inl nil ↦ ground (arith, visits_to_none database sets)
    | inr (re, given) ↦ ground arith
  ]

  visits_to_all_none :
      (databases : List String) (sets : List (TypedDescSet R F))
      → need_multiple_update prom sets ≡ false
      → visits_to_all databases sets ≡ []
  visits_to_all_none [] sets h = refl
  visits_to_all_none (database ∷ databases) sets h =
      rw (visits_to_none database sets h) (visits_to_all_none databases sets h)

  -- On a server where every connection is made, the sets with a pattern are collected in each database
  -- that the pattern matches, database by database, and then the sets without one in the configured
  -- database: each exactly once.
  pub update_all_desc_sets_lem :
      (databases : List String) (sets : List (TypedDescSet R F))
      → server.connects ≡ true
      → server.parses ≡ true
      → server.databases ≡ some databases
      → all server.connects_to databases ≡ true
      → update_all_desc_sets prom server sets
        ≡ collect_all (visits_to_all databases sets ++ visits_home sets)
  unfolding update_all_desc_sets update_from_multiple_databases update_from_single_database and_then
  update_all_desc_sets_lem databases sets connects parses listed all_connect = ground (
    arith,
    update_databases_lem databases sets all_connect,
    update_sets_lem sets,
    visits_to_all_none databases sets,
    collect_all-append (visits_to_all databases sets) (visits_home sets),
    first_nothing (collect_all (visits_home sets)),
  )
