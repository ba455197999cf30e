-- ===== src/Activity/Parse/Columns.antt =====
-- Each part of the statistics is written by one column alone.
use pgscv.Base.{
  ◌≡◌, refl, ◌∙◌, ℕ, ◌+◌, String, Bool, true, false, Option, none, some, List, [], ◌∷◌, arith, ◌==◌,
  string_eq, if◌then◌else◌, Bool-cases, inl, inr,
}
use pgscv.Base.Dict
use pgscv.Base.Dict.{Dict, NodupKeys}
use pgscv.Base.External.{Regexps, Floats}
use pgscv.Model.{NullString}
use pgscv.Base.Counts.{count_up}
use pgscv.Activity.{ActivityStat}
use pgscv.Activity.Updates.{
  update_state, update_max_idletime_duration, update_max_runtime_duration,
  update_max_waittime_duration, update_vacuum, update_query_stat, stat_key,
}
use pgscv.Activity.Parse.{
  Reader, take_state, take_wait, take_active_seconds, take_waiting_seconds, take_query, take_column,
  take_columns,
}

pub if_true {ℓ} : {A : Type ℓ} {b : Bool} (x y : A) → b ≡ true → (if b then x else y) ≡ x
if_true x y h = rw h refl

pub if_false {ℓ} : {A : Type ℓ} {b : Bool} (x y : A) → b ≡ false → (if b then x else y) ≡ y
if_false x y h = rw h refl

pub other_way : (a b : String) → (a == b) ≡ false → (b == a) ≡ false
other_way a b h = ground arith

pub lookup-cons_none :
    (k j : String) (cell : NullString) (cells : List (String × NullString))
    → Dict.lookup k ((j, cell) ∷ cells) ≡ none
    → ((k == j) ≡ false) × (Dict.lookup k cells ≡ none)
lookup-cons_none k j cell cells h = ground (arith, Dict.lookup-cons k j cell cells)

module _ ⦃R : Regexps⦄ ⦃F : Floats⦄ where
  -- Two statistics agree on the counts of states, and on the number of queries.
  abbrev pub SameStates : ActivityStat R F → ActivityStat R F → Type 0
  SameStates s t =
      (t.active ≡ s.active) × (t.idle ≡ s.idle) × (t.idlexact ≡ s.idlexact) × (t.other ≡ s.other)

  abbrev pub total_queries : ActivityStat R F → ℕ
  total_queries s =
      s.query_select + s.query_mod + s.query_ddl + s.query_maint + s.query_with + s.query_copy
      + s.query_other

  abbrev pub SameQueries : ActivityStat R F → ActivityStat R F → Type 0
  SameQueries s t = total_queries t ≡ total_queries s

  -- A backend that waits is counted there alone.
  update_state_waiting :
      (usename datname : String) (s : ActivityStat R F)
      → update_state usename datname "waiting" s
        ≡ record s { waiting = count_up (stat_key usename datname) s.waiting }
  unfolding update_state string_eq
  update_state_waiting usename datname s = refl

  SameStates-trans : (s t u : ActivityStat R F) → SameStates s t → SameStates t u → SameStates s u
  SameStates-trans s t u h k = ground arith

  module _ (wait : String) (at : Reader) where
    take_wait-Same :
        (cell : NullString) (s : ActivityStat R F)
        → SameStates s (take_wait wait at cell s) × SameQueries s (take_wait wait at cell s)
    unfolding take_wait
    take_wait-Same cell s =
        ground (arith, update_state_waiting (at "user").text (at "database").text s)

    take_active_seconds-Same :
        (cell : NullString) (s : ActivityStat R F)
        → SameStates s (take_active_seconds wait at cell s)
          × SameQueries s (take_active_seconds wait at cell s)
    unfolding take_active_seconds update_max_idletime_duration update_max_runtime_duration
    take_active_seconds-Same cell s = ground arith

    take_waiting_seconds-Same :
        (cell : NullString) (s : ActivityStat R F)
        → SameStates s (take_waiting_seconds wait at cell s)
          × SameQueries s (take_waiting_seconds wait at cell s)
    unfolding take_waiting_seconds update_max_waittime_duration
    take_waiting_seconds-Same cell s = ground arith

    take_query-Same :
        (cell : NullString) (s : ActivityStat R F) → SameStates s (take_query wait at cell s)
    unfolding take_query update_query_stat update_vacuum
    take_query-Same cell s = ground arith

    take_state-Same :
        (cell : NullString) (s : ActivityStat R F) → SameQueries s (take_state wait at cell s)
    unfolding take_state update_state
    take_state-Same cell s = ground arith

    take_column-SameStates :
        (colname : String) (cell : NullString) (s : ActivityStat R F)
        → (colname == "state") ≡ false
        → SameStates s (take_column wait at colname cell s)
    unfolding take_column
    take_column-SameStates colname cell s other = ground (
      arith,
      take_wait-Same cell s,
      take_active_seconds-Same cell s,
      take_waiting_seconds-Same cell s,
      take_query-Same cell s,
    )

    pub take_column-SameQueries :
        (colname : String) (cell : NullString) (s : ActivityStat R F)
        → (colname == "query") ≡ false
        → SameQueries s (take_column wait at colname cell s)
    unfolding take_column
    take_column-SameQueries colname cell s other = ground (
      arith,
      take_state-Same cell s,
      take_wait-Same cell s,
      take_active_seconds-Same cell s,
      take_waiting_seconds-Same cell s,
    )

    -- What a row does to the counts of states: the update by its state, if it has one.
    abbrev pub state_effect : Option NullString → ActivityStat R F → ActivityStat R F
    state_effect none s = s
    state_effect (some cell) s = if cell.valid then take_state wait at cell s else s

    state_effect_resp :
        (o : Option NullString) (s t : ActivityStat R F)
        → SameStates s t
        → SameStates (state_effect o s) (state_effect o t)
    unfolding take_state update_state
    state_effect_resp none s t h = h
    state_effect_resp (some cell) s t h = ground arith

    take_column_state :
        (colname : String) (cell : NullString) (s : ActivityStat R F)
        → (colname == "state") ≡ true
        → take_column wait at colname cell s ≡ state_effect (some cell) s
    unfolding take_column
    take_column_state colname cell s h = ground arith

    abbrev no_cells : List (String × NullString)
    no_cells = []

    empty_states :
        (s : ActivityStat R F) → SameStates (state_effect (Dict.lookup "state" no_cells) s) s
    unfolding Dict.lookup
    empty_states s = (refl, refl, refl, refl)

    SameStates-at :
        (o p : Option NullString) (s next t : ActivityStat R F)
        → o ≡ p
        → next ≡ state_effect p s
        → SameStates next t
        → SameStates (state_effect o s) t
    SameStates-at o p s next t same effect h = rw (same, ← effect) h

    -- Without the column, the counts stay.
    take_columns-SameStates :
        (cells : List (String × NullString)) (s : ActivityStat R F)
        → Dict.lookup "state" cells ≡ none
        → SameStates s (take_columns wait at cells s)
    unfolding take_columns
    take_columns-SameStates [] s h = (refl, refl, refl, refl)
    take_columns-SameStates ((colname, cell) ∷ cells) s h =
        let (other, later) = lookup-cons_none "state" colname cell cells h in
        let next = take_column wait at colname cell s in
        SameStates-trans s next (take_columns wait at cells next)
          (take_column-SameStates colname cell s (other_way "state" colname other))
          (take_columns-SameStates cells next later)

    -- A row changes the counts of states by its cell of that column alone.
    pub take_columns_states :
        (cells : List (String × NullString)) (s : ActivityStat R F)
        → NodupKeys cells
        → SameStates (state_effect (Dict.lookup "state" cells) s) (take_columns wait at cells s)
    unfolding take_columns
    take_columns_states [] s u = empty_states s
    take_columns_states ((colname, cell) ∷ cells) s (fresh, u) =
        let next = take_column wait at colname cell s in
        let looked = Dict.lookup-cons "state" colname cell cells in
        elim (Bool-cases ("state" == colname)) [
          | inl here ↦
              let same : "state" ≡ colname = ground arith in
              SameStates-at (Dict.lookup "state" ((colname, cell) ∷ cells)) (some cell) s next
                (take_columns wait at cells next)
                (looked ∙ if_true (some cell) (Dict.lookup "state" cells) here)
                (take_column_state colname cell s (ground arith))
                (take_columns-SameStates cells next (rw same fresh))
          | inr other ↦
              SameStates-at (Dict.lookup "state" ((colname, cell) ∷ cells))
                (Dict.lookup "state" cells) s (state_effect (Dict.lookup "state" cells) s)
                (take_columns wait at cells next)
                (looked ∙ if_false (some cell) (Dict.lookup "state" cells) other) refl
                (SameStates-trans (state_effect (Dict.lookup "state" cells) s)
                  (state_effect (Dict.lookup "state" cells) next) (take_columns wait at cells next)
                  (state_effect_resp (Dict.lookup "state" cells) s next
                    (take_column-SameStates colname cell s (other_way "state" colname other)))
                  (take_columns_states cells next u))
        ]
