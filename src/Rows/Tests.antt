-- ===== src/Rows/Tests.antt =====
-- Rows with two labels and a value.
use pgscv.Base.{◌≡◌, refl, String, true, none, some, List, [], ◌∷◌, string_eq, nat_eq}
use mathlib.Core.Option
use pgscv.Base.Dict
use pgscv.Base.Samples.{whole_floats}
use pgscv.Model.{NullString, PgResult}
use pgscv.Rows.{
  Cells, cells_of, GenericStat, parse_postgres_generic_stats, parse_postgres_custom_stats, row_key,
}
use pgscv.Rows.Laws.{
  last_row, Says, lookup-parse_postgres_generic_stats, lookup-parse_postgres_custom_stats,
}

abbrev text : String → NullString
text s = record { text = s; valid = true }

abbrev labels : List String
labels = "user" ∷ "database" ∷ []

abbrev result : PgResult
result = record {
  colnames = "user" ∷ "database" ∷ "total" ∷ [];
  rows =
      (text "ann" ∷ text "shop" ∷ text "1" ∷ []) ∷ (text "ann" ∷ text "shop" ∷ text "42" ∷ []) ∷ [];
}

abbrev last : Cells
last = ("user", text "ann") ∷ ("database", text "shop") ∷ ("total", text "42") ∷ []

-- Two rows with different labels make the same key.
keys_collide :
    row_key labels (("user", text "a/b") ∷ ("database", text "c") ∷ [])
    ≡ row_key labels (("user", text "a") ∷ ("database", text "b/c") ∷ [])
unfolding row_key string_eq
keys_collide = refl

lookup-parse_postgres_generic_stats_example :
    (last_row labels "ann/shop" (cells_of result.colnames result.rows) ≡ none
      → Dict.lookup "ann/shop" (parse_postgres_generic_stats result labels) ≡ none)
    × ((cells : Cells)
        → last_row labels "ann/shop" (cells_of result.colnames result.rows) ≡ some cells
        → (stat : GenericStat whole_floats) × (Dict.lookup "ann/shop"
              (parse_postgres_generic_stats result labels)
            ≡ some stat)
          × Says labels cells stat)
unfolding mathlib.Core.List.zip Dict.lookup string_eq
lookup-parse_postgres_generic_stats_example =
    lookup-parse_postgres_generic_stats labels result "ann/shop"
      ((refl, (refl, (refl, tt))), ((refl, (refl, (refl, tt))), tt))

lookup-parse_postgres_custom_stats_example :
    Dict.lookup "ann/shop" (parse_postgres_custom_stats result labels)
    ≡ Option.map
        (λ stat. stat.values)
        (Dict.lookup "ann/shop" (parse_postgres_generic_stats result labels))
lookup-parse_postgres_custom_stats_example =
    lookup-parse_postgres_custom_stats labels result "ann/shop"
