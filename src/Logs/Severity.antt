-- ===== src/Logs/Severity.antt =====
-- What a line of the log adds to the counters.
use pgscv.Base.{
  ◌≡◌, refl, inl, inr, String, Bool, true, false, not, ◌&&◌, Option, none, some, [], ◌∷◌, arith,
  ◌==◌, string_eq, Option-cases,
}
use pgscv.Base.Dict
use pgscv.Base.Dict.{Dict, NodupKeys}
use pgscv.Base.External.{Regexps}
use pgscv.Logs.{LogParser, first_match, parse_message_severity}

module _ ⦃R : Regexps⦄ where
  -- The pattern of a severity matches the line.
  abbrev pub matches : Dict String R.Regexp → String → String → Bool
  matches m line level = elim (Dict.lookup level m) [
    | none ↦ false
    | some re ↦ R.match_string re line
  ]

  -- The patterns in some order.
  abbrev pub Reordered : Dict String R.Regexp → Dict String R.Regexp → Type 0
  Reordered range m = NodupKeys range × ((k : String) → Dict.lookup k range ≡ Dict.lookup k m)

  first_match-matches :
      (m : Dict String R.Regexp) (line level : String)
      → NodupKeys m
      → first_match m line ≡ some level
      → matches m line level ≡ true
  unfolding first_match Dict.lookup
  first_match-matches [] line level u h = ground arith
  first_match-matches ((name, re) ∷ m) line level (fresh, u) h =
      ground (arith, first_match-matches m line level u)

  first_match-none :
      (m : Dict String R.Regexp) (line level : String)
      → first_match m line ≡ none
      → matches m line level ≡ false
  unfolding first_match Dict.lookup
  first_match-none [] line level h = refl
  first_match-none ((name, re) ∷ m) line level h = ground (arith, first_match-none m line level)

  -- A line that is not empty and that the pattern of the severity matches.
  abbrev pub is_level : LogParser R → String → String → Bool
  is_level p level line = not (line == "") && matches p.re_severity line level

  -- No two severities match the line.
  abbrev pub OneLevel : LogParser R → String → Type 0
  OneLevel p line =
      (j k : String)
      → matches p.re_severity line j ≡ true
      → matches p.re_severity line k ≡ true
      → j ≡ k

  abbrev pub is_found : String → Option String → Bool
  is_found level none = false
  is_found level (some m) = level == m

  pub parse_message_severity-is_level :
      (p : LogParser R) (range : Dict String R.Regexp) (line level : String)
      → Reordered range p.re_severity
      → OneLevel p line
      → is_found level (parse_message_severity range line) ≡ is_level p level line
  unfolding parse_message_severity
  parse_message_severity-is_level p range line level (u, same) one =
      elim (Option-cases (first_match range line)) [
        | inl absent ↦ ground (arith, absent, first_match-none range line level absent, same level)
        | inr (m, found) ↦ ground (
          arith,
          found,
          first_match-matches range line m u found,
          same m,
          same level,
          one level m,
        )
      ]
