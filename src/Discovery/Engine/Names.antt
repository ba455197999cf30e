-- ===== src/Discovery/Engine/Names.antt =====
-- `makeValidMetricName`: the cloud's domain is cut out, and what a metric name cannot hold becomes `_`.
use Prim.Native.Char.{code}
use pgscv.Base.{ℕ, ◌+◌, String, Bool, ◌&&◌, ◌||◌, leb, ltb, if◌then◌else◌}
use pgscv.Base.Text.{replace_first}

abbrev pub in_range : ℕ → ℕ → ℕ → Bool
in_range lo hi c = leb lo c && leb c hi

-- The test on the character at byte `i`.
abbrev pub stays : ℕ → ℕ → Bool
stays i c =
    in_range b'a' b'z' c
    || in_range b'A' b'Z' c
    || in_range b'_' b'_' c
    || in_range b':' b':' c
    || in_range b'0' b'9' c && ltb 0 i

-- The loop. The index is looked at only to tell the first character from the others.
unfoldable pub clean : ℕ → String → String
clean i String.[] = String.[]
clean i (String.◌∷◌ c s) = String.◌∷◌ (if stays i (code c) then c else "_") (clean (i + 1) s)

unfoldable pub make_valid_metric_name : String → String
unfolding clean replace_first
make_valid_metric_name s = clean 0 (replace_first s ".mdb.yandexcloud.net" "")
