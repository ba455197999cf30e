-- ===== src/Base/Counts.antt =====
-- Maps that count: the value at a key that is missing is 0.
use Prim.Native.Nat.{ℕ, ◌+◌}
use Prim.Native.String.{String}
use mathlib.Core.Bool.{Bool}
use mathlib.Core.List.{[], ◌∷◌}
use mathlib.Core.Option.{none, some}
use mathlib.Core.Path.{◌≡◌}
use native.Mathlib.Omega.{arith}
use pgscv.Base.Dict
use pgscv.Base.Dict.{Dict}
use pgscv.Base.Equality.{if◌then◌else◌, ◌==◌, string_eq}

abbrev pub count_at : String → Dict String ℕ → ℕ
count_at key m = elim (Dict.lookup key m) [ none ↦ 0 | some n ↦ n ]

-- `m[key]++`
unfoldable pub count_up : String → Dict String ℕ → Dict String ℕ
count_up key m = Dict.insert key (count_at key m + 1) m

-- One more where a test holds.
abbrev pub one_if : Bool → ℕ
one_if b = if b then 1 else 0

-- All counts together.
abbrev pub sum_counts : Dict String ℕ → ℕ
sum_counts [] = 0
sum_counts ((_, n) ∷ m) = n + sum_counts m

pub count_at-count_up :
    (key k : String) (m : Dict String ℕ)
    → count_at key (count_up k m) ≡ count_at key m + one_if (key == k)
unfolding count_up
count_at-count_up key k m = ground (arith, Dict.lookup-insert key k (count_at k m + 1) m)

sum_counts-insert :
    (k : String) (n : ℕ) (m : Dict String ℕ)
    → sum_counts (Dict.insert k n m) + count_at k m ≡ sum_counts m + n
unfolding Dict.insert Dict.lookup
sum_counts-insert k n [] = omega arith
sum_counts-insert k n ((j, i) ∷ m) = ground (arith, sum_counts-insert k n m)

pub sum_counts-count_up :
    (k : String) (m : Dict String ℕ) → sum_counts (count_up k m) ≡ sum_counts m + 1
unfolding count_up
sum_counts-count_up k m = omega (arith, sum_counts-insert k (count_at k m + 1) m)
