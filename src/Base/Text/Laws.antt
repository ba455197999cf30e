-- ===== src/Base/Text/Laws.antt =====
-- What a text has after a prefix.
use Prim.Native.String.{String, ◌++◌ as ◌<>◌}
use mathlib.Core.Path.{◌≡◌, refl, sym, ◌∙◌}
use mathlib.Core.Bool.{true, false}
use mathlib.Core.Option.{some, some-injective}
use native.Mathlib.Omega.{arith}
use text.Mathlib.TextLemmas.{nil-append, cons-append, append_cancel_left, append-nil}
use text.Mathlib.TextEquality.{Char-path}
use pgscv.Base.Equality.{nat_eq}
use pgscv.Base.Text.{after_prefix, has_prefix, trim_prefix, replace_first}

pub after_prefix-append : (p s : String) → after_prefix (p <> s) p ≡ some s
unfolding after_prefix
after_prefix-append String.[] s = rw nil-append
after_prefix-append (String.◌∷◌ c p) s = rw cons-append (ground (arith, after_prefix-append p s))

-- A text that begins with the prefix is the prefix with what is after it.
pub append-after_prefix : (s p r : String) → after_prefix s p ≡ some r → s ≡ p <> r
unfolding after_prefix
append-after_prefix s String.[] r h = rw nil-append (some-injective s r h)
append-after_prefix String.[] (String.◌∷◌ c p) r h = cc
append-after_prefix (String.◌∷◌ d s) (String.◌∷◌ c p) r h =
    rw cons-append (ground (arith, append-after_prefix s p r, Char-path d c))

pub has_prefix-append : (p s : String) → has_prefix (p <> s) p ≡ true
unfolding has_prefix
has_prefix-append p s = ground (arith, after_prefix-append p s)

pub trim_prefix-append : (p s : String) → trim_prefix (p <> s) p ≡ s
unfolding trim_prefix
trim_prefix-append p s = ground (arith, after_prefix-append p s)

-- A text that does not begin with the prefix is left alone.
pub trim_prefix_other : (s p : String) → has_prefix s p ≡ false → trim_prefix s p ≡ s
unfolding has_prefix trim_prefix
trim_prefix_other s p h = ground arith

-- A text with something after a prefix is not the prefix.
pub append-eq_self : (p s : String) → p <> s ≡ p → s ≡ ""
append-eq_self p s h = append_cancel_left p s "" (h ∙ sym (append-nil p))

pub replace_first-append : (old s new : String) → replace_first (old <> s) old new ≡ new <> s
unfolding replace_first
replace_first-append String.[] String.[] new = refl
replace_first-append String.[] (String.◌∷◌ c s) new = rw nil-append
replace_first-append (String.◌∷◌ c old) s new =
    ground (arith, cons-append c old s, after_prefix-append (String.◌∷◌ c old) s)
