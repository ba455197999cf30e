-- ===== src/Collector/Pool/Safety.antt =====
-- What holds in every state of a run.
use pgscv.Base.{
  ℕ, suc, ◌+◌, ◌≤◌, ◌≡◌, refl, ◌⊎◌, String, List, [], ◌∷◌, ◌++◌, arith, length, length-append,
  string_eq, ◌==◌, if◌then◌else◌,
}
use pgscv.Collector.Pool.{Pool, Step, start, emit, finish, Run, here, next, initial}

-- How often a collector stands in a list.
abbrev pub count : String → List String → ℕ
count k [] = 0
count k (x ∷ xs) = let rest = count k xs in if k == x then suc rest else rest

count-append : (k : String) (xs ys : List String) → count k (xs ++ ys) ≡ count k xs + count k ys
count-append k [] ys = omega arith
count-append k (x ∷ xs) ys = ground (arith, count-append k xs ys)

abbrev pub total : {A : Type 0} → String → Pool A → ℕ
total k p = count k p.waiting + count k p.running + count k p.finished

abbrev pub WithinLimit : {A : Type 0} → ℕ → Pool A → Type 0
WithinLimit limit p = (limit ≡ 0) ⊎ (length p.running ≤ limit)

module _ {A : Type 0} (limit : ℕ) where
  Step-WithinLimit : {p q : Pool A} → Step limit p q → WithinLimit limit p → WithinLimit limit q
  Step-WithinLimit (start xs ys running finished name out place) h = ground arith
  Step-WithinLimit (emit waiting xs ys finished name m out) h = h
  Step-WithinLimit (finish waiting xs ys finished name out) h =
      ground (arith, length-append xs (name ∷ ys), length-append xs ys)

  Step-total : {p q : Pool A} (k : String) → Step limit p q → total k q ≡ total k p
  Step-total k (start xs ys running finished name out place) =
      ground (arith, count-append k xs (name ∷ ys), count-append k xs ys)
  Step-total k (emit waiting xs ys finished name m out) = refl
  Step-total k (finish waiting xs ys finished name out) =
      ground (arith, count-append k xs (name ∷ ys), count-append k xs ys)

  Run-WithinLimit : {p q : Pool A} → WithinLimit limit p → Run limit p q → WithinLimit limit q
  Run-WithinLimit h here = h
  Run-WithinLimit h (next r s) = Step-WithinLimit s (Run-WithinLimit h r)

  Run-total : {p q : Pool A} (k : String) → Run limit p q → total k q ≡ total k p
  Run-total k here = refl
  Run-total k (next r s) = omega (arith, Step-total k s, Run-total k r)

  -- However the goroutines are scheduled, no more collectors run at once than the limit says, unless
  -- it is 0; and each collector waits, runs or is done just as often as it was given.
  pub Run-safe :
      (names : List String) (p : Pool A)
      → Run limit (initial names) p
      → WithinLimit limit p × ((k : String) → total k p ≡ count k names)
  unfolding initial
  Run-safe names p r = (Run-WithinLimit (ground arith) r, λ k. omega (arith, Run-total k r))
