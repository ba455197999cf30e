-- ===== src/Logs/Tail/Safety.antt =====
-- What holds in every state of the tailing.
use pgscv.Base.{
  ◌≡◌, refl, ◌≤◌, String, Bool, true, false, ◌||◌, none, some, List, [], ◌∷◌, ◌++◌, arith, ◌==◌,
  string_eq, length, length-append, all,
}
use pgscv.Base.External.{Regexps}
use pgscv.Logs.{LogParser, TrimSpace}
use pgscv.Logs.Tail.{
  Tail, unstarted, stopping, TailLoop, cancel, new_tail_loop, Step, notice, start, change, stop,
  fail, respawn, read, Run, here, next,
}

-- The tail is told to end, or it reads the current file.
abbrev pub is_current : String → Tail → Bool
is_current current t = t.cancelled || t.file == current

-- At most one tail; none before the first file; what is sent, or waited for while nothing is sent, is the
-- current file; the loop waits only for tails that are told to end; and while nothing is sent, no tail is
-- left to another file.
pub record Tidy (s : TailLoop) : Type 0 where
  pub one : length s.tails ≤ 1
  pub none_yet : s.phase ≡ unstarted → s.tails ≡ []
  pub sends_current : (f : String) → s.sending ≡ some f → f ≡ s.current
  pub waits_for_current : (f : String) → s.phase ≡ stopping f → s.sending ≡ none → f ≡ s.current
  pub stops_all : (f : String) → s.phase ≡ stopping f → all (λ t. t.cancelled) s.tails ≡ true
  pub tails_current : s.sending ≡ none → all (is_current s.current) s.tails ≡ true

length-cancel : (ts : List Tail) → length (cancel ts) ≡ length ts
unfolding cancel
length-cancel [] = refl
length-cancel (t ∷ ts) = omega (arith, length-cancel ts)

all-cancel : (current : String) (ts : List Tail) → all (is_current current) (cancel ts) ≡ true
unfolding cancel
all-cancel current [] = refl
all-cancel current (t ∷ ts) = ground (arith, all-cancel current ts)

cancel-stops : (ts : List Tail) → all (λ t. t.cancelled) (cancel ts) ≡ true
unfolding cancel
cancel-stops [] = refl
cancel-stops (t ∷ ts) = ground (arith, cancel-stops ts)

without_one : (xs ys : List Tail) (t : Tail) → length (xs ++ (t ∷ ys)) ≤ 1 → xs ++ ys ≡ []
without_one [] [] t h = refl
without_one [] (y ∷ ys) t h = absurd (omega arith)
without_one (x ∷ xs) ys t h = absurd (omega (arith, length-append xs (t ∷ ys)))

no_tails-Tidy : (s : TailLoop) → Tidy s → Tidy (record s { tails = [] })
no_tails-Tidy s h = record {
  one = omega arith;
  none_yet = λ _. refl;
  sends_current = h.sends_current;
  waits_for_current = h.waits_for_current;
  stops_all = λ _ _. refl;
  tails_current = λ _. refl;
}

module _ ⦃R : Regexps⦄ (trim_space : TrimSpace) (p : LogParser R) (faults : Bool) where
  ended-Tidy :
      (s : TailLoop) (xs ys : List Tail) (t : Tail)
      → s.tails ≡ xs ++ (t ∷ ys)
      → Tidy s
      → Tidy (record s { tails = xs ++ ys })
  ended-Tidy s xs ys t e h = rw (without_one xs ys t (ground (arith, h.one, e))) (no_tails-Tidy s h)

  pub Step-Tidy :
      {s t : TailLoop} {lines : List String} → Step trim_space p faults s lines t → Tidy s → Tidy t
  Step-Tidy (notice s logfile quiet new) h = record {
    one = h.one;
    none_yet = h.none_yet;
    sends_current = λ f e. ground arith;
    waits_for_current = λ f e quiet. ground arith;
    stops_all = h.stops_all;
    tails_current = λ quiet. ground arith;
  }
  Step-Tidy (start s logfile first sent) h = record {
    one = ground (arith, h.none_yet first);
    none_yet = λ e. ground arith;
    sends_current = λ f e. ground arith;
    waits_for_current = λ f e quiet. ground arith;
    stops_all = λ f e. ground arith;
    tails_current = λ quiet. ground (arith, h.none_yet first, h.sends_current logfile sent);
  }
  Step-Tidy (change s logfile polls sent) h = record {
    one = omega (arith, length-cancel s.tails, h.one);
    none_yet = λ e. ground arith;
    sends_current = λ f e. ground arith;
    waits_for_current = λ f e quiet. ground (arith, h.sends_current logfile sent);
    stops_all = λ f e. cancel-stops s.tails;
    tails_current = λ quiet. all-cancel s.current s.tails;
  }
  Step-Tidy (stop s xs ys t e cancelled) h = ended-Tidy s xs ys t e h
  Step-Tidy (fail s xs ys t e faulty) h = ended-Tidy s xs ys t e h
  Step-Tidy (respawn s logfile waits done) h = record {
    one = omega arith;
    none_yet = λ e. ground arith;
    sends_current = h.sends_current;
    waits_for_current = λ f e quiet. ground arith;
    stops_all = λ f e. ground arith;
    tails_current = λ quiet. ground (arith, h.waits_for_current logfile waits quiet);
  }
  Step-Tidy (read s xs ys t line range stats e same counted) h = record {
    one = h.one;
    none_yet = h.none_yet;
    sends_current = h.sends_current;
    waits_for_current = h.waits_for_current;
    stops_all = h.stops_all;
    tails_current = h.tails_current;
  }

  pub Run-Tidy :
      {s t : TailLoop} {lines : List String} → Tidy s → Run trim_space p faults s lines t → Tidy t
  Run-Tidy h here = h
  Run-Tidy h (next r step) = Step-Tidy step (Run-Tidy h r)

  pub new_tail_loop-Tidy : Tidy new_tail_loop
  new_tail_loop-Tidy = record {
    one = omega arith;
    none_yet = λ _. refl;
    sends_current = λ f e. ground arith;
    waits_for_current = λ f e quiet. ground arith;
    stops_all = λ f e. refl;
    tails_current = λ _. refl;
  }

  -- In every state that the collector reaches, at most one tail runs; and where `Update` waits with no new
  -- file, a tail that is not told to end reads the current file.
  pub Run-one_tail :
      {s : TailLoop} {lines : List String}
      → Run trim_space p faults new_tail_loop lines s
      → (length s.tails ≤ 1)
        × ((t : Tail)
            → s.tails ≡ t ∷ []
            → s.sending ≡ none
            → t.cancelled ≡ false
            → t.file ≡ s.current)
  Run-one_tail r =
      let h = Run-Tidy new_tail_loop-Tidy r in
      (h.one, λ t e quiet running. ground (arith, h.tails_current quiet))
