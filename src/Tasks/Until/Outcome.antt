-- ===== src/Tasks/Until/Outcome.antt =====
-- What `UntilRequestTask` ends with.
use grizzly.Common.{
  ℕ, suc, ◌≤◌, ◌≡◌, refl, ◌⊎◌, true, false, List, [], ◌∷◌, Option, none, some, arith, length,
  Result, ok, err, Bool-cases, inl, inr, ap,
}
use grizzly.Common.Int.{ℤ}
use grizzly.Common.Text.{Text}
use grizzly.Exceptions.{Exception, runtime_error}
use grizzly.Tasks.Until.{
  User, Transformer, Progress, first_of, is_expected, forget_errors, repeat, verdict, finish,
  after_attempts, run_attempts, run_until,
}
use grizzly.Tasks.Until.Attempts.{GoesOn, tried, Attempts, repeat-Ended}

-- The exception of the event that was fired last.
abbrev pub reported : {W : Type 0} → User W → Option Exception
reported u = elim u.events [ [] ↦ none | event ∷ _ ↦ event.exception ]

first_of-some : (o : Option Exception) (e : Exception) → (x : Exception) × (first_of o e ≡ some x)
first_of-some none e = (e, refl)
first_of-some (some x) e = (x, refl)

-- What the task ends with, by the matches of the last attempt.
finish-matched :
    {W : Type 0} (expected : ℤ) (original : Option Exception) (p : Progress) (u : User W)
    → is_expected expected p.number_of_matches ≡ true
    → ((finish expected original none p u).0 ≡ ok tt)
      × (reported (finish expected original none p u).1 ≡ none)
unfolding finish verdict
finish-matched expected original p u h = (rw (h, finish, verdict) refl, rw (h, verdict) refl)

finish-missed :
    {W : Type 0} (expected : ℤ) (failure : Exception) (p : Progress) (u : User W)
    → is_expected expected p.number_of_matches ≡ false
    → ((finish expected (some failure) none p u).0 ≡ err failure)
      × (e : Exception) × (reported (finish expected (some failure) none p u).1 ≡ some e)
unfolding finish verdict
finish-missed expected failure p u h =
    let (e, first) = first_of-some p.exception runtime_error in
    (rw (h, finish, verdict, first) refl, e, rw (h, verdict, first) refl)

module _ {W D : Type 0} (sleep : User W → Result Exception (Unit {0}) × User W)
    (execute : User W → Result Exception (Option Text) × User W) (transformer : Transformer D)
    (expected : ℤ) where
  -- The state after the attempts, without the errors that they logged.
  abbrev forgotten : Text → ℕ → User W → User W
  forgotten name before u = record u { errors = forget_errors before name u.errors }

  run_attempts-finish :
      (parser : D → Result Exception (List Text)) (name : Text) (retries : ℕ) (u u' : User W)
      (p : Progress)
      → repeat sleep execute transformer expected parser retries
          (record { number_of_matches = 0; retry = 0; exception = none; response_length = 0 })
          (record u { failure_exception = none })
        ≡ (none, p, u')
      → run_attempts sleep execute transformer name expected retries parser u
        ≡ finish expected u.failure_exception none p (forgotten name (length u.errors) u')
  unfolding run_attempts after_attempts
  run_attempts-finish parser name retries u u' p h =
      ap (after_attempts name (length u.errors) expected u.failure_exception) h

  -- Where no attempt is aborted and the scenario has a failure exception, the task makes one to
  -- `retries` attempts, all but the last without the expected number of matches. Where the last one
  -- found that number, the task returns and its event reports no exception; otherwise all attempts
  -- were made, the task raises the failure exception, and its event reports one.
  pub run_attempts-outcome :
      (parser : D → Result Exception (List Text)) (name : Text) (n : ℕ) (u : User W)
      (failure : Exception)
      → ((v : User W) → GoesOn (tried sleep execute transformer expected parser v).0.1)
      → u.failure_exception ≡ some failure
      → (k : ℕ) × (m : ℕ) × (u' : User W) × (k ≤ suc n)
        × Attempts sleep execute transformer expected parser k
            (record u { failure_exception = none })
            m
            u'
        × (((is_expected expected m ≡ true)
              × ((run_attempts sleep execute transformer name expected (suc n) parser u).0 ≡ ok tt)
              × (reported (run_attempts sleep execute transformer name expected (suc n) parser u).1
                  ≡ none))
            ⊎ ((is_expected expected m ≡ false)
                × (k ≡ suc n)
                × ((run_attempts sleep execute transformer name expected (suc n) parser u).0
                    ≡ err failure)
                × (e : Exception) × (reported
                      (run_attempts sleep execute transformer name expected (suc n) parser u).1
                    ≡ some e)))
  run_attempts-outcome parser name n u failure goes has =
      let start : Progress = record {
        number_of_matches = 0;
        retry = 0;
        exception = none;
        response_length = 0;
      } in
      let e =
        repeat-Ended sleep execute transformer expected parser goes n start
          (record u { failure_exception = none }) in
      let ends = run_attempts-finish parser name (suc n) u e.after e.final e.result in
      let last = forgotten name (length u.errors) e.after in
      (
        e.attempts,
        e.final.number_of_matches,
        e.after,
        e.bound,
        e.made,
        rw (ends, has)
            (elim (Bool-cases (is_expected expected e.final.number_of_matches)) [
              | inl matched ↦
                  let (returns, silent) =
                    finish-matched expected (some failure) e.final last matched in
                  inl (matched, returns, silent)
              | inr missed ↦
                  let (raises, x, fired) = finish-missed expected failure e.final last missed in
                  inr (missed, e.used_up missed, raises, x, fired)
            ]),
      )

  -- However the task ends, and whatever the attempts did to it, the scenario's failure exception is
  -- what it was before.
  pub run_until-failure_exception :
      (name condition : Text) (retries : ℕ) (u : User W)
      → (run_until sleep execute transformer name condition expected retries u).1.failure_exception
        ≡ u.failure_exception
  unfolding run_until run_attempts after_attempts finish
  run_until-failure_exception name condition retries u = ground arith
