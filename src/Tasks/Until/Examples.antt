-- ===== src/Tasks/Until/Examples.antt =====
-- The theorems on the until task for requests that answer from a list.
use grizzly.Common.{
  ℕ, ◌≤◌, ◌≡◌, ◌⊎◌, refl, true, false, List, [], ◌∷◌, Option, some, none, Result, ok, err,
}
use grizzly.Common.Int.{pos}
use grizzly.Common.Text.{Text, codes}
use grizzly.Exceptions.{Exception, restart_scenario, runtime_error, stop_user}
use grizzly.Tasks.Until.{
  User, Transformer, is_expected, attempt, matches_of, run_attempts, run_until,
}
use grizzly.Tasks.Until.Attempts.{GoesOn, tried, Attempts}
use grizzly.Tasks.Until.Outcome.{reported, run_attempts-outcome, run_until-failure_exception}

-- The payload of the next request; a request without one raises.
abbrev next_payload : User (List Text) → Result Exception (Option Text) × User (List Text)
next_payload u = elim u.rest [
  | [] ↦ (err runtime_error, u)
  | payload ∷ rest ↦ (ok (some payload), record u { rest = rest })
]

abbrev no_time : User (List Text) → Result Exception (Unit {0}) × User (List Text)
no_time u = (ok tt, u)

-- The payload is the only match.
abbrev whole_payload : Transformer Text
whole_payload = record {
  validate = λ t. true;
  parser = λ t. ok (λ payload. ok (payload ∷ []));
  transform = λ t. ok t;
}

abbrev whole : Text → Result Exception (List Text)
whole payload = ok (payload ∷ [])

abbrev waiting : User (List Text)
waiting = record {
  failure_exception = some restart_scenario;
  errors = [];
  events = [];
  rest = codes "a" ∷ codes "bc" ∷ [];
}

goes_on :
    (v : User (List Text)) → GoesOn (tried no_time next_payload whole_payload (pos 1) whole v).0.1
unfolding attempt matches_of
goes_on v = by_rest v.rest
  where
    by_rest :
        (rest : List Text)
        → GoesOn
            (tried no_time next_payload whole_payload (pos 1) whole (record v { rest = rest })).0.1
    by_rest [] = (refl, refl)
    by_rest (payload ∷ rest) = tt

run_attempts-outcome_example :
    (k : ℕ) × (m : ℕ) × (u' : User (List Text)) × (k ≤ 3)
    × Attempts no_time next_payload whole_payload
        (pos 1)
        whole
        k
        (record waiting { failure_exception = none })
        m
        u'
    × (((is_expected (pos 1) m ≡ true)
          × ((run_attempts no_time next_payload whole_payload
                (codes "001 get")
                (pos 1)
                3
                whole
                waiting).0
              ≡ ok tt)
          × (reported
                (run_attempts no_time next_payload whole_payload
                  (codes "001 get")
                  (pos 1)
                  3
                  whole
                  waiting).1
              ≡ none))
        ⊎ ((is_expected (pos 1) m ≡ false)
            × (k ≡ 3)
            × ((run_attempts no_time next_payload whole_payload
                  (codes "001 get")
                  (pos 1)
                  3
                  whole
                  waiting).0
                ≡ err restart_scenario)
            × (e : Exception) × (reported
                  (run_attempts no_time next_payload whole_payload
                    (codes "001 get")
                    (pos 1)
                    3
                    whole
                    waiting).1
                ≡ some e)))
run_attempts-outcome_example =
    run_attempts-outcome no_time next_payload whole_payload (pos 1) whole (codes "001 get") 2
      waiting restart_scenario goes_on refl

run_until-failure_exception_example :
    (run_until no_time next_payload whole_payload
      (codes "001 get")
      (codes "$.id")
      (pos 1)
      3
      waiting).1.failure_exception
    ≡ waiting.failure_exception
run_until-failure_exception_example =
    run_until-failure_exception no_time next_payload whole_payload (pos 1) (codes "001 get")
      (codes "$.id") 3 waiting

-- The wait is interrupted by an abort.
abbrev aborted : User (List Text) → Result Exception (Unit {0}) × User (List Text)
aborted u = (err stop_user, u)
