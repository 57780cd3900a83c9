-- ===== src/Tasks/Until.antt =====
-- `UntilRequestTask` of grizzly/tasks/until.py. The wrapped request and the time that passes are
-- parameters over the state `W` of the rest of the user; so are the transformer of the content type,
-- floats and templates. A task name is the text that its requests are logged under.
pub mod Attempts
pub mod Outcome
mod Examples
use grizzly.Common.{
  ℕ, zero, suc, ◌+◌, ◌<◌, Bool, true, false, not, ◌&&◌, List, [], ◌∷◌, ◌++◌, Option, none, some,
  if◌then◌else◌, ltb, list_eq, nat_eq, ◌==◌, ◌=ℕ◌, length, Result, ok, err, ◌>>=◌,
}
use grizzly.Common.Dict.{Dict, lookup}
use grizzly.Common.Int.{ℤ, pos, negsuc}
use grizzly.Common.Text.{Text, codes, occurs}
use grizzly.Arguments.{has_separator, split_value, get_unsupported_arguments, parse_arguments}
use grizzly.Exceptions.{
  Exception, stop_user, stop_scenario, greenlet_exit, transformer_error, runtime_error,
  assertion_error,
}
use grizzly.Variables.{checked}
use grizzly.Variables.Incrementer.{unpack, int_type}

-- The attributes of a task that its arguments set; `wait` is a float.
pub record Settings (F : Type 0) : Type 0 where
  pub condition : Text
  pub retries : ℕ
  pub wait : F
  pub expected_matches : ℤ

module _ {F : Type 0} (float : Text → Result Exception F) (too_short : F → Bool) (one_second : F)
    (render : Text → Text) where
  abbrev argument :
      {A : Type 0} → Text → A → (Text → Result Exception A) → Dict Text Text → Result Exception A
  argument name default cast arguments = elim (lookup name arguments) [
    | none ↦ ok default
    | some value ↦ cast value
  ]

  -- `assert self.retries > 0`, and the same on `wait`
  check_settings : Text → ℤ → F → ℤ → Result Exception (Settings F)
  check_settings condition (pos (suc n)) wait expected =
      if too_short wait
      then err assertion_error
      else ok (record {
        condition = condition;
        retries = suc n;
        wait = wait;
        expected_matches = expected;
      })
  check_settings condition _ wait expected = err assertion_error

  -- UntilRequestTask.__init__, for a request with a content type
  pub construct : Text → Result Exception (Settings F)
  construct condition =
      if has_separator (codes "|") condition
      then (do
        parts ← checked (split_value condition (codes "|"))
        halves ← unpack parts
        arguments ← checked (
            parse_arguments
              (if occurs (codes "{{") halves.1 && occurs (codes "}}") halves.1
                then render halves.1
                else halves.1)
              (codes "=") true)
        retries ←
            elim (get_unsupported_arguments
              (codes "retries" ∷ codes "wait" ∷ codes "expected_matches" ∷ []) arguments) [
                | [] ↦ argument (codes "retries") (pos 3) int_type arguments
                | _ ∷ _ ↦ err assertion_error
              ]
        wait ← argument (codes "wait") one_second float arguments
        expected ← argument (codes "expected_matches") (pos 1) int_type arguments
        check_settings halves.0 retries wait expected)
      else ok (record {
        condition = condition;
        retries = 3;
        wait = one_second;
        expected_matches = pos 1;
      })

-- A request event: its response length, and the exception that it reports.
pub record Event : Type 0 where
  pub response_length : ℕ
  pub exception : Option Exception

-- What the task sees of the user: what the scenario raises on a failure, the errors of the statistics
-- (their keys and names), and the events that were fired, the last one first.
pub record User (W : Type 0) : Type 0 where
  pub failure_exception : Option Exception
  pub errors : List (ℕ × Text)
  pub events : List Event
  pub rest : W

-- The class of the transformer.
pub record Transformer (D : Type 0) : Type 0 where
  pub validate : Text → Bool
  pub parser : Text → Result Exception (D → Result Exception (List Text))
  pub transform : Text → Result Exception D

-- The variables of the loop.
pub record Progress : Type 0 where
  pub number_of_matches : ℕ
  pub retry : ℕ
  pub exception : Option Exception
  pub response_length : ℕ

-- What a round of the loop does next: another one, `break`, or an exception that is no `Exception`.
pub data Next : Type 0 where
  continue break : Next
  escape : Exception → Next

abbrev pub first_of : Option Exception → Exception → Option Exception
first_of none e = some e
first_of (some e) _ = some e

-- `isinstance(e, (StopUser, StopScenario))`
abbrev pub is_abort : Exception → Bool
is_abort stop_user = true
is_abort stop_scenario = true
is_abort _ = false

-- `GreenletExit` is not an `Exception`.
abbrev pub is_exit : Exception → Bool
is_exit greenlet_exit = true
is_exit _ = false

abbrev pub is_expected : ℤ → ℕ → Bool
is_expected (pos n) matches = matches =ℕ n
is_expected (negsuc n) matches = false

-- The rest of a round, by what the attempt came to: the number of matches, or an exception.
pub settle : ℤ → ℕ → Result Exception ℕ → Progress → Next × Progress
settle expected received (ok matches) p = (
  if is_expected expected matches then break else continue,
  record {
    number_of_matches = matches;
    retry = p.retry + 1;
    exception = p.exception;
    response_length = p.response_length + received;
  },
)
settle expected received (err e) p = (
  if is_exit e
      then escape e
      else if is_abort e
      then break
      else if is_expected expected 0
      then break
      else continue,
  record {
    number_of_matches = 0;
    retry = p.retry + 1;
    exception = if is_exit e then p.exception else first_of p.exception e;
    response_length = p.response_length + received;
  },
)

-- The errors under the task's own name are removed, where errors were added.
pub forget_errors : ℕ → Text → List (ℕ × Text) → List (ℕ × Text)
forget_errors before name errors = if ltb before (length errors) then without errors else errors
  where
    without : List (ℕ × Text) → List (ℕ × Text)
    without [] = []
    without ((key, logged) ∷ rest) =
        let others = without rest in if logged == name then others else (key, logged) ∷ others

-- The exception that the event reports.
pub verdict : ℤ → Progress → Option Exception
verdict expected p =
    if is_expected expected p.number_of_matches then none else first_of p.exception runtime_error

-- The outer `finally`: the scenario's failure exception is set back, the event is fired, and what
-- the task raises.
pub finish :
    {W : Type 0}
    → ℤ
    → Option Exception
    → Option Exception
    → Progress
    → User W
    → Result Exception (Unit {0}) × User W
finish expected original escaped p u =
    let reported = verdict expected p in
    let u' = record u {
      failure_exception = original;
      events = (record { response_length = p.response_length; exception = reported }) ∷ u.events;
    } in
    (
      elim reported [
        | none ↦ elim escaped [ none ↦ ok tt | some e ↦ err e ]
        | some _ ↦ elim original [
          | some failure ↦ err failure
          | none ↦ elim escaped [ none ↦ ok tt | some e ↦ err e ]
        ]
      ],
      u',
    )

-- From the end of the loop on.
pub after_attempts :
    {W : Type 0}
    → Text
    → ℕ
    → ℤ
    → Option Exception
    → Option Exception × Progress × User W
    → Result Exception (Unit {0}) × User W
after_attempts name before expected original (some e, p, u) = finish expected original (some e) p u
after_attempts name before expected original (none, p, u) =
    finish expected original none p (record u { errors = forget_errors before name u.errors })

module _ {W D : Type 0} (sleep : User W → Result Exception (Unit {0}) × User W)
    (execute : User W → Result Exception (Option Text) × User W) (transformer : Transformer D) where
  -- The length that is received, and the number of matches.
  matches_of :
      (D → Result Exception (List Text)) → Result Exception (Option Text) → ℕ × Result Exception ℕ
  matches_of parser (err e) = (0, err e)
  matches_of parser (ok none) = (0, err transformer_error)
  matches_of parser (ok (some payload)) = elim (transformer.transform payload) [
    | err e ↦ (0, err e)
    | ok transformed ↦ (length payload, parser transformed >>= λ matches. ok (length matches))
  ]

  -- The body of the inner `try`.
  pub attempt : (D → Result Exception (List Text)) → User W → (ℕ × Result Exception ℕ) × User W
  attempt parser u =
      let (slept, u') = sleep u in
      elim slept [
        | err e ↦ ((0, err e), u')
        | ok _ ↦ let (result, u'') = execute u' in (matches_of parser result, u'')
      ]

  -- The loop, for the number of rounds that are left; `some e` where `e` escapes.
  pub repeat :
      ℤ
      → (D → Result Exception (List Text))
      → ℕ
      → Progress
      → User W
      → Option Exception × Progress × User W
  repeat expected parser zero p u = (none, p, u)
  repeat expected parser (suc left) p u =
      let ((received, result), u') = attempt parser u in
      let (next, p') = settle expected received result p in
      elim next [
        | continue ↦ repeat expected parser left p' u'
        | break ↦ (none, p', u')
        | escape e ↦ (some e, p', u')
      ]

  -- From the first assignment to `failure_exception` on.
  pub run_attempts :
      Text
      → ℤ
      → ℕ
      → (D → Result Exception (List Text))
      → User W
      → Result Exception (Unit {0}) × User W
  run_attempts name expected retries parser u =
      let start : Progress = record {
        number_of_matches = 0;
        retry = 0;
        exception = none;
        response_length = 0;
      } in
      after_attempts name (length u.errors) expected u.failure_exception
        (repeat expected parser retries start (record u { failure_exception = none }))

  -- The task that `UntilRequestTask.__call__` makes, with its condition rendered.
  pub run_until : Text → Text → ℤ → ℕ → User W → Result Exception (Unit {0}) × User W
  run_until name condition expected retries u =
      if not (transformer.validate condition)
      then (err runtime_error, u)
      else elim (transformer.parser condition) [
        | err e ↦ (err e, u)
        | ok parser ↦ run_attempts name expected retries parser u
      ]
