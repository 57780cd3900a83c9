-- ===== src/Tasks/Loop/Laws.antt =====
-- The variable of a loop, and what the loop ends with.
use grizzly.Common.{
  ℕ, suc, ap, ◌≡◌, ◌∙◌, ◌++◌, refl, List, [], ◌∷◌, map, Option, none, some, arith, if◌then◌else◌,
  length, list_eq, nat_eq, Result, ok, err, Bool-cases, inl, inr,
}
use grizzly.Common.Dict.{lookup, lookup-insert_self}
use grizzly.Common.Int.{ℤ, pos}
use grizzly.Common.Text.{Text, codes}
use grizzly.Common.Decimal.{show}
use grizzly.Exceptions.{Exception, is_instance}
use grizzly.Tasks.Parent.{Fired, Parent, Task, caught, raised, fire, run_tasks}
use grizzly.Tasks.Loop.{
  Loop, Json, set_variable, after_value, run_values, read_values, finish, run_loop,
}

-- The response length and the exception of the last event.
abbrev pub reported_length : {V W : Type 0} → Parent V W → Option (ℤ × Option Exception)
reported_length p = elim p.fired [ [] ↦ none | e ∷ _ ↦ some (e.response_length, e.exception) ]

module _ {V W : Type 0} where
  abbrev pub original : V → Text → Parent V W → V
  original null variable p = elim (lookup variable p.variables) [ none ↦ null | some v ↦ v ]

  -- The event of a loop with so many values.
  abbrev pub last_event : Loop V W → ℕ → Exception → Parent V W → Fired
  last_event loop values e p = record {
    request_type = codes "LOOP";
    name =
        p.identifier
        ++ (codes " "
            ++ (loop.name ++ (codes " (" ++ (show (pos (length loop.tasks)) ++ codes ")"))));
    response_length = pos values;
    exception = some e;
  }

  abbrev pub wrapped : Loop V W → List (Task V W)
  wrapped loop = map (λ t. t.run) loop.tasks

module _ {V W : Type 0} (sleep : Task V W) where
  after_value-ok :
      (variable : Text) (orig_value : V) (more : Task V W)
      (r : Result Exception (Unit {0}) × Parent V W) (p' : Parent V W)
      → after_value variable orig_value more r ≡ (ok tt, p')
      → (q : Parent V W) × (more (set_variable variable orig_value q) ≡ (ok tt, p'))
  unfolding after_value
  after_value-ok variable orig_value more (ok _, q) p' h = (q, h)
  after_value-ok variable orig_value more (err e, q) p' h = absurd (ground arith)

  after_value-append :
      (variable : Text) (orig_value : V) (more more' : Task V W)
      (end : Result Exception (Unit {0}) × Parent V W) (q : Parent V W)
      → ((r : Parent V W) → more r ≡ (ok tt, q) → more' r ≡ end)
      → (r : Result Exception (Unit {0}) × Parent V W)
      → after_value variable orig_value more r ≡ (ok tt, q)
      → after_value variable orig_value more' r ≡ end
  unfolding after_value
  after_value-append variable orig_value more more' end q goes_on (ok _, s) h =
      goes_on (set_variable variable orig_value s) h
  after_value-append variable orig_value more more' end q goes_on (err e, s) h =
      absurd (ground arith)

  run_values_kept :
      (variable : Text) (orig_value : V) (tasks : List (Task V W)) (values : List V)
      (p p' : Parent V W)
      → lookup variable p.variables ≡ some orig_value
      → run_values sleep variable orig_value tasks values p ≡ (ok tt, p')
      → lookup variable p'.variables ≡ some orig_value
  unfolding run_values
  run_values_kept variable orig_value tasks [] p p' kept h = ground arith
  run_values_kept variable orig_value tasks (value ∷ values) p p' kept h =
      let (q, more) =
        after_value-ok variable orig_value (run_values sleep variable orig_value tasks values)
          (run_tasks sleep tasks (set_variable variable value p)) p' h in
      run_values_kept variable orig_value tasks values (set_variable variable orig_value q) p'
        (lookup-insert_self variable orig_value q.variables) more

  -- Where no task of the loop raises, the variable holds after the last value what it held before the
  -- first.
  run_values-restores :
      (variable : Text) (orig_value value : V) (tasks : List (Task V W)) (values : List V)
      (p p' : Parent V W)
      → run_values sleep variable orig_value tasks (value ∷ values) p ≡ (ok tt, p')
      → lookup variable p'.variables ≡ some orig_value
  unfolding run_values
  run_values-restores variable orig_value value tasks values p p' h =
      let (q, more) =
        after_value-ok variable orig_value (run_values sleep variable orig_value tasks values)
          (run_tasks sleep tasks (set_variable variable value p)) p' h in
      run_values_kept variable orig_value tasks values (set_variable variable orig_value q) p'
        (lookup-insert_self variable orig_value q.variables) more

  run_values-append :
      (variable : Text) (orig_value : V) (tasks : List (Task V W)) (before after : List V)
      (p q : Parent V W)
      → run_values sleep variable orig_value tasks before p ≡ (ok tt, q)
      → run_values sleep variable orig_value tasks (before ++ after) p
        ≡ run_values sleep variable orig_value tasks after q
  unfolding run_values
  run_values-append variable orig_value tasks [] after p q h = ground arith
  run_values-append variable orig_value tasks (value ∷ before) after p q h =
      after_value-append variable orig_value (run_values sleep variable orig_value tasks before)
        (run_values sleep variable orig_value tasks (before ++ after))
        (run_values sleep variable orig_value tasks after q) q
        (λ r. run_values-append variable orig_value tasks before after r q)
        (run_tasks sleep tasks (set_variable variable value p)) h

  run_values-fails :
      (variable : Text) (orig_value : V) (tasks : List (Task V W)) (before after : List V)
      (value : V) (p q p' : Parent V W) (e : Exception)
      → run_values sleep variable orig_value tasks before p ≡ (ok tt, q)
      → run_tasks sleep tasks (set_variable variable value q) ≡ (err e, p')
      → run_values sleep variable orig_value tasks (before ++ value ∷ after) p ≡ (err e, p')
  unfolding run_values after_value
  run_values-fails variable orig_value tasks before after value p q p' e succeed fails =
      run_values-append variable orig_value tasks before (value ∷ after) p q succeed
      ∙ ap (after_value variable orig_value (run_values sleep variable orig_value tasks after))
          fails

module _ {V W : Type 0} (render : Text → Parent V W → Result Exception Text)
    (loads : Text → Result Exception (Json V)) (null : V) (sleep : Task V W) where
  run_loop-finish :
      (loop : Loop V W) (values : List V) (p p' : Parent V W) (result : Result Exception (Unit {0}))
      → read_values render loads loop.values p ≡ ok values
      → run_values sleep loop.variable (original null loop.variable p) (wrapped loop) values p
        ≡ (result, p')
      → run_loop sleep render loads null loop p ≡ finish loop (length values) result p'
  unfolding run_loop
  run_loop-finish loop values p p' result reads runs =
      rw (reads, run_loop) (ap (λ r. finish loop (length values) r.0 r.1) runs)

  -- Where the text of the loop is a list of at least one value and none of its tasks raises, the loop
  -- returns, reports the number of values and no exception, and the variable is what it was before (None, where
  -- there was none).
  pub run_loop-succeeds :
      (loop : Loop V W) (value : V) (values : List V) (p p' : Parent V W)
      → read_values render loads loop.values p ≡ ok (value ∷ values)
      → run_values sleep loop.variable
          (original null loop.variable p)
          (wrapped loop)
          (value ∷ values)
          p
        ≡ (ok tt, p')
      → ((run_loop sleep render loads null loop p).0 ≡ ok tt)
        × (lookup loop.variable (run_loop sleep render loads null loop p).1.variables
            ≡ some (original null loop.variable p))
        × (reported_length (run_loop sleep render loads null loop p).1
            ≡ some (pos (suc (length values)), none))
  unfolding finish caught raised fire
  run_loop-succeeds loop value values p p' reads runs =
      let ends = run_loop-finish loop (value ∷ values) p p' (ok tt) reads runs in
      rw ends (
        refl,
        run_values-restores sleep loop.variable (original null loop.variable p) value (wrapped loop)
            values p p' runs,
        refl,
      )

  -- Where the rounds of the values before one raise nothing, a task of the loop raises an exception
  -- other than GreenletExit in the round of that value, and the scenario has a failure exception: the
  -- loop raises the exception itself, with no event, where it is of that class, and otherwise the failure
  -- exception, with an event that has the exception and the number of all values. The variables are left
  -- as the failing tasks left them: what the variable of the loop held before is not set back.
  pub run_loop-fails :
      (loop : Loop V W) (before after : List V) (value : V) (p q p' : Parent V W)
      (e failure : Exception)
      → read_values render loads loop.values p ≡ ok (before ++ value ∷ after)
      → run_values sleep loop.variable (original null loop.variable p) (wrapped loop) before p
        ≡ (ok tt, q)
      → run_tasks sleep (wrapped loop) (set_variable loop.variable value q) ≡ (err e, p')
      → caught {A = Unit {0}} (err e) ≡ some e
      → p'.failure_exception ≡ some failure
      → ((run_loop sleep render loads null loop p).0
          ≡ err (if is_instance e failure then e else failure))
        × ((run_loop sleep render loads null loop p).1.variables ≡ p'.variables)
        × ((run_loop sleep render loads null loop p).1.fired ≡ (
            if is_instance e failure
            then p'.fired
            else last_event loop (length (before ++ value ∷ after)) e p' ∷ p'.fired))
  unfolding finish fire
  run_loop-fails loop before after value p q p' e failure reads succeed fails no_exit has =
      let runs =
        run_values-fails sleep loop.variable (original null loop.variable p) (wrapped loop) before
          after value p q p' e succeed fails in
      let ends = run_loop-finish loop (before ++ value ∷ after) p p' (err e) reads runs in
      elim (Bool-cases (is_instance e failure)) [
        | inl same ↦ rw (ends, finish, no_exit, has, same) (refl, refl, refl)
        | inr different ↦
            rw (ends, finish, no_exit, has, different)
              (
                refl,
                refl,
                ap
                    (λ c.
                      (record (last_event loop (length (before ++ value ∷ after)) e p') {
                        exception = c;
                      })
                      ∷ p'.fired)
                    no_exit,
              )
      ]
