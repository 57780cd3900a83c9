-- ===== src/Testdata/Producer/Persist.antt =====
-- `TestdataProducer.persist_data` and `on_test_stop` of grizzly/testdata/communication.py. `generate`
-- stands for `generate_initial_value` of a variable, and is `none` for a class without it; that the
-- file can be written is taken for granted.
use grizzly.Common.{
  ℕ, ◌≤◌, ◌≡◌, refl, Bool, true, false, not, ◌||◌, List, [], ◌∷◌, Option, none, some, if◌then◌else◌,
  ltb, list_eq, nat_eq, arith, length, Result, ok, err, inl, ◌⊎◌,
}
use grizzly.Common.Dict.{Dict, lookup, insert}
use grizzly.Common.Text.{Text, codes, occurs}
use grizzly.Exceptions.{Exception}
use grizzly.Testdata.{Value, get_variable_spec}
use grizzly.Testdata.Producer.{Variable, plain, atomic, Setup, Producer, text_of}
use grizzly.Testdata.Producer.Iterations.{
  used, limit, consumed, Collects, repeated, consumed-repeated,
}

-- `len(list(chain(*variable_state.values()))) > 0`
some_text : Dict Text Text → Bool
some_text [] = false
some_text ((key, value) ∷ rest) = ltb 0 (length value) || some_text rest

-- Every count is set to 0.
reset_counts : Dict Text ℕ → Dict Text ℕ
reset_counts [] = []
reset_counts ((scenario, count) ∷ rest) = (scenario, 0) ∷ reset_counts rest

module _ {W : Type 0} (generate : Text → Text → W → Option (Result Exception Text) × W) where
  -- A variable's round; its exceptions are suppressed.
  persist_variable : Text → Variable → Dict Text Text → W → Dict Text Text × W
  persist_variable key (plain value) state w = (state, w)
  persist_variable key (atomic class) state w =
      if not (occurs (codes ".") key)
      then (state, w)
      else let (generated, w') = generate class (text_of (get_variable_spec key).variable_name) w in
        elim generated [
          | none ↦ (state, w')
          | some result ↦ elim result [
            | err e ↦ (state, w')
            | ok value ↦ (insert key value state, w')
          ]
        ]

  persist_variables : List (Text × Variable) → Dict Text Text → W → Dict Text Text × W
  persist_variables [] state w = (state, w)
  persist_variables ((key, variable) ∷ rest) state w =
      let (state', w') = persist_variable key variable state w in persist_variables rest state' w'

  persist_scenarios : Dict Text (Dict Text Variable) → Dict Text Text → W → Dict Text Text × W
  persist_scenarios [] state w = (state, w)
  persist_scenarios ((scenario, variables) ∷ rest) state w =
      let (state', w') = persist_variables variables state w in persist_scenarios rest state' w'

  -- From the end of the loops on.
  write_state : Producer W → Dict Text Text × W → Producer W
  write_state p (state, w) =
      if some_text state
      then record p { variables = w; has_persisted = true; persist_file = some state }
      else record p { variables = w }

  -- TestdataProducer.persist_data
  pub persist_data : Setup → Producer W → Producer W
  persist_data setup p =
      if p.has_persisted then p else write_state p (persist_scenarios setup.testdata [] p.variables)

  -- TestdataProducer.on_test_stop
  pub on_test_stop : Setup → Producer W → Producer W
  on_test_stop setup p =
      let p' = persist_data setup p in
      record p' { scenarios_iteration = reset_counts p'.scenarios_iteration }

  lookup-reset_counts :
      (scenario : Text) (d : Dict Text ℕ)
      → (lookup scenario (reset_counts d) ≡ none) ⊎ (lookup scenario (reset_counts d) ≡ some 0)
  unfolding reset_counts lookup
  lookup-reset_counts scenario [] = inl refl
  lookup-reset_counts scenario ((name, count) ∷ d) = ground (arith, lookup-reset_counts scenario d)

  on_test_stop-used :
      (setup : Setup) (scenario : Text) (p : Producer W) → used scenario (on_test_stop setup p) ≡ 0
  unfolding on_test_stop
  on_test_stop-used setup scenario p =
      ground (arith, lookup-reset_counts scenario (persist_data setup p).scenarios_iteration)

  -- However often data was handed out before the test was stopped: where the data of a scenario can
  -- always be collected, at least as many requests for it after that as it has iterations are handed out
  -- data exactly as often as it has iterations.
  pub consumed-on_test_stop :
      (fetch : Text → Text → W → Result Exception Value × W) (setup : Setup) (scenario : Text)
      (n : ℕ) (p : Producer W)
      → Collects fetch setup scenario
      → limit setup scenario ≤ n
      → consumed fetch setup scenario (repeated n scenario) (on_test_stop setup p)
        ≡ limit setup scenario
  consumed-on_test_stop fetch setup scenario n p collects enough =
      let none_used = on_test_stop-used setup scenario p in
      let all =
        consumed-repeated fetch setup scenario n (on_test_stop setup p) collects
          (omega (arith, none_used)) (omega (arith, none_used)) in
      omega (arith, none_used, all)
