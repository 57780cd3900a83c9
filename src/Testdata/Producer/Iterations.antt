-- ===== src/Testdata/Producer/Iterations.antt =====
-- How often the producer hands out data for a scenario, whatever the consumers that ask.
use grizzly.Common.{
  ℕ, zero, suc, ◌+◌, ◌≤◌, ◌<◌, ◌≡◌, ◌≢◌, refl, List, [], ◌∷◌, Option, none, some, arith,
  if◌then◌else◌, list_eq, nat_eq, ◌==◌, Result, ok, Option-cases, Bool-cases, inl, inr, ◌∙◌,
  beq_refl,
}
use grizzly.Common.Equality.{list_beq_iff}
use grizzly.Common.Dict.{Dict, lookup, has_key, lookup-insert, lookup-insert_self, lookup-insert_ne}
use grizzly.Common.Text.{Text}
use grizzly.Exceptions.{Exception, type_error}
use native.Mathlib.Decide.{dec_lt}
use grizzly.Testdata.{Value}
use grizzly.Testdata.Producer.{
  Data, Reply, stop, consume, Setup, Producer, Collected, collected, halted, failed, conclude,
  stop_on_type_error, first_count, collect_all, serve, answer, handle_testdata,
}

abbrev or_zero : Option ℕ → ℕ
or_zero none = 0
or_zero (some n) = n

-- The iterations of the feature file, and those that have been handed out.
abbrev pub limit : Setup → Text → ℕ
limit setup scenario = or_zero (lookup scenario setup.scenarios)

abbrev pub used : {W : Type 0} → Text → Producer W → ℕ
used scenario p = or_zero (lookup scenario p.scenarios_iteration)

abbrev pub is_consume : Result Exception Reply → ℕ
is_consume (ok (consume values)) = 1
is_consume _ = 0

no_consume : (e : Exception) → is_consume (stop_on_type_error e) ≡ 0
no_consume type_error = refl
no_consume _ = refl

is_consume-le_one :
    {W : Type 0} (scenario : Text) (count : ℕ) (p : Producer W) (c : Collected W)
    → is_consume (conclude scenario count p c).0 ≤ 1
unfolding conclude
is_consume-le_one scenario count p (collected values w) = omega arith
is_consume-le_one scenario count p (halted w) = omega arith
is_consume-le_one scenario count p (failed e w) = omega (arith, no_consume e)

-- Data is handed out below the limit only, and is counted.
conclude-used :
    {W : Type 0} (scenario : Text) (count : ℕ) (p : Producer W) (c : Collected W)
    → lookup scenario p.scenarios_iteration ≡ some count
    → used scenario (conclude scenario count p c).1
      ≡ used scenario p + is_consume (conclude scenario count p c).0
unfolding conclude
conclude-used scenario count p (collected values w) h =
    rw (lookup-insert_self scenario (count + 1) p.scenarios_iteration, h) refl
conclude-used scenario count p (halted w) h = omega arith
conclude-used scenario count p (failed e w) h = omega (arith, no_consume e)

conclude-used_other :
    {W : Type 0} (scenario other : Text) (count : ℕ) (p : Producer W) (c : Collected W)
    → scenario ≢ other
    → used other (conclude scenario count p c).1 ≡ used other p
unfolding conclude
conclude-used_other scenario other count p (collected values w) n =
    rw (lookup-insert_ne scenario other (count + 1) p.scenarios_iteration n) refl
conclude-used_other scenario other count p (halted w) n = refl
conclude-used_other scenario other count p (failed e w) n = refl

first_count-used :
    {W : Type 0} (scenario other : Text) (iterations : ℕ) (p : Producer W)
    → used other (first_count scenario iterations p) ≡ used other p
unfolding first_count has_key
first_count-used scenario other iterations p =
    ground
      (arith, list_beq_iff scenario other, lookup-insert scenario other 0 p.scenarios_iteration)

-- The same request, again and again.
abbrev pub repeated : ℕ → Text → List Text
repeated zero name = []
repeated (suc n) name = name ∷ repeated n name

module _ {W : Type 0} (fetch : Text → Text → W → Result Exception Value × W) (setup : Setup) where
  abbrev asked : Text → Producer W → Result Exception Reply × Producer W
  asked = handle_testdata fetch setup

  answer-used :
      (scenario : Text) (iterations : ℕ) (found : Option ℕ) (p : Producer W)
      → lookup scenario p.scenarios_iteration ≡ found
      → (used scenario (answer fetch setup scenario iterations found p).1
          ≡ used scenario p + is_consume (answer fetch setup scenario iterations found p).0)
        × (used scenario p ≤ iterations
            → used scenario (answer fetch setup scenario iterations found p).1 ≤ iterations)
  unfolding answer serve
  answer-used scenario iterations none p h = omega arith
  answer-used scenario iterations (some count) p h =
      let outcome = collect_all fetch setup scenario p.scenarios_iteration p.variables in
      ground (
        arith,
        conclude-used scenario count p outcome h,
        is_consume-le_one scenario count p outcome,
      )

  answer-used_other :
      (scenario other : Text) (iterations : ℕ) (found : Option ℕ) (p : Producer W)
      → scenario ≢ other
      → used other (answer fetch setup scenario iterations found p).1 ≡ used other p
  unfolding answer serve
  answer-used_other scenario other iterations none p n = refl
  answer-used_other scenario other iterations (some count) p n =
      let outcome = collect_all fetch setup scenario p.scenarios_iteration p.variables in
      ground (arith, conclude-used_other scenario other count p outcome n)

  asked_unknown :
      (scenario : Text) (p : Producer W)
      → lookup scenario setup.scenarios ≡ none
      → asked scenario p ≡ (ok (stop none), p)
  unfolding handle_testdata
  asked_unknown scenario p h = rw (h, handle_testdata)

  asked_known :
      (scenario : Text) (iterations : ℕ) (p : Producer W)
      → lookup scenario setup.scenarios ≡ some iterations
      → asked scenario p
        ≡ answer fetch setup scenario iterations
            (lookup scenario (first_count scenario iterations p).scenarios_iteration)
            (first_count scenario iterations p)
  unfolding handle_testdata
  asked_known scenario iterations p h = rw (h, handle_testdata)

  -- A request for the scenario itself: an iteration is counted exactly where data is handed out, and
  -- only below the limit.
  asked-used :
      (scenario : Text) (p : Producer W)
      → (used scenario (asked scenario p).1 ≡ used scenario p + is_consume (asked scenario p).0)
        × (used scenario p ≤ limit setup scenario
            → used scenario (asked scenario p).1 ≤ limit setup scenario)
  asked-used scenario p = elim (Option-cases (lookup scenario setup.scenarios)) [
    | inl gone ↦ rw (asked_unknown scenario p gone) (omega arith)
    | inr (iterations, known) ↦
        let p' = first_count scenario iterations p in
        let started = first_count-used scenario scenario iterations p in
        rw (asked_known scenario iterations p known, known)
          (rw (← started)
            (answer-used scenario iterations (lookup scenario p'.scenarios_iteration) p' refl))
  ]

  asked-used_other :
      (scenario other : Text) (p : Producer W)
      → scenario ≢ other
      → used other (asked scenario p).1 ≡ used other p
  asked-used_other scenario other p n = elim (Option-cases (lookup scenario setup.scenarios)) [
    | inl gone ↦ rw (asked_unknown scenario p gone) refl
    | inr (iterations, known) ↦
        let p' = first_count scenario iterations p in
        rw (asked_known scenario iterations p known) (
          answer-used_other scenario other iterations (lookup scenario p'.scenarios_iteration) p' n
          ∙ first_count-used scenario other iterations p)
  ]

  -- The replies with data for the scenario, among those to a sequence of requests, and the producer
  -- after them. A request that raises ends the producer's loop.
  pub consumed : Text → List Text → Producer W → ℕ
  consumed scenario [] p = 0
  consumed scenario (name ∷ names) p =
      (if name == scenario then is_consume (asked name p).0 else 0)
      + consumed scenario names (asked name p).1

  -- Where a scenario has been handed out at most its iterations, no sequence of requests, for whichever
  -- scenarios, is handed out more data for it than the iterations it has left.
  pub consumed_bound :
      (scenario : Text) (names : List Text) (p : Producer W)
      → used scenario p ≤ limit setup scenario
      → used scenario p + consumed scenario names p ≤ limit setup scenario
  unfolding consumed
  consumed_bound scenario [] p h = omega arith
  consumed_bound scenario (name ∷ names) p h = elim (Bool-cases (name == scenario)) [
    | inl same ↦
        let e = (list_beq_iff name scenario).0 same in
        rw (e, beq_refl scenario)
          (omega (
            arith,
            asked-used scenario p,
            consumed_bound scenario names (asked scenario p).1 ((asked-used scenario p).1 h),
          ))
    | inr other ↦
        let ne : name ≢ scenario = (λ e. cc ((list_beq_iff name scenario).1 e)) in
        let kept = asked-used_other name scenario p ne in
        let rest = consumed_bound scenario names (asked name p).1 (rw kept h) in
        rw other (omega arith)
  ]

  -- The data of the scenario can be collected, whatever was handed out before.
  abbrev pub Collects : Text → Type 0
  Collects scenario =
      (counts : Dict Text ℕ) (w : W)
      → (values : Data) × (w' : W) × (collect_all fetch setup scenario counts w
          ≡ collected values w')

  first_count-lookup :
      (scenario : Text) (iterations : ℕ) (p : Producer W)
      → 0 < iterations
      → lookup scenario (first_count scenario iterations p).scenarios_iteration
        ≡ some (used scenario p)
  unfolding first_count has_key
  first_count-lookup scenario iterations p h =
      ground (arith, lookup-insert_self scenario 0 p.scenarios_iteration)

  asked_below :
      (scenario : Text) (p : Producer W)
      → Collects scenario
      → used scenario p < limit setup scenario
      → is_consume (asked scenario p).0 ≡ 1
  unfolding answer serve conclude
  asked_below scenario p collects h = elim (Option-cases (lookup scenario setup.scenarios)) [
    | inl gone ↦ absurd (ground arith)
    | inr (iterations, known) ↦
        let below : used scenario p < iterations = rw known at h in
        let p' = first_count scenario iterations p in
        let (values, w', all) = collects p'.scenarios_iteration p'.variables in
        rw
          (
            asked_known scenario iterations p known,
            first_count-lookup scenario iterations p (omega arith),
          )
          (ground (arith, all))
  ]

  -- Where the data of a scenario can always be collected, and it has been handed out at most its
  -- iterations, at least as many requests for it as it has iterations left are handed out data exactly
  -- that often.
  pub consumed-repeated :
      (scenario : Text) (n : ℕ) (p : Producer W)
      → Collects scenario
      → used scenario p ≤ limit setup scenario
      → limit setup scenario ≤ used scenario p + n
      → used scenario p + consumed scenario (repeated n scenario) p ≡ limit setup scenario
  unfolding consumed
  consumed-repeated scenario zero p collects h enough = omega arith
  consumed-repeated scenario (suc n) p collects h enough =
      let rest =
        consumed-repeated scenario n (asked scenario p).1 collects ((asked-used scenario p).1 h) in
      rw (beq_refl scenario) (elim (dec_lt (used scenario p) (limit setup scenario)) [
        | yes below ↦
            let one = asked_below scenario p collects below in
            omega (arith, asked-used scenario p, rest (omega (arith, one, asked-used scenario p)))
        | no full ↦
            omega (arith, asked-used scenario p, h, rest (omega (arith, asked-used scenario p, h)))
      ])
