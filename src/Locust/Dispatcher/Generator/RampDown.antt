-- ===== src/Locust/Dispatcher/Generator/RampDown.antt =====
-- A dispatch with more users than its target asks for.
use grizzly.Common.{
  ℕ, zero, suc, ◌+◌, ◌-◌, ◌*◌, ◌≤◌, ◌<◌, ◌≡◌, ◌∙◌, refl, true, false, List, some, arith, ltb, ◌=ℕ◌,
  list_eq, nat_eq, ok, Bool-cases, inl, inr,
}
use grizzly.Common.Text.{Text}
use grizzly.Locust.Active.{Consistent}
use grizzly.Locust.Dispatcher.{
  Dispatcher, max, active_total, target_total, has_reached_target, is_below_target, is_above_target,
  remove_users,
}
use grizzly.Locust.Dispatcher.Remove.{remove_users-Left, Left}
use grizzly.Locust.Dispatcher.Generator.{
  at_start, removed, Step, yields, finished, removing, adding, before_loops, started, resume,
  exhaust,
}

removing_above :
    (d d' : Dispatcher)
    → target_total d < active_total d
    → remove_users d ≡ ok d'
    → removing d ≡ ok (yields d'.users_on_workers removed d')
unfolding removing is_above_target
removing_above d d' above removes =
    let is_above : ltb (target_total d) (active_total d) ≡ true = ground arith in
    rw (removing, is_above, removes) refl

removing_reached : (d : Dispatcher) → active_total d ≡ target_total d → removing d ≡ ok (finished d)
unfolding removing is_above_target
removing_reached d reached =
    let not_above : ltb (target_total d) (active_total d) ≡ false = ground arith in
    rw (removing, not_above) refl

fewer_iterations : (a b t i k : ℕ) → a ≤ t + suc k * i → b ≡ max (a - i) t → b ≤ t + k * i
fewer_iterations a b t i k most next = ground arith

module _ (smooth : List (Text × ℕ) → ℕ → List Text) (fuel : ℕ) where
  resume-removed :
      (d : Dispatcher) (step : Step)
      → d.rebalance ≡ false
      → removing d ≡ ok step
      → resume smooth fuel removed d ≡ some (ok step)
  unfolding resume
  resume-removed d step settled removes = rw (resume, settled, removes) refl

  iterations-Left :
      (d d' : Dispatcher) (k : ℕ)
      → Left d d'
      → active_total d ≤ target_total d + suc k * d.user_count_per_dispatch_iteration
      → active_total d' ≤ target_total d' + k * d'.user_count_per_dispatch_iteration
  unfolding active_total
  iterations-Left d d' k left most =
      rw (left.same_target, left.same_iteration)
        (fewer_iterations (active_total d) (active_total d') (target_total d)
          d.user_count_per_dispatch_iteration k most left.total)

  resume-at_start :
      (d d' : Dispatcher)
      → d.rebalance ≡ false
      → target_total d < active_total d
      → remove_users (record d { dispatch_in_progress = true }) ≡ ok d'
      → resume smooth fuel at_start d ≡ some (ok (yields d'.users_on_workers removed d'))
  unfolding resume started before_loops adding has_reached_target is_below_target active_total
      target_total
  resume-at_start d d' settled above removes =
      let d0 : Dispatcher = record d { dispatch_in_progress = true } in
      let unreached : (active_total d =ℕ target_total d) ≡ false = ground arith in
      let not_below : ltb (active_total d) (target_total d) ≡ false = ground arith in
      let removes' = removing_above d0 d' above removes in
      rw (settled, before_loops, unreached, adding, not_below, removes') refl

  -- From the `yield` of a removal on, for enough iterations.
  exhaust-removed :
      (k : ℕ) (d : Dispatcher)
      → Consistent d.users_on_workers d.active_users
      → d.rebalance ≡ false
      → 0 < d.user_count_per_dispatch_iteration
      → target_total d ≤ active_total d
      → active_total d ≤ target_total d + k * d.user_count_per_dispatch_iteration
      → (d' : Dispatcher) × (exhaust smooth fuel (suc k) removed d ≡ some (ok d'))
        × (active_total d' ≡ target_total d)
        × Consistent d'.users_on_workers d'.active_users
        × (d'.dispatch_in_progress ≡ false)
  unfolding exhaust finished active_total
  exhaust-removed zero d consistent settled some_users least most =
      let reached : active_total d ≡ target_total d = ground arith in
      let ends = resume-removed d (finished d) settled (removing_reached d reached) in
      (
        record d { dispatch_in_progress = false },
        rw (exhaust, ends) refl,
        reached,
        consistent,
        refl,
      )
  exhaust-removed (suc k) d consistent settled some_users least most =
      elim (Bool-cases (ltb (target_total d) (active_total d))) [
        | inl above ↦
            let (d', left) = remove_users-Left d consistent (ground arith) some_users in
            let step =
              resume-removed d (yields d'.users_on_workers removed d') settled
                (removing_above d d' (ground arith) left.removes) in
            let (d'', ends, total, consistent'', idle) =
              exhaust-removed k d' left.consistent (left.same_rebalance ∙ settled)
                (omega (arith, left.same_iteration)) (ground (arith, left.total, left.same_target))
                (iterations-Left d d' k left most) in
            (d'', rw (exhaust, step) ends, total ∙ left.same_target, consistent'', idle)
        | inr not_above ↦
            let reached : active_total d ≡ target_total d = ground arith in
            let ends = resume-removed d (finished d) settled (removing_reached d reached) in
            (
              record d { dispatch_in_progress = false },
              rw (exhaust, ends) refl,
              reached,
              consistent,
              refl,
            )
      ]

  -- Where the table counts the active users, more are active than the target asks for and no rebalance
  -- is due, the generator of a dispatch ends after one `next` more than it takes iterations to reach the
  -- target, with exactly the users that the target asks for, with the table counting them, and with no
  -- dispatch in progress.
  pub exhaust-at_start :
      (k : ℕ) (d : Dispatcher)
      → Consistent d.users_on_workers d.active_users
      → d.rebalance ≡ false
      → 0 < d.user_count_per_dispatch_iteration
      → target_total d < active_total d
      → active_total d ≤ target_total d + k * d.user_count_per_dispatch_iteration
      → (d' : Dispatcher) × (exhaust smooth fuel (suc k) at_start d ≡ some (ok d'))
        × (active_total d' ≡ target_total d)
        × Consistent d'.users_on_workers d'.active_users
        × (d'.dispatch_in_progress ≡ false)
  unfolding exhaust active_total target_total
  exhaust-at_start zero d consistent settled some_users above most = absurd (ground arith)
  exhaust-at_start (suc k) d consistent settled some_users above most =
      let (d', left) =
        remove_users-Left (record d { dispatch_in_progress = true }) consistent above some_users in
      let step = resume-at_start d d' settled above left.removes in
      let (d'', ends, total, consistent'', idle) =
        exhaust-removed k d' left.consistent (left.same_rebalance ∙ settled)
          (omega (arith, left.same_iteration)) (ground (arith, left.total, left.same_target))
          (iterations-Left (record d { dispatch_in_progress = true }) d' k left most) in
      (d'', rw (exhaust, step) ends, total ∙ left.same_target, consistent'', idle)
