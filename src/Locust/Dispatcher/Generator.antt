-- ===== src/Locust/Dispatcher/Generator.antt =====
-- `FixedUsersDispatcher.dispatcher`, a generator: the place where it waits is a `Point`, and each `next`
-- resumes it there. Waiting between the iterations is left out.
pub mod RampDown
mod Examples
use grizzly.Common.{
  ℕ, zero, suc, ◌+◌, Bool, true, false, List, [], ◌∷◌, Option, none, some, if◌then◌else◌, list_eq,
  nat_eq, Result, ok, err, ◌>>=◌,
}
use grizzly.Common.Dict.{Dict}
use grizzly.Common.Text.{Text}
use grizzly.Exceptions.{Exception}
use grizzly.Locust.Counts.{Counts}
use grizzly.Locust.Dispatcher.{
  Dispatcher, has_reached_target, is_below_target, is_above_target, add_users, remove_users,
}

-- Before the first line, or at one of the `yield`s, in their order.
pub data Point : Type 0 where
  at_start at_rebalance at_target added added_rebalance removed removed_rebalance : Point

-- The users that are yielded with the place of the `yield`, or the end of the generator.
pub data Step : Type 0 where
  yields : Dict Text Counts → Point → Dispatcher → Step
  stops : Dispatcher → Step

-- What stands behind the last loop.
unfoldable pub finished : Dispatcher → Step
finished d = stops (record d { dispatch_in_progress = false })

-- `self._rebalance = False`, and the yield behind it
rebalanced : Point → Dispatcher → Step
rebalanced point d = yields d.users_on_workers point (record d { rebalance = false })

-- The loop that removes users, from its condition on.
unfoldable pub removing : Dispatcher → Result Exception Step
removing d = elim (is_above_target d) [
  | false ↦ ok (finished d)
  | true ↦ remove_users d >>= λ d'. ok (yields d'.users_on_workers removed d')
]

module _ (smooth : List (Text × ℕ) → ℕ → List Text) (fuel : ℕ) where
  -- The loop that adds users, from its condition on.
  pub adding : Dispatcher → Option (Result Exception Step)
  adding d = elim (is_below_target d) [
    | false ↦ some (removing d)
    | true ↦ elim (add_users smooth fuel d) [
      | none ↦ none
      | some result ↦ some (result >>= λ d'. ok (yields d'.users_on_workers added d'))
    ]
  ]

  -- What stands behind the rebalance of that loop.
  pub after_added : Dispatcher → Option (Result Exception Step)
  after_added d = elim d.no_user_to_spawn [
    | true ↦ some (removing (record d { no_user_to_spawn = false }))
    | false ↦ adding d
  ]

  -- From the second test of the target on.
  pub before_loops : Dispatcher → Option (Result Exception Step)
  before_loops d = elim (has_reached_target d) [
    | true ↦ some (ok (yields d.initial_users_on_workers at_target d))
    | false ↦ adding d
  ]

  pub started : Dispatcher → Option (Result Exception Step)
  started d = elim d.rebalance [
    | true ↦ some (ok (rebalanced at_rebalance d))
    | false ↦ before_loops d
  ]

  -- `next` on the generator
  pub resume : Point → Dispatcher → Option (Result Exception Step)
  resume at_start d = started (record d { dispatch_in_progress = true })
  resume at_rebalance d = elim (has_reached_target d) [
    | true ↦ some (ok (stops d))
    | false ↦ before_loops d
  ]
  resume at_target d = some (ok (finished d))
  resume added d = elim d.rebalance [
    | true ↦ some (ok (rebalanced added_rebalance d))
    | false ↦ after_added d
  ]
  resume added_rebalance d = after_added d
  resume removed d = elim d.rebalance [
    | true ↦ some (ok (rebalanced removed_rebalance d))
    | false ↦ some (removing d)
  ]
  resume removed_rebalance d = some (removing d)

  -- What the generator leaves where it is resumed until it ends, at most so many times.
  pub exhaust : ℕ → Point → Dispatcher → Option (Result Exception Dispatcher)
  exhaust zero point d = none
  exhaust (suc n) point d = elim (resume point d) [
    | none ↦ none
    | some result ↦ elim result [
      | err e ↦ some (err e)
      | ok step ↦ elim step [
        | stops d' ↦ some (ok d')
        | yields users point' d' ↦ exhaust n point' d'
      ]
    ]
  ]
