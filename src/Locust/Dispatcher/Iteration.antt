-- ===== src/Locust/Dispatcher/Iteration.antt =====
-- A dispatch iteration that adds users.
use grizzly.Common.{ℕ, ◌≤◌, Option, none, some, list_eq, nat_eq, Option}
use grizzly.Common.Dict.{Dict}
use grizzly.Common.Text.{Text}
use grizzly.Locust.Counts.{Counts}
use grizzly.Locust.Dispatcher.{Dispatcher}
use grizzly.Locust.Dispatcher.Tagged.{Tagged}

-- A number against a target, where there is one.
pub AtMost : ℕ → Option ℕ → Type 0
AtMost n (some limit) = n ≤ limit
AtMost n none = Unit
