-- ===== src/Tasks/AsyncGroup.antt =====
-- `AsyncRequestGroupTask` of grizzly/tasks/async_group.py. How the requests of a group interleave is
-- the parameter `join`, which spawns a greenlet for each and waits for all; it gives for each of them,
-- in the order of the group, the payload that `_, payload = greenlet.get()` sets or what it raises. `encode` is UTF-8.
pub mod Laws
mod Examples
use grizzly.Common.{
  ℕ, ◌+◌, Bool, true, false, not, List, [], ◌∷◌, ◌++◌, Option, none, some, if◌then◌else◌, length,
  Result, ok, err,
}
use grizzly.Common.Int.{pos}
use grizzly.Common.Text.{Text, codes}
use grizzly.Common.Decimal.{show}
use grizzly.Exceptions.{Exception, type_error, not_implemented_error}
use grizzly.Tasks.Parent.{Parent, Task, caught, fire}

-- A task that is added: a RequestTask with its name and `async_request`, or one of another class.
pub data Member : Type 0 where
  request : Text → Bool → Member
  no_request : Member

pub record Group : Type 0 where
  pub name : Text
  pub tasks : List Member

-- AsyncRequestGroupTask.add
pub add : Member → Group → Result Exception Group
add (request name async_request) group =
    ok (record group {
      tasks = group.tasks ++ request (group.name ++ (codes ":" ++ name)) true ∷ [];
    })
add no_request group = err type_error

-- The exception that is remembered is the first.
pub or_first : Option Exception → Exception → Option Exception
or_first none e = some e
or_first (some first) e = some first

-- What leaves a `try` whose `except Exception` is given `e`: GreenletExit, and no other.
pub passed_by : Exception → Result Exception (Unit {0})
passed_by e = elim (caught {A = Unit {0}} (err e)) [ none ↦ err e | some e' ↦ ok tt ]

-- What leaves the `finally`: the failure exception, where one is raised, and otherwise what came to it.
pub leaves :
    Option Exception → Option Exception → Result Exception (Unit {0}) → Result Exception (Unit {0})
leaves (some e) (some failure) left = err failure
leaves _ _ left = left

module _ (encode : Text → List ℕ) where
  pub payload_length : Option Text → ℕ
  payload_length none = 0
  payload_length (some payload) = length (encode payload)

  -- The loop over the greenlets, for the length and the exception so far, with what leaves it: a
  -- GreenletExit ends it, and is not remembered.
  pub collect :
      ℕ
      → Option Exception
      → List (Result Exception (Option Text))
      → ℕ × Option Exception × Result Exception (Unit {0})
  collect total first [] = (total, first, ok tt)
  collect total first (ok payload ∷ results) =
      collect (total + payload_length payload) first results
  collect total first (err e ∷ results) = elim (caught {A = Unit {0}} (err e)) [
    | none ↦ (total, first, err e)
    | some e' ↦ collect total (or_first first e) results
  ]

  module _ {V W : Type 0} where
    -- The `finally`, for the length, the exception that is remembered and what leaves the `try`.
    pub finish : Group → ℕ × Option Exception × Result Exception (Unit {0}) → Task V W
    finish group (total, exception, left) p =
        let name = group.name ++ (codes " (" ++ (show (pos (length group.tasks)) ++ codes ")")) in
        (
          leaves exception p.failure_exception left,
          fire (codes "ASYNC") name (pos total) exception p,
        )

    -- What follows the greenlets.
    pub after_join :
        Group
        → Result Exception (List (Result Exception (Option Text))) × Parent V W
        → Result Exception (Unit {0}) × Parent V W
    after_join group (ok results, p) = finish group (collect 0 none results) p
    after_join group (err e, p) = finish group (0, caught {A = Unit {0}} (err e), passed_by e) p

    -- The task of AsyncRequestGroupTask.__call__, for a user that does or does not inherit AsyncRequests.
    pub run_group :
        (List Member
          → Parent V W
          → Result Exception (List (Result Exception (Option Text))) × Parent V W)
        → Bool
        → Group
        → Task V W
    run_group join is_async group p =
        if not is_async
        then (err not_implemented_error, p)
        else after_join group (join group.tasks p)
