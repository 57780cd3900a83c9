-- ===== src/Tasks/AsyncGroup/Examples.antt =====
-- A group of four requests: the second fails, and the greenlet of the third is ended.
use grizzly.Common.{ℕ, ◌≡◌, refl, true, List, [], ◌∷◌, Option, some, Result, ok, err}
use grizzly.Common.Int.{pos}
use grizzly.Common.Text.{Text, codes}
use grizzly.Exceptions.{Exception, runtime_error, greenlet_exit, restart_scenario}
use grizzly.Tasks.Parent.{Fired, Parent, caught}
use grizzly.Tasks.AsyncGroup.{Member, request, Group, run_group}
use grizzly.Tasks.AsyncGroup.Laws.{first_failure, before_exit, total_length, run_group-reports}

abbrev answers : List (Result Exception (Option Text))
answers =
    ok (some (codes "abc")) ∷ err runtime_error ∷ err greenlet_exit ∷ ok (some (codes "de")) ∷ []

abbrev start : Parent ℕ ℕ
start = record {
  identifier = codes "1";
  failure_exception = some restart_scenario;
  variables = [];
  fired = [];
  errors = 0;
  rest = 0;
}

abbrev group : Group
group = record {
  name = codes "all";
  tasks =
      request (codes "a") true
      ∷ request (codes "b") true
      ∷ request (codes "c") true
      ∷ request (codes "d") true
      ∷ [];
}

abbrev join :
    List Member → Parent ℕ ℕ → Result Exception (List (Result Exception (Option Text))) × Parent ℕ ℕ
join members p = (ok answers, p)

run_group-reports_example :
    ((event : Fired) × ((run_group (λ text. text) join true group start).1
        ≡ record start { fired = event ∷ [] })
      × (event.response_length ≡ pos (total_length (λ text. text) (before_exit answers)))
      × (event.exception ≡ first_failure (before_exit answers)))
    × ((run_group (λ text. text) join true group start).0 ≡ err restart_scenario)
unfolding first_failure before_exit caught
run_group-reports_example = run_group-reports (λ text. text) join group start start answers refl
