-- ===== src/Tasks/Conditional/Examples.antt =====
-- A conditional with tasks in one branch, for a template that is its own text.
use grizzly.Common.{
  ℕ, suc, ◌+◌, ◌≡◌, ◌≢◌, ◌⊎◌, refl, Bool, [], ◌∷◌, none, some, list_eq, nat_eq, Result, ok, err,
}
use grizzly.Common.Text.{Text, codes}
use grizzly.Exceptions.{Exception, runtime_error, restart_scenario}
use grizzly.Tasks.Parent.{Named, Parent, Task}
use grizzly.Tasks.Conditional.{Conditional, run_conditional}
use grizzly.Tasks.Conditional.Laws.{bool_text, Ends, RunsBranch, run_conditional-cases}

abbrev count : Task ℕ ℕ
count p = (ok tt, record p { rest = suc p.rest })

abbrev named : Named (Task ℕ ℕ)
named = record { name = some (codes "count"); run = count }

-- It gives another end result where it runs before `named`.
abbrev doubled : Named (Task ℕ ℕ)
doubled = record { name = none; run = λ p. (ok tt, record p { rest = p.rest + p.rest }) }

abbrev choice : Conditional ℕ ℕ
choice = record {
  name = codes "choice";
  condition = codes "True";
  pointer = none;
  on_true = some (named ∷ doubled ∷ []);
  on_false = none;
}

abbrev start : Parent ℕ ℕ
start = record {
  identifier = codes "1";
  failure_exception = some restart_scenario;
  variables = [];
  fired = [];
  errors = 0;
  rest = 0;
}

abbrev own_text : Text → Parent ℕ ℕ → Result Exception Text
own_text text p = ok text

run_conditional-cases_example :
    ((b : Bool) × (codes "True" ≡ bool_text b) × RunsBranch count own_text choice b start)
    ⊎ ((codes "True" ≢ codes "True")
        × (codes "True" ≢ codes "False")
        × Ends 0 (err runtime_error, start) (run_conditional count own_text choice start))
run_conditional-cases_example =
    run_conditional-cases count own_text choice start (codes "True") refl
