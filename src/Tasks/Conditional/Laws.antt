-- ===== src/Tasks/Conditional/Laws.antt =====
-- How the two branches of a conditional are built, and which of them runs.
use grizzly.Common.{
  ℕ, length, if◌then◌else◌, ◌≡◌, ◌≢◌, refl, Bool, true, false, not, List, [], ◌∷◌, ◌++◌, map, some,
  arith, list_eq, nat_eq, ◌==◌, Result, ok, err, append-nil, append_assoc, Bool-cases, Option-cases,
  inl, inr, ◌⊎◌,
}
use grizzly.Common.Equality.{list_beq_iff}
use grizzly.Common.Text.{Text, codes}
use grizzly.Common.Int.{pos}
use grizzly.Common.Decimal.{show}
use grizzly.Exceptions.{Exception, runtime_error}
use grizzly.Tasks.Parent.{Fired, Named, Parent, Task, rename, caught, raised, fire, run_tasks}
use grizzly.Tasks.Conditional.Runs.{Runs, run_tasks-Runs}
use grizzly.Tasks.Conditional.{
  Conditional, tasks_of, or_empty, is_silent, switch, add, peek, finish, run_branch,
  run_conditional,
}

-- What jinja2 writes for a Boolean.
abbrev pub bool_text : Bool → Text
bool_text true = codes "True"
bool_text false = codes "False"

module _ {V W : Type 0} where
  -- The tasks that are added between two switches.
  pub add_all : List (Named (Task V W)) → Conditional V W → Conditional V W
  add_all [] c = c
  add_all (task ∷ tasks) c = add_all tasks (add task c)

  add_all-tasks_of :
      (b : Bool) (tasks before : List (Named (Task V W))) (c : Conditional V W)
      → c.pointer ≡ some b
      → tasks_of b c ≡ some before
      → (peek (add_all tasks c) ≡ ok (before ++ map (rename c.name) tasks))
        × (tasks_of (not b) (add_all tasks c) ≡ tasks_of (not b) c)
  unfolding add_all add peek
  add_all-tasks_of true [] before c at_b has = (rw (at_b, peek, has, append-nil) refl, refl)
  add_all-tasks_of false [] before c at_b has = (rw (at_b, peek, has, append-nil) refl, refl)
  add_all-tasks_of true (task ∷ tasks) before c at_b has =
      let next = before ++ rename c.name task ∷ [] in
      let added : add task c ≡ record c { on_true = some next } = ground (arith, at_b, has) in
      rw (added, ← append_assoc before (rename c.name task ∷ []) (map (rename c.name) tasks))
        (add_all-tasks_of true tasks next (record c { on_true = some next }) at_b refl)
  add_all-tasks_of false (task ∷ tasks) before c at_b has =
      let next = before ++ rename c.name task ∷ [] in
      let added : add task c ≡ record c { on_false = some next } = ground (arith, at_b, has) in
      rw (added, ← append_assoc before (rename c.name task ∷ []) (map (rename c.name) tasks))
        (add_all-tasks_of false tasks next (record c { on_false = some next }) at_b refl)

  -- Tasks that are added after a switch to a branch are appended to that branch in their order, each
  -- with the name of the conditional in front of its own; the other branch stays as it was.
  peek-add_all-switch :
      (b : Bool) (tasks : List (Named (Task V W))) (c : Conditional V W)
      → (peek (add_all tasks (switch (some b) c))
          ≡ ok (or_empty (tasks_of b c) ++ map (rename c.name) tasks))
        × (tasks_of (not b) (add_all tasks (switch (some b) c)) ≡ tasks_of (not b) c)
  unfolding switch
  peek-add_all-switch true tasks c = elim (Option-cases c.on_true) [
    | inl new ↦
        rw (new, switch)
          (add_all-tasks_of true tasks [] (record c { pointer = some true; on_true = some [] }) refl
            refl)
    | inr (before, old) ↦
        rw (old, switch)
          (add_all-tasks_of true tasks before (record c { pointer = some true }) refl old)
  ]
  peek-add_all-switch false tasks c = elim (Option-cases c.on_false) [
    | inl new ↦
        rw (new, switch)
          (add_all-tasks_of false tasks [] (record c { pointer = some false; on_false = some [] })
            refl refl)
    | inr (before, old) ↦
        rw (old, switch)
          (add_all-tasks_of false tasks before (record c { pointer = some false }) refl old)
  ]

module _ {V W : Type 0} where
  -- What a conditional with so many tasks makes of the end of its run: the failure exception for the
  -- exception, and an event with that and the number of tasks, or a logged error.
  pub Ends :
      ℕ
      → Result Exception (Unit {0}) × Parent V W
      → Result Exception (Unit {0}) × Parent V W
      → Type 0
  Ends count (result, q) (result', q') =
      (event : Fired) × (result' ≡ raised q.failure_exception result)
      × (q'.variables ≡ q.variables)
      × (q'.rest ≡ q.rest)
      × (event.exception ≡ caught result)
      × (event.response_length ≡ pos count)
      × (q'.fired ≡ (if is_silent (caught result) then q.fired else event ∷ q.fired))

module _ {V W : Type 0} (sleep : Task V W) where
  finish-Ends :
      (c : Conditional V W) (rendered : Text) (count : ℕ)
      (end : Result Exception (Unit {0}) × Parent V W)
      → Ends count end (finish sleep c rendered count end.0 end.1)
  unfolding Ends finish fire
  finish-Ends c rendered count (result, q) =
      let event : Fired = record {
        request_type = codes "COND";
        name =
            q.identifier
            ++ (codes " "
                ++ (c.name
                    ++ (codes ": "
                        ++ (rendered ++ (codes " (" ++ (show (pos count) ++ codes ")"))))));
        response_length = pos count;
        exception = caught result;
      } in
      elim (Bool-cases (is_silent (caught result))) [
        | inl silent ↦ rw silent (event, refl, refl, refl, refl, refl, refl)
        | inr reported ↦ rw reported (event, refl, refl, refl, refl, refl, refl)
      ]

module _ {V W : Type 0} (sleep : Task V W)
    (render : Text → Parent V W → Result Exception Text) where
  -- A run of the tasks of the branch, of which the conditional makes what `Ends` says.
  pub RunsBranch : Conditional V W → Bool → Parent V W → Type 0
  RunsBranch c b p =
      (end : Result Exception (Unit {0}) × Parent V W) × Runs sleep
        (map (λ t. t.run) (or_empty (tasks_of b c))) p end
      × Ends (length (or_empty (tasks_of b c))) end (run_conditional sleep render c p)

  run_branch-RunsBranch :
      (c : Conditional V W) (b : Bool) (p : Parent V W)
      → run_conditional sleep render c p
        ≡ run_branch sleep c (bool_text b) (or_empty (tasks_of b c)) p
      → RunsBranch c b p
  unfolding run_branch RunsBranch
  run_branch-RunsBranch c b p runs =
      let tasks = or_empty (tasks_of b c) in
      let end = run_tasks sleep (map (λ t. t.run) tasks) p in
      (
        end,
        run_tasks-Runs sleep (map (λ t. t.run) tasks) p,
        rw runs (finish-Ends sleep c (bool_text b) (length tasks) end),
      )

  -- A condition that renders to `True` or `False` runs the tasks of that branch and no other, in their
  -- order and up to the first exception: the variables are those that the run leaves; for an exception of
  -- the run the failure exception of the scenario is raised, where it has one, but a GreenletExit leaves
  -- as it is; and one event is fired, with the number of tasks and the exception that was caught, if any,
  -- unless that is StopUser or RestartScenario. Where the condition renders to anything else no task runs,
  -- one event reports a RuntimeError for 0 tasks, and the failure exception is raised, where there is one.
  pub run_conditional-cases :
      (c : Conditional V W) (p : Parent V W) (rendered : Text)
      → render c.condition p ≡ ok rendered
      → ((b : Bool) × (rendered ≡ bool_text b) × RunsBranch c b p)
        ⊎ ((rendered ≢ codes "True")
            × (rendered ≢ codes "False")
            × Ends 0 (err runtime_error, p) (run_conditional sleep render c p))
  unfolding run_conditional
  run_conditional-cases c p rendered h = elim (Bool-cases (rendered == codes "True")) [
    | inl is_true ↦
        let e = (list_beq_iff rendered (codes "True")).0 is_true in
        inl (true, e, run_branch-RunsBranch c true p (rw (run_conditional, h, is_true, ← e) refl))
    | inr not_true ↦ elim (Bool-cases (rendered == codes "False")) [
      | inl is_false ↦
          let e = (list_beq_iff rendered (codes "False")).0 is_false in
          inl (
            false,
            e,
            run_branch-RunsBranch c false p (rw (run_conditional, h, not_true, is_false, ← e) refl),
          )
      | inr not_false ↦
          let invalid : run_conditional sleep render c p
              ≡ finish sleep c (codes "Invalid") 0 (err runtime_error) p =
            rw (run_conditional, h, not_true, not_false) refl in
          inr (
            (λ e. cc ((list_beq_iff rendered (codes "True")).1 e)),
            (λ e. cc ((list_beq_iff rendered (codes "False")).1 e)),
            rw invalid (finish-Ends sleep c (codes "Invalid") 0 (err runtime_error, p)),
          )
    ]
  ]
