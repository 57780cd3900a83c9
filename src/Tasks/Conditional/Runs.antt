-- ===== src/Tasks/Conditional/Runs.antt =====
-- What a sequence of wrapped tasks of grizzly/tasks does, as a relation.
use grizzly.Common.{
  sym, ◌≡◌, refl, List, [], ◌∷◌, arith, list_eq, nat_eq, Result, ok, err, inl, inr, ◌⊎◌,
}
use std.Path.{subst}
use grizzly.Exceptions.{Exception}
use grizzly.Tasks.Parent.{Parent, Task, run_tasks}

-- A run of tasks: each is followed by a wait, and the first exception ends it.
pub data Runs {V W : Type 0} (sleep : Task V W)
    : List (Task V W) → Parent V W → Result Exception (Unit {0}) × Parent V W → Type 0 where
  ends : (p : Parent V W) → Runs sleep [] p (ok tt, p)
  fails :
      (task : Task V W) (tasks : List (Task V W)) (p q : Parent V W) (e : Exception)
      → task p ≡ (err e, q)
      → Runs sleep (task ∷ tasks) p (err e, q)
  is_woken :
      (task : Task V W) (tasks : List (Task V W)) (p q r : Parent V W) (e : Exception)
      → task p ≡ (ok tt, q)
      → sleep q ≡ (err e, r)
      → Runs sleep (task ∷ tasks) p (err e, r)
  goes_on :
      (task : Task V W) (tasks : List (Task V W)) (p q r : Parent V W)
      (end : Result Exception (Unit {0}) × Parent V W)
      → task p ≡ (ok tt, q)
      → sleep q ≡ (ok tt, r)
      → Runs sleep tasks r end
      → Runs sleep (task ∷ tasks) p end

module _ {V W : Type 0} (sleep : Task V W) where
  outcome :
      (r : Result Exception (Unit {0}) × Parent V W)
      → ((q : Parent V W) × (r ≡ (ok tt, q)))
        ⊎ ((e : Exception) × (q : Parent V W) × (r ≡ (err e, q)))
  outcome (ok tt, q) = inl (q, refl)
  outcome (err e, q) = inr (e, q, refl)

  pub run_tasks-Runs :
      (tasks : List (Task V W)) (p : Parent V W) → Runs sleep tasks p (run_tasks sleep tasks p)
  unfolding run_tasks
  run_tasks-Runs [] p = ends p
  run_tasks-Runs (task ∷ tasks) p = elim (outcome (task p)) [
    | inr (e, q, raises) ↦
        let all : run_tasks sleep (task ∷ tasks) p ≡ (err e, q) = ground (arith, raises) in
        subst (Runs sleep (task ∷ tasks) p) (sym all) (fails task tasks p q e raises)
    | inl (q, returns) ↦ elim (outcome (sleep q)) [
      | inr (e, r, wakes) ↦
          let all : run_tasks sleep (task ∷ tasks) p ≡ (err e, r) =
            ground (arith, returns, wakes) in
          subst (Runs sleep (task ∷ tasks) p) (sym all) (is_woken task tasks p q r e returns wakes)
      | inl (r, sleeps) ↦
          let all : run_tasks sleep (task ∷ tasks) p ≡ run_tasks sleep tasks r =
            ground (arith, returns, sleeps) in
          subst (Runs sleep (task ∷ tasks) p) (sym all) (
            goes_on task tasks p q r (run_tasks sleep tasks r) returns sleeps
              (run_tasks-Runs tasks r))
    ]
  ]
