-- ===== src/Tasks/Wait/Laws.antt =====
-- The interval that a user waits.
use grizzly.Common.{
  ◌≡◌, ◌⊎◌, inl, inr, refl, Bool, true, false, Option, some, Result, ok, Bool-cases,
}
use grizzly.Common.Text.{Text}
use grizzly.Exceptions.{Exception}
use grizzly.Tasks.Parent.{Parent}
use grizzly.Tasks.Wait.{WaitTime, between, WaitBetween, read_time, wait_time, run_wait_between}

module _ {F V : Type 0} (render : Text → Parent V (WaitTime F) → Result Exception Text)
    (float : Text → Option F) (greater : F → F → Bool) where
  -- Where no time is greater than a time that is greater than it, and both times of a task render to
  -- numbers, the user waits between these two, in the order in which the first is not the greater one.
  run_wait_between_ordered :
      (task : WaitBetween) (p : Parent V (WaitTime F)) (time : Text) (a b : F)
      → ((x y : F) → greater x y ≡ true → greater y x ≡ false)
      → task.max_time ≡ some time
      → read_time render float greater task.min_time p ≡ ok a
      → read_time render float greater time p ≡ ok b
      → (least : F) × (most : F) × (run_wait_between render float greater task p
          ≡ (ok tt, record p { rest = between least most }))
        × (greater least most ≡ false)
        × (((least ≡ a) × (most ≡ b)) ⊎ ((least ≡ b) × (most ≡ a)))
  unfolding run_wait_between wait_time
  run_wait_between_ordered task p time a b asymmetric has min_time max_time =
      elim (Bool-cases (greater a b)) [
        | inl swapped ↦ (
          b,
          a,
          rw (run_wait_between, wait_time, min_time, has, max_time, swapped) refl,
          asymmetric a b swapped,
          inr (refl, refl),
        )
        | inr kept ↦ (
          a,
          b,
          rw (run_wait_between, wait_time, min_time, has, max_time, kept) refl,
          kept,
          inl (refl, refl),
        )
      ]
