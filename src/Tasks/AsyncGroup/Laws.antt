-- ===== src/Tasks/AsyncGroup/Laws.antt =====
-- What a group of requests reports.
use grizzly.Common.{
  ℕ, ◌+◌, ◌≡◌, refl, true, List, [], ◌∷◌, ◌++◌, length, Option, none, some, arith, Result, ok, err,
  Option-cases, inl, inr,
}
use grizzly.Common.Int.{pos}
use grizzly.Common.Text.{Text, codes}
use grizzly.Common.Decimal.{show}
use grizzly.Exceptions.{Exception}
use grizzly.Tasks.Parent.{Fired, Parent, caught, fire}
use grizzly.Tasks.AsyncGroup.{
  Member, Group, payload_length, or_first, leaves, collect, finish, after_join, run_group,
}

-- The first exception among the results, and the length of all payloads.
unfoldable pub first_failure : List (Result Exception (Option Text)) → Option Exception
first_failure [] = none
first_failure (ok payload ∷ results) = first_failure results
first_failure (err e ∷ results) = some e

pub total_length : (Text → List ℕ) → List (Result Exception (Option Text)) → ℕ
total_length encode [] = 0
total_length encode (ok payload ∷ results) =
    payload_length encode payload + total_length encode results
total_length encode (err e ∷ results) = total_length encode results

-- The results that come before the first GreenletExit.
unfoldable pub before_exit :
    List (Result Exception (Option Text)) → List (Result Exception (Option Text))
before_exit [] = []
before_exit (ok payload ∷ results) = ok payload ∷ before_exit results
before_exit (err e ∷ results) = elim (caught {A = Unit {0}} (err e)) [
  | none ↦ []
  | some e' ↦ err e ∷ before_exit results
]

-- The first GreenletExit, where there is one.
unfoldable pub first_exit : List (Result Exception (Option Text)) → Result Exception (Unit {0})
first_exit [] = ok tt
first_exit (ok payload ∷ results) = first_exit results
first_exit (err e ∷ results) = elim (caught {A = Unit {0}} (err e)) [
  | none ↦ err e
  | some e' ↦ first_exit results
]

leaves-cases :
    (exception failure : Option Exception) (left : Result Exception (Unit {0}))
    → leaves exception failure left
      ≡ (elim exception [ none ↦ left | some e ↦ elim failure [ none ↦ left | some f ↦ err f ] ])
unfolding leaves
leaves-cases none none left = refl
leaves-cases none (some f) left = refl
leaves-cases (some e) none left = refl
leaves-cases (some e) (some f) left = refl

module _ (encode : Text → List ℕ) where
  collect-some :
      (total : ℕ) (first : Exception) (results : List (Result Exception (Option Text)))
      → collect encode total (some first) results
        ≡ (total + total_length encode (before_exit results), some first, first_exit results)
  unfolding collect total_length before_exit first_exit or_first
  collect-some total first [] = ground arith
  collect-some total first (ok payload ∷ results) =
      ground (arith, collect-some (total + payload_length encode payload) first results)
  collect-some total first (err e ∷ results) = elim (Option-cases (caught {A = Unit {0}} (err e))) [
    | inl passes ↦ rw (collect, before_exit, first_exit, passes) (ground arith)
    | inr (e', catches) ↦
        rw (collect, before_exit, first_exit, catches) (collect-some total first results)
  ]

  collect-none :
      (total : ℕ) (results : List (Result Exception (Option Text)))
      → collect encode total none results ≡ (
        total + total_length encode (before_exit results),
        first_failure (before_exit results),
        first_exit results,
      )
  unfolding collect total_length before_exit first_exit or_first first_failure
  collect-none total [] = ground arith
  collect-none total (ok payload ∷ results) =
      ground (arith, collect-none (total + payload_length encode payload) results)
  collect-none total (err e ∷ results) = elim (Option-cases (caught {A = Unit {0}} (err e))) [
    | inl passes ↦ rw (collect, before_exit, first_exit, passes) (ground arith)
    | inr (e', catches) ↦
        rw (collect, before_exit, first_exit, catches) (collect-some total e results)
  ]

  module _ {V W : Type 0}
      (join : List Member
        → Parent V W
        → Result Exception (List (Result Exception (Option Text))) × Parent V W) where
    -- The event of a group whose greenlets were joined has, of the results in the order of the group
    -- and before the first GreenletExit among them, the length of all the payloads, also where requests
    -- failed, and the first failure. Where there is such a failure and the scenario has a failure
    -- exception, the group raises that; otherwise it raises the first GreenletExit, where there is one,
    -- and returns where there is none.
    pub run_group-reports :
        (group : Group) (p p' : Parent V W) (results : List (Result Exception (Option Text)))
        → join group.tasks p ≡ (ok results, p')
        → ((event : Fired) × ((run_group encode join true group p).1
              ≡ record p' { fired = event ∷ p'.fired })
            × (event.response_length ≡ pos (total_length encode (before_exit results)))
            × (event.exception ≡ first_failure (before_exit results)))
          × ((run_group encode join true group p).0 ≡ (elim (first_failure (before_exit results)) [
            | none ↦ first_exit results
            | some e ↦ elim p'.failure_exception [
              | none ↦ first_exit results
              | some failure ↦ err failure
            ]
          ]))
    unfolding run_group after_join finish fire
    run_group-reports group p p' results joined =
        let all : collect encode 0 none results ≡ (
          total_length encode (before_exit results),
          first_failure (before_exit results),
          first_exit results,
        ) =
          ground (arith, collect-none 0 results) in
        let length_of = total_length encode (before_exit results) in
        rw (joined, all)
          (
            (
              record {
                request_type = codes "ASYNC";
                name =
                    p'.identifier
                    ++ (codes " "
                        ++ (group.name
                            ++ (codes " (" ++ (show (pos (length group.tasks)) ++ codes ")"))));
                response_length = pos length_of;
                exception = first_failure (before_exit results);
              },
              refl,
              refl,
              refl,
            ),
            leaves-cases (first_failure (before_exit results)) p'.failure_exception
                (first_exit results),
          )
