-- ===== src/Locust/Dispatcher/Tagged.antt =====
-- Users are placed on the workers of the tag of their class.
use grizzly.Common.{
  ℕ, zero, suc, ◌+◌, ◌≡◌, refl, Bool, true, false, ◌&&◌, List, [], ◌∷◌, ◌++◌, Option, none, some,
  arith, ltb, leb, list_eq, nat_eq, ◌==◌, contains, Result, ok, err, >>=-eq-ok, Bool-cases,
  Option-cases, inl, inr, ◌⊎◌, All,
}
use grizzly.Common.Dict.{Dict, lookup, insert, lookup-insert}
use grizzly.Common.Equality.{list_beq_iff}
use grizzly.Common.Text.{Text}
use grizzly.Exceptions.{Exception}
use grizzly.Locust.Cycle.{next}
use grizzly.Locust.Counts.{Counts, at, update_count}
use grizzly.Locust.Dispatcher.{
  Placement, Placed, Next, yields, returns, raises, next_user, place_on, place_next, place_user,
  place_users,
}

-- The worker is one of those of the tag of the class.
unfoldable pub allowed : Dict Text (List Text) → Dict Text Text → Text × Text → Bool
allowed workers_of_tag tags (worker, name) = elim (lookup name tags) [
  | none ↦ false
  | some tag ↦ elim (lookup tag workers_of_tag) [
    | none ↦ false
    | some workers ↦ contains worker workers
  ]
]

-- A cycle has no other workers than those of its tag.
unfoldable pub InTag : Dict Text (List Text) → Text → Text → Type 0
InTag workers_of_tag tag worker =
    (workers : List Text) × (lookup tag workers_of_tag ≡ some workers)
    × (contains worker workers ≡ true)

pub record Tagged (workers_of_tag : Dict Text (List Text)) (tags : Dict Text Text)
    (cycles : Dict Text (List Text)) (active : List (Text × Text)) : Type 0 where
  pub in_tag :
      (tag : Text) (cycle : List Text)
      → lookup tag cycles ≡ some cycle
      → All (InTag workers_of_tag tag) cycle
  pub placed : All (λ u. allowed workers_of_tag tags u ≡ true) active

at-eq-ok : {A : Type 0} (k : Text) (d : Dict Text A) (a : A) → at k d ≡ ok a → lookup k d ≡ some a
unfolding at
at-eq-ok k d a h = elim (Option-cases (lookup k d)) [
  | inl absent ↦ absurd (ground (arith, absent))
  | inr (b, present) ↦ ground (arith, present)
]

All-rotate :
    {A : Type 0} (P : A → Type 0) (x : A) (xs : List A) → P x → All P xs → All P (xs ++ x ∷ [])
All-rotate P x [] h tt = (h, tt)
All-rotate P x (y ∷ ys) h (k, ks) = (k, All-rotate P x ys h ks)

allowed-InTag :
    (workers_of_tag : Dict Text (List Text)) (tags : Dict Text Text) (worker name tag : Text)
    → lookup name tags ≡ some tag
    → InTag workers_of_tag tag worker
    → allowed workers_of_tag tags (worker, name) ≡ true
unfolding allowed InTag
allowed-InTag workers_of_tag tags worker name tag has_tag (workers, grouped, inside) =
    rw (allowed, has_tag, grouped) inside

Next-cases :
    (n : Next)
    → ((name : Text) × (names : List (Option Text)) × (n ≡ yields name names))
      ⊎ ((n ≡ returns) ⊎ ((e : Exception) × (n ≡ raises e)))
Next-cases (yields name names) = inl (name, names, refl)
Next-cases returns = inr (inl refl)
Next-cases (raises e) = inr (inr (e, refl))

pub Result-cases :
    {A : Type 0} (r : Result Exception A) → ((e : Exception) × (r ≡ err e)) ⊎ ((a : A) × (r ≡ ok a))
Result-cases (err e) = inl (e, refl)
Result-cases (ok a) = inr (a, refl)

module _ (workers_of_tag : Dict Text (List Text)) (tags : Dict Text Text) where
  place_on-Tagged :
      (name sticky_tag : Text) (count : ℕ) (cycle : List Text) (p p' : Placement) (added : Bool)
      → Tagged workers_of_tag tags p.cycles p.active_users
      → lookup name tags ≡ some sticky_tag
      → lookup sticky_tag p.cycles ≡ some cycle
      → place_on name count sticky_tag (next cycle) p ≡ ok (added, p')
      → Tagged workers_of_tag tags p'.cycles p'.active_users
  unfolding place_on next
  place_on-Tagged name sticky_tag count [] p p' added tagged has_tag has_cycle h =
      absurd (ground arith)
  place_on-Tagged name sticky_tag count (worker ∷ rest) p p' added tagged has_tag has_cycle h =
      let (table, updates, ends) =
        >>=-eq-ok (update_count (λ n. n + 1) worker name p.users_on_workers) _ h in
      let all = tagged.in_tag sticky_tag (worker ∷ rest) has_cycle in
      let cycles' : p'.cycles ≡ insert sticky_tag (rest ++ worker ∷ []) p.cycles =
        ground (arith, ends) in
      let active' : p'.active_users ≡ (worker, name) ∷ p.active_users = ground (arith, ends) in
      rw (cycles', active')
        (record {
          in_tag = λ tag cycle' has'. elim (Bool-cases (sticky_tag == tag)) [
            | inl same ↦
                let here = (list_beq_iff sticky_tag tag).0 same in
                let rotated : cycle' ≡ rest ++ worker ∷ [] = ground (
                  arith,
                  same,
                  has',
                  lookup-insert sticky_tag tag (rest ++ worker ∷ []) p.cycles,
                ) in
                rw (rotated, ← here)
                  (All-rotate (InTag workers_of_tag sticky_tag) worker rest all.0 all.1)
            | inr other ↦ tagged.in_tag tag cycle' (
                ground
                  (arith, other, has', lookup-insert sticky_tag tag (rest ++ worker ∷ []) p.cycles))
          ];
          placed = (
            allowed-InTag workers_of_tag tags worker name sticky_tag has_tag all.0,
            tagged.placed,
          );
        })

  place_user-Tagged :
      (target : Counts) (name : Text) (p p' : Placement) (added : Bool)
      → Tagged workers_of_tag tags p.cycles p.active_users
      → place_user tags target name p ≡ ok (added, p')
      → Tagged workers_of_tag tags p'.cycles p'.active_users
  unfolding place_user place_next
  place_user-Tagged target name p p' added tagged h =
      let (count, has_count, h1) = >>=-eq-ok (at name p.user_count) _ h in
      let (limit, has_limit, h2) = >>=-eq-ok (at name target) _ h1 in
      elim (Bool-cases (ltb limit (count + 1))) [
        | inl full ↦ let kept : p' ≡ p = ground (arith, full, h2) in rw kept tagged
        | inr fits ↦
            let h3 : place_next tags name count p ≡ ok (added, p') = ground (arith, fits, h2) in
            let (sticky_tag, has_tag, h4) = >>=-eq-ok (at name tags) _ h3 in
            let (cycle, has_cycle, h5) = >>=-eq-ok (at sticky_tag p.cycles) _ h4 in
            place_on-Tagged name sticky_tag count cycle p p' added tagged
              (at-eq-ok name tags sticky_tag has_tag) (at-eq-ok sticky_tag p.cycles cycle has_cycle)
              h5
      ]

  pub place_users-Tagged :
      (fuel limit : ℕ) (target : Counts) (names : List (Option Text)) (p : Placement)
      (last : Placed)
      → Tagged workers_of_tag tags p.cycles p.active_users
      → place_users fuel tags target limit names p ≡ some (ok last)
      → Tagged workers_of_tag tags last.placement.cycles last.placement.active_users
  unfolding place_users
  place_users-Tagged zero limit target names p last tagged h = absurd (ground arith)
  place_users-Tagged (suc fuel) limit target names p last tagged h =
      elim (Next-cases (next_user names)) [
        | inl (name, names', step) ↦ elim (Result-cases (place_user tags target name p)) [
          | inl (e, fails) ↦ absurd (ground (arith, step, fails, h))
          | inr ((added, p'), places) ↦
              let tagged' = place_user-Tagged target name p p' added tagged places in
              elim (Bool-cases (added && leb limit p'.total)) [
                | inl ends ↦
                    let same : last.placement ≡ p' = ground (arith, step, places, ends, h) in
                    rw same tagged'
                | inr goes_on ↦
                    place_users-Tagged fuel limit target names' p' last tagged'
                      (ground (arith, step, places, goes_on, h))
              ]
        ]
        | inr (inl ends) ↦ let same : last.placement ≡ p = ground (arith, ends, h) in rw same tagged
        | inr (inr (e, fails)) ↦ absurd (ground (arith, fails, h))
      ]
