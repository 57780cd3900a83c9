-- ===== src/Locust/Distribution/Laws.antt =====
-- The distribution adds up to the number of users.
use grizzly.Common.{
  ℕ, zero, suc, ◌-◌, ◌≤◌, ◌<◌, ◌≡◌, ◌∙◌, refl, Bool, true, false, List, [], ◌∷◌, some, arith, ltb,
  leb, length, list_eq, nat_eq, contains, ok, Bool-cases, inl, inr,
}
use std.Path.{subst}
use grizzly.Common.Dict.{lookup, insert, keys}
use grizzly.Common.Equality.{list_beq_iff}
use grizzly.Common.Text.{Text}
use grizzly.Locust.Sorting.{by_value, sorted, insert_by}
use grizzly.Locust.Cycle.{sum_values}
use grizzly.Locust.Counts.{Counts, get_zero}
use grizzly.Locust.Dispatcher.Target.{Distinct}
use grizzly.Locust.Distribution.Sharing.{
  AllPositive, Shared, reduce_pass-Shared, Distinct-insert, AllPositive-insert,
}
use grizzly.Locust.Distribution.{Weighted, shares, reduce_pass, reduce, distribute, total_weight}

reduce_pass_le :
    (overflow : ℕ) (names : List Text) (d : Counts) → (reduce_pass overflow names d).0 ≤ overflow
unfolding reduce_pass
reduce_pass_le overflow [] d = omega arith
reduce_pass_le overflow (name ∷ names) d = ground (
  arith,
  reduce_pass_le overflow names d,
  reduce_pass_le (overflow - 1) names (insert name (get_zero name d - 1) d),
)

-- A pass that meets a class with more than one user takes one away.
reduce_pass_lt :
    (overflow : ℕ) (name : Text) (names : List Text) (d : Counts)
    → 0 < overflow
    → 1 < get_zero name d
    → contains name names ≡ true
    → (reduce_pass overflow names d).0 < overflow
unfolding reduce_pass contains
reduce_pass_lt overflow name [] d over many inside = absurd (ground arith)
reduce_pass_lt overflow name (k ∷ names) d over many inside = ground (
  arith,
  list_beq_iff k name,
  reduce_pass_lt overflow name names d,
  reduce_pass_le (overflow - 1) names (insert k (get_zero k d - 1) d),
)

-- Where there are more users than classes, a class has more than one.
above_one :
    (d : Counts)
    → Distinct d
    → length d < sum_values d
    → (name : Text) × (1 < get_zero name d) × (contains name (keys d) ≡ true)
unfolding Distinct get_zero lookup sum_values keys contains
above_one [] distinct more = absurd (ground arith)
above_one ((k, n) ∷ d) (absent, distinct) more = elim (Bool-cases (ltb 1 n)) [
  | inl many ↦ (k, ground (arith, list_beq_iff k k), ground (arith, list_beq_iff k k))
  | inr few ↦
      let (name, many, inside) = above_one d distinct (ground arith) in
      (name, ground (arith, list_beq_iff k name, absent), ground (arith, inside))
]

contains-insert_by :
    (name : Text) (le : Text × ℕ → Text × ℕ → Bool) (x : Text × ℕ) (ys : List (Text × ℕ))
    → contains name (keys (insert_by le x ys)) ≡ contains name (keys (x ∷ ys))
unfolding insert_by keys contains
contains-insert_by name le x [] = refl
contains-insert_by name le x (y ∷ ys) = ground (arith, contains-insert_by name le x ys)

contains-sorted :
    (name : Text) (le : Text × ℕ → Text × ℕ → Bool) (d : List (Text × ℕ))
    → contains name (keys (sorted le d)) ≡ contains name (keys d)
unfolding sorted keys contains
contains-sorted name le [] = refl
contains-sorted name le (x ∷ d) =
    ground (arith, contains-insert_by name le x (sorted le d), contains-sorted name le d)

reduce-Shared :
    (user_count overflow fuel : ℕ) (d : Counts)
    → overflow < fuel
    → Shared user_count overflow d
    → (d' : Counts) × (reduce fuel overflow d ≡ some d') × Shared user_count 0 d'
unfolding reduce by_value
reduce-Shared user_count overflow zero d enough shared = absurd (omega arith)
reduce-Shared user_count overflow (suc fuel) d enough shared = elim (Bool-cases (ltb 0 overflow)) [
  | inl over ↦
      let names = keys (by_value d) in
      let (name, many, inside) =
        above_one d shared.distinct (ground (arith, shared.sum, shared.enough)) in
      let less =
        reduce_pass_lt overflow name names d (ground arith) many
          (contains-sorted name (λ p q. leb q.1 p.1) d ∙ inside) in
      let (shared', le) = reduce_pass-Shared user_count overflow names d (ground arith) shared in
      let (d', reduces, last) =
        reduce-Shared user_count (reduce_pass overflow names d).0 fuel
          (reduce_pass overflow names d).1 (omega arith) shared' in
      (d', rw (reduce, over) reduces, last)
  | inr done ↦
      let none_left : overflow ≡ 0 = ground arith in
      (d, rw (reduce, done) refl, subst (λ k. Shared user_count k d) none_left shared)
]

-- Every user has a weight.
unfoldable pub AllWeighted : List Weighted → Type 0
AllWeighted [] = Unit
AllWeighted (s ∷ scenarios) = (0 < s.weight) × AllWeighted scenarios

shares-Distinct :
    (share : ℕ → ℕ) (scenarios : List Weighted) (d : Counts)
    → ((weight : ℕ) → 0 < weight → 0 < share weight)
    → AllWeighted scenarios
    → Distinct d
    → AllPositive d
    → Distinct (shares share d scenarios) × AllPositive (shares share d scenarios)
unfolding shares AllWeighted
shares-Distinct share [] d some_users weighted distinct positive = (distinct, positive)
shares-Distinct share (s ∷ scenarios) d some_users (weight, weighted) distinct positive =
    shares-Distinct share scenarios (insert s.class_name (share s.weight) d) some_users weighted
      (Distinct-insert s.class_name (share s.weight) d distinct)
      (AllPositive-insert s.class_name (share s.weight) d (some_users s.weight weight) positive)

module _ (share : ℕ → ℕ → ℕ → ℕ) where
  -- The shares of the scenarios, before users are taken away.
  abbrev pub shares_of : ℕ → List Weighted → Counts
  shares_of user_count scenarios =
      shares (λ weight. share user_count weight (total_weight scenarios)) [] scenarios

  -- Where every scenario has a weight, a share is never 0, the shares are at least the number of users
  -- and there are no more classes than users: the distribution of one scenario or more ends, with more
  -- fuel than there are users too many, and the users of the classes add up to the number of users, with
  -- at least one for each class.
  pub distribute-sum_values :
      (user_count fuel : ℕ) (s : Weighted) (scenarios : List Weighted)
      → ((weight : ℕ) → 0 < weight → 0 < share user_count weight (total_weight (s ∷ scenarios)))
      → AllWeighted (s ∷ scenarios)
      → user_count ≤ sum_values (shares_of user_count (s ∷ scenarios))
      → length (shares_of user_count (s ∷ scenarios)) ≤ user_count
      → sum_values (shares_of user_count (s ∷ scenarios)) - user_count < fuel
      → (d : Counts) × (distribute share fuel user_count (s ∷ scenarios) ≡ some (ok d))
        × (sum_values d ≡ user_count)
        × AllPositive d
  unfolding distribute total_weight AllWeighted Distinct AllPositive
  distribute-sum_values user_count fuel s scenarios some_users weighted enough few fuelled =
      let all = s ∷ scenarios in
      let d = shares_of user_count all in
      let overflow = sum_values d - user_count in
      let (distinct, positive) =
        shares-Distinct (λ weight. share user_count weight (total_weight all)) all [] some_users
          weighted tt tt in
      let (d', reduces, last) =
        reduce-Shared user_count overflow fuel d fuelled
          (record { distinct = distinct; positive = positive; sum = omega arith; enough = few }) in
      let has_weight : leb (total_weight all) 0 ≡ false = ground (arith, weighted.0) in
      let some_scenario : leb (length all) 0 ≡ false = ground arith in
      let fits : ltb user_count (length d) ≡ false = ground arith in
      (
        d',
        rw (distribute, some_scenario, has_weight, fits, reduces) refl,
        omega (arith, last.sum),
        last.positive,
      )
