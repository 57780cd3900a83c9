-- ===== src/Locust/Cycle.antt =====
-- `itertools.cycle` and the infinite generator of `FixedUsersDispatcher`. `smooth` of roundrobin is
-- the parameter that gives what its generator returns in so many calls.
use grizzly.Common.{
  ℕ, zero, suc, ◌+◌, ◌*◌, ◌/◌, ◌%◌, List, [], ◌∷◌, ◌++◌, map, Option, none, some, if◌then◌else◌,
  ltb, ◌=ℕ◌,
}
use grizzly.Common.Text.{Text}

-- A cycle is the list of its elements from the next one on.
unfoldable pub next : {A : Type 0} → List A → Option (A × List A)
next [] = none
next (x ∷ xs) = some (x, xs ++ x ∷ [])

-- The first elements of a cycle, as `zip` takes them.
unfoldable pub take_cycle : {A : Type 0} → ℕ → List A → List A
take_cycle zero xs = []
take_cycle (suc n) [] = []
take_cycle (suc n) (x ∷ xs) = x ∷ take_cycle n (xs ++ x ∷ [])

-- round(a / b): halves to the even neighbour.
unfoldable pub round_ratio : ℕ → ℕ → ℕ
round_ratio a b =
    let q = a / b in
    let r = a % b in
    if ltb (2 * r) b then q else if ltb b (2 * r) then q + 1 else if q % 2 =ℕ 0 then q else q + 1

-- The smallest weight above 0, or 0.
unfoldable pub min_value : List (Text × ℕ) → ℕ
min_value [] = 0
min_value ((value, weight) ∷ rest) =
    let least = min_value rest in
    if weight =ℕ 0
    then least
    else if least =ℕ 0
    then weight
    else if ltb weight least
    then weight
    else least

unfoldable pub normalized : List (Text × ℕ) → List (Text × ℕ)
normalized value_weights =
    let least = min_value value_weights in
    map (λ p. (p.0, if least =ℕ 0 then 0 else round_ratio (2 * p.1) least)) value_weights

unfoldable pub sum_values : {K : Type 0} → List (K × ℕ) → ℕ
sum_values [] = 0
sum_values ((k, n) ∷ rest) = n + sum_values rest

-- FixedUsersDispatcher._infinite_cycle_gen
unfoldable pub infinite_cycle_gen :
    (List (Text × ℕ) → ℕ → List Text) → List (Text × ℕ) → List (Option Text)
infinite_cycle_gen smooth [] = none ∷ []
infinite_cycle_gen smooth (p ∷ ps) =
    let weights = normalized (p ∷ ps) in map some (smooth weights (sum_values weights))
