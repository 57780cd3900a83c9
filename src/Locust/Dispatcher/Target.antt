-- ===== src/Locust/Dispatcher/Target.antt =====
-- The counts of classes against their targets.
use grizzly.Common.{
  ℕ, suc, ◌+◌, ◌<◌, ◌≡◌, refl, [], ◌∷◌, none, some, arith, ltb, list_eq, nat_eq, Bool-cases, inl,
  inr,
}
use grizzly.Common.Dict.{Dict, lookup, insert, lookup-insert}
use grizzly.Common.Equality.{list_beq_iff}
use grizzly.Common.Text.{Text}
use grizzly.Locust.Cycle.{sum_values}
use grizzly.Locust.Counts.{Counts, get_zero}

-- No key stands twice.
unfoldable pub Distinct : {A : Type 0} → Dict Text A → Type 0
Distinct [] = Unit
Distinct ((k, a) ∷ d) = (lookup k d ≡ none) × Distinct d

-- The users of the classes that have a target.
unfoldable pub sum_for : Counts → Counts → ℕ
sum_for [] counts = 0
sum_for ((name, limit) ∷ target) counts = get_zero name counts + sum_for target counts

sum_for-insert_other :
    (name : Text) (n : ℕ) (target counts : Counts)
    → lookup name target ≡ none
    → sum_for target (insert name n counts) ≡ sum_for target counts
unfolding sum_for get_zero lookup
sum_for-insert_other name n [] counts absent = refl
sum_for-insert_other name n ((k, limit) ∷ target) counts absent = ground (
  arith,
  list_beq_iff k name,
  list_beq_iff name k,
  lookup-insert name k n counts,
  sum_for-insert_other name n target counts,
)

pub sum_for-insert :
    (name : Text) (n limit : ℕ) (target counts : Counts)
    → Distinct target
    → lookup name target ≡ some limit
    → lookup name counts ≡ some n
    → sum_for target (insert name (n + 1) counts) ≡ suc (sum_for target counts)
unfolding sum_for get_zero lookup Distinct
sum_for-insert name n limit [] counts distinct has counted = absurd (ground arith)
sum_for-insert name n limit ((k, l) ∷ target) counts (absent, distinct) has counted = ground (
  arith,
  list_beq_iff k name,
  list_beq_iff name k,
  lookup-insert name k (n + 1) counts,
  sum_for-insert_other name (n + 1) target counts,
  sum_for-insert name n limit target counts distinct,
)

-- Where there are fewer users than the targets ask for, a class is below its target.
pub below_target :
    (target counts : Counts)
    → Distinct target
    → sum_for target counts < sum_values target
    → (name : Text) × (limit : ℕ) × (lookup name target ≡ some limit)
      × (get_zero name counts < limit)
unfolding sum_for sum_values lookup Distinct
below_target [] counts distinct less = absurd (ground arith)
below_target ((k, l) ∷ target) counts (absent, distinct) less =
    elim (Bool-cases (ltb (get_zero k counts) l)) [
      | inl below ↦ (k, l, ground (arith, list_beq_iff k k), ground arith)
      | inr reached ↦
          let (name, limit, has, below) = below_target target counts distinct (ground arith) in
          (name, limit, ground (arith, list_beq_iff k name), below)
    ]
