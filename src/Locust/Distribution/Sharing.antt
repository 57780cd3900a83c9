-- ===== src/Locust/Distribution/Sharing.antt =====
-- What holds of a distribution while users are taken away.
use grizzly.Common.{
  ℕ, suc, ◌+◌, ◌-◌, ◌≤◌, ◌<◌, ◌≡◌, refl, false, List, [], ◌∷◌, arith, ltb, leb, length, list_eq,
  nat_eq, ◌==◌, Bool-cases, inl, inr,
}
use grizzly.Common.Dict.{lookup, insert, lookup-insert}
use grizzly.Common.Equality.{list_beq_iff}
use grizzly.Common.Text.{Text}
use grizzly.Locust.Cycle.{sum_values}
use grizzly.Locust.Counts.{Counts, get_zero}
use grizzly.Locust.Dispatcher.Target.{Distinct}
use grizzly.Locust.Distribution.{reduce_pass}

-- Every class has a user.
unfoldable pub AllPositive : Counts → Type 0
AllPositive [] = Unit
AllPositive ((name, n) ∷ rest) = (0 < n) × AllPositive rest

lookup-insert_absent :
    (j k : Text) (n : ℕ) (d : Counts) → (k == j) ≡ false → lookup j (insert k n d) ≡ lookup j d
lookup-insert_absent j k n d other = ground (arith, other, lookup-insert k j n d)

pub Distinct-insert : (k : Text) (n : ℕ) (d : Counts) → Distinct d → Distinct (insert k n d)
unfolding Distinct insert lookup
Distinct-insert k n [] distinct = (refl, tt)
Distinct-insert k n ((j, m) ∷ d) (absent, distinct) = elim (Bool-cases (j == k)) [
  | inl same ↦ rw same (absent, distinct)
  | inr other ↦ rw other (
    ground (arith, list_beq_iff j k, list_beq_iff k j, lookup-insert k j n d, absent),
    Distinct-insert k n d distinct,
  )
]

pub AllPositive-insert :
    (k : Text) (n : ℕ) (d : Counts) → 0 < n → AllPositive d → AllPositive (insert k n d)
unfolding AllPositive insert
AllPositive-insert k n [] some_users positive = (some_users, tt)
AllPositive-insert k n ((j, m) ∷ d) some_users (first, rest) = elim (Bool-cases (j == k)) [
  | inl same ↦ rw same (some_users, rest)
  | inr other ↦ rw other (first, AllPositive-insert k n d some_users rest)
]

-- One user less of a class that has some.
fewer :
    (name : Text) (n : ℕ) (d : Counts)
    → get_zero name d ≡ suc n
    → (suc (sum_values (insert name n d)) ≡ sum_values d) × (length (insert name n d) ≡ length d)
unfolding get_zero lookup insert sum_values
fewer name n [] has = absurd (ground arith)
fewer name n ((k, m) ∷ d) has = elim (Bool-cases (k == name)) [
  | inl same ↦ ground (arith, same)
  | inr other ↦ ground (arith, other, fewer name n d)
]

-- What holds of a distribution while it is reduced.
pub record Shared (user_count overflow : ℕ) (d : Counts) : Type 0 where
  pub distinct : Distinct d
  pub positive : AllPositive d
  pub sum : sum_values d ≡ user_count + overflow
  pub enough : length d ≤ user_count

pub reduce_pass-Shared :
    (user_count overflow : ℕ) (names : List Text) (d : Counts)
    → 0 < overflow
    → Shared user_count overflow d
    → Shared user_count (reduce_pass overflow names d).0 (reduce_pass overflow names d).1
      × ((reduce_pass overflow names d).0 ≤ overflow)
unfolding reduce_pass
reduce_pass-Shared user_count overflow [] d over shared = (shared, omega arith)
reduce_pass-Shared user_count overflow (name ∷ names) d over shared =
    elim (Bool-cases (leb (get_zero name d) 1)) [
      | inl one ↦ rw one (reduce_pass-Shared user_count overflow names d over shared)
      | inr many ↦
          let n = get_zero name d - 1 in
          let counted : get_zero name d ≡ suc n = ground arith in
          let (sum', size') = fewer name n d counted in
          let shared' : Shared user_count (overflow - 1) (insert name n d) = record {
            distinct = Distinct-insert name n d shared.distinct;
            positive = AllPositive-insert name n d (ground arith) shared.positive;
            sum = ground (arith, sum', shared.sum);
            enough = ground (arith, size', shared.enough);
          } in
          elim (Bool-cases (ltb (overflow - 1) 1)) [
            | inl last ↦ rw (many, last) (shared', omega arith)
            | inr further ↦
                let (shared'', less) =
                  reduce_pass-Shared user_count (overflow - 1) names (insert name n d)
                    (ground arith) shared' in
                rw (many, further) (shared'', omega arith)
          ]
    ]
