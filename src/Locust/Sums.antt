-- ===== src/Locust/Sums.antt =====
-- The sum over all workers that the dispatcher keeps, against the count of one class.
use grizzly.Common.{ℕ, ◌+◌, ◌≡◌, [], ◌∷◌, arith, if◌then◌else◌, list_eq, nat_eq, ◌==◌}
use grizzly.Common.Dict.{Dict, lookup, insert, lookup-insert}
use grizzly.Common.Equality.{list_beq_iff}
use grizzly.Common.Text.{Text}
use grizzly.Locust.Counts.{Counts, get_zero, merge, sum_counts, current_count}
use grizzly.Locust.Dispatcher.Target.{Distinct}

-- No worker has two counts for a class.
unfoldable pub AllDistinct : Dict Text Counts → Type 0
AllDistinct [] = Unit
AllDistinct ((worker, counts) ∷ table) = Distinct counts × AllDistinct table

get_zero-insert :
    (name k : Text) (n : ℕ) (counts : Counts)
    → get_zero name (insert k n counts) ≡ (if k == name then n else get_zero name counts)
unfolding get_zero
get_zero-insert name k n counts = ground (arith, lookup-insert k name n counts)

get_zero-merge :
    (name : Text) (current counts : Counts)
    → Distinct counts
    → get_zero name (merge current counts) ≡ get_zero name current + get_zero name counts
unfolding merge Distinct get_zero lookup
get_zero-merge name current [] distinct = ground arith
get_zero-merge name current ((k, n) ∷ rest) (absent, distinct) = ground (
  arith,
  get_zero-merge name (insert k (get_zero k current + n) current) rest distinct,
  get_zero-insert name k (get_zero k current + n) current,
  list_beq_iff k name,
)

get_zero-sum_counts :
    (name : Text) (current : Counts) (table : Dict Text Counts)
    → AllDistinct table
    → get_zero name (sum_counts current table) ≡ get_zero name current + current_count name table
unfolding sum_counts current_count AllDistinct
get_zero-sum_counts name current [] distinct = ground arith
get_zero-sum_counts name current ((worker, counts) ∷ table) (one, distinct) = ground (
  arith,
  get_zero-sum_counts name (merge current counts) table distinct,
  get_zero-merge name current counts one,
)

-- Where no worker has two counts for a class, the sum over all classes that the loops over the workers
-- make holds for each class what the count of that class alone gives.
sum_counts-current_count :
    (name : Text) (table : Dict Text Counts)
    → AllDistinct table
    → get_zero name (sum_counts [] table) ≡ current_count name table
unfolding get_zero lookup
sum_counts-current_count name table distinct =
    ground (arith, get_zero-sum_counts name [] table distinct)
