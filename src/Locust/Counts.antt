-- ===== src/Locust/Counts.antt =====
-- The counts of users on workers of `FixedUsersDispatcher`: worker id, user class name, number.
use grizzly.Common.{ℕ, ◌+◌, List, [], ◌∷◌, map, none, some, list_eq, nat_eq, Result, ok, err, ◌>>=◌}
use grizzly.Common.Dict.{Dict, lookup, insert}
use grizzly.Common.Text.{Text}
use grizzly.Exceptions.{Exception, key_error}

abbrev pub Counts : Type 0
Counts = Dict Text ℕ

-- counts.get(name, 0)
unfoldable pub get_zero : Text → Counts → ℕ
get_zero name counts = elim (lookup name counts) [ none ↦ 0 | some n ↦ n ]

-- d[k]
unfoldable pub at : {A : Type 0} → Text → Dict Text A → Result Exception A
at k d = elim (lookup k d) [ none ↦ err key_error | some a ↦ ok a ]

-- The inner loop that sums the counts of the workers.
unfoldable pub merge : Counts → Counts → Counts
merge current [] = current
merge current ((name, count) ∷ rest) =
    merge (insert name (get_zero name current + count) current) rest

-- The loop over the workers.
unfoldable pub sum_counts : Counts → Dict Text Counts → Counts
sum_counts current [] = current
sum_counts current ((worker, counts) ∷ rest) = sum_counts (merge current counts) rest

-- FixedUsersDispatcher._get_user_current_count, ._get_current_user_count
unfoldable pub current_count : Text → Dict Text Counts → ℕ
current_count user [] = 0
current_count user ((worker, counts) ∷ rest) = get_zero user counts + current_count user rest

-- The table in which every class has no user on every worker; ids and names are distinct.
unfoldable pub empty_table : List Text → List Text → Dict Text Counts
empty_table classes [] = []
empty_table classes (worker ∷ workers) =
    (worker, map (λ c. (c, 0)) classes) ∷ empty_table classes workers

-- users_on_workers[worker][name] = f(users_on_workers[worker][name])
unfoldable pub update_count :
    (ℕ → ℕ) → Text → Text → Dict Text Counts → Result Exception (Dict Text Counts)
update_count f worker name table = do
  counts ← at worker table
  n ← at name counts
  ok (insert worker (insert name (f n) counts) table)
