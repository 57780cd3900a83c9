-- ===== src/Locust/Sorting.antt =====
-- Python's `sorted`, which is stable, and the order of the workers of `FixedUsersDispatcher`.
use grizzly.Common.{
  ℕ, ◌+◌, Bool, true, false, ◌&&◌, ◌||◌, List, [], ◌∷◌, map, Option, none, some, if◌then◌else◌, ltb,
  leb, ◌=ℕ◌, list_eq, nat_eq,
}
use grizzly.Common.Dict.{Dict, lookup, insert}
use grizzly.Common.Text.{Text}

module _ {ℓ} {A : Type ℓ} (le : A → A → Bool) where
  unfoldable pub insert_by : A → List A → List A
  insert_by x [] = x ∷ []
  insert_by x (y ∷ ys) = let rest = insert_by x ys in if le x y then x ∷ y ∷ ys else y ∷ rest

  -- An element stands in front of those that came later and are as great.
  unfoldable pub sorted : List A → List A
  sorted [] = []
  sorted (x ∷ xs) = insert_by x (sorted xs)

-- sorted(items, key=itemgetter(1), reverse=True)
unfoldable pub by_value : {K : Type 0} → List (K × ℕ) → List (K × ℕ)
by_value items = sorted (λ p q. leb q.1 p.1) items

-- The order of strings.
unfoldable pub text_le : Text → Text → Bool
text_le [] t = true
text_le (c ∷ s) [] = false
text_le (c ∷ s) (d ∷ t) = let rest = text_le s t in ltb c d || (c =ℕ d && rest)

-- id.split("_")[0]
unfoldable pub host_of : Text → Text
host_of [] = []
host_of (c ∷ s) = let rest = host_of s in if c =ℕ 95 then [] else c ∷ rest

abbrev or_zero : Option ℕ → ℕ
or_zero none = 0
or_zero (some n) = n

-- The index within the host of each worker, for the number of workers so far on each host.
unfoldable pub index_within_host : Dict Text ℕ → List Text → List (ℕ × Text)
index_within_host workers_per_host [] = []
index_within_host workers_per_host (worker ∷ workers) =
    let index = or_zero (lookup (host_of worker) workers_per_host) in
    (index, worker)
    ∷ index_within_host (insert (host_of worker) (index + 1) workers_per_host) workers

abbrev pair_le : ℕ × Text → ℕ × Text → Bool
pair_le p q = ltb p.0 q.0 || (p.0 =ℕ q.0 && text_le p.1 q.1)

-- FixedUsersDispatcher._sort_workers, for the ids of the workers
unfoldable pub sort_workers : List Text → List Text
sort_workers workers =
    map (λ p. p.1) (sorted pair_le (index_within_host [] (sorted text_le workers)))
