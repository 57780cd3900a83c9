-- ===== src/Locust/Sticky.antt =====
-- How `FixedUsersDispatcher` spreads the sticky tags over the workers. A worker stands as its id.
use grizzly.Common.{
  ℕ, ◌+◌, ◌-◌, List, [], ◌∷◌, ◌++◌, map, Option, none, some, if◌then◌else◌, ltb, length, list_eq,
  nat_eq, ◌==◌,
}
use grizzly.Common.Dict.{Dict, lookup, insert}
use grizzly.Common.Text.{Text}
use grizzly.Locust.Sorting.{by_value}
use grizzly.Locust.Cycle.{take_cycle, infinite_cycle_gen}
use grizzly.Locust.Counts.{Counts, get_zero}

-- The target user count of each tag, from the tags of the classes.
unfoldable pub tag_counts : Dict Text ℕ → Counts → Dict Text Text → Dict Text ℕ
tag_counts target counted [] = counted
tag_counts target counted ((name, tag) ∷ rest) = elim (lookup name target) [
  | none ↦ tag_counts target counted rest
  | some user_count ↦
      tag_counts target (insert tag (get_zero tag counted + user_count) counted) rest
]

-- The tags for a number of workers, from the one with most users on; None stands for no tag.
unfoldable pub tags_for : (List (Text × ℕ) → ℕ → List Text) → ℕ → Dict Text ℕ → List (Option Text)
tags_for smooth worker_count counted =
    let sticky_tags = by_value counted in
    let each = map (λ p. some p.0) sticky_tags in
    if ltb (length counted) worker_count
    then each ++ take_cycle (worker_count - length counted) (infinite_cycle_gen smooth sticky_tags)
    else each

-- The loop over `zip(self._worker_nodes, sticky_tags_gen)`
unfoldable pub tag_workers : List Text → List (Option Text) → List (Text × Text)
tag_workers [] tags = []
tag_workers (worker ∷ workers) [] = []
tag_workers (worker ∷ workers) (none ∷ tags) = tag_workers workers tags
tag_workers (worker ∷ workers) (some tag ∷ tags) = (worker, tag) ∷ tag_workers workers tags

abbrev or_empty : {A : Type 0} → Option (List A) → List A
or_empty none = []
or_empty (some xs) = xs

-- The workers of each tag, in their order.
unfoldable pub group_workers : Dict Text (List Text) → List (Text × Text) → Dict Text (List Text)
group_workers grouped [] = grouped
group_workers grouped ((worker, tag) ∷ rest) =
    group_workers (insert tag (or_empty (lookup tag grouped) ++ worker ∷ []) grouped) rest

-- The loops over the changes: the cycle of a tag starts anew where its workers are others than before.
-- A tag that has no workers any more keeps its cycle.
unfoldable pub renew_cycles :
    Dict Text (List Text) → Dict Text (List Text) → Dict Text (List Text) → Dict Text (List Text)
renew_cycles before cycles [] = cycles
renew_cycles before cycles ((tag, workers) ∷ rest) =
    renew_cycles before
      (if or_empty (lookup tag before) == workers then cycles else insert tag workers cycles) rest

-- What FixedUsersDispatcher._spread_sticky_tags_on_workers keeps: the workers of each tag, and the cycle
-- of each tag.
pub record Spread : Type 0 where
  pub workers_of_tag : Dict Text (List Text)
  pub cycles : Dict Text (List Text)

-- FixedUsersDispatcher._spread_sticky_tags_on_workers
unfoldable pub spread_sticky_tags :
    (List (Text × ℕ) → ℕ → List Text) → List Text → Dict Text Text → Dict Text ℕ → Spread → Spread
spread_sticky_tags smooth workers users_to_sticky_tag target spread =
    let counted = tag_counts target [] users_to_sticky_tag in
    let tagged = tag_workers workers (tags_for smooth (length workers) counted) in
    let grouped = group_workers [] tagged in
    record {
      workers_of_tag = grouped;
      cycles = renew_cycles spread.workers_of_tag spread.cycles grouped;
    }
