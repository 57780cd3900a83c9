-- ===== src/Locust/Dispatcher.antt =====
-- `FixedUsersDispatcher`. A worker stands as its id and a class as its name; where Python raises, the
-- exception is returned without the state that it leaves.
pub mod Rebalance
pub mod Target
pub mod Entries
pub mod Place
pub mod Add
pub mod Iteration
pub mod Tagged
pub mod Generator
pub mod Samples
mod Examples
pub mod Remove
use grizzly.Common.{
  ℕ, zero, suc, ◌+◌, ◌-◌, ◌/◌, Bool, true, false, not, ◌&&◌, ◌||◌, List, [], ◌∷◌, ◌++◌, map, Option,
  none, some, if◌then◌else◌, ltb, leb, ◌=ℕ◌, length, list_eq, nat_eq, ◌==◌, Result, ok, err, ◌>>=◌,
}
use grizzly.Common.Dict.{Dict, lookup, insert, keys}
use grizzly.Common.Text.{Text, codes}
use grizzly.Exceptions.{Exception, key_error, assertion_error, runtime_error, other}
use grizzly.Locust.Sorting.{sorted, by_value, text_le, sort_workers}
use grizzly.Locust.Cycle.{next, infinite_cycle_gen, sum_values}
use grizzly.Locust.Counts.{Counts, at, sum_counts, update_count, empty_table}
use grizzly.Locust.Sticky.{Spread, spread_sticky_tags}

pub record UserClass : Type 0 where
  pub name : Text
  pub fixed_count : ℕ
  pub sticky_tag : Option Text

-- `active_users` has the last user first. `user_generator` is none before the generator is asked for
-- the first time.
pub record Dispatcher : Type 0 where
  pub worker_nodes : List Text
  pub user_classes : List UserClass
  pub original_user_classes : List UserClass
  pub users_on_workers : Dict Text Counts
  pub initial_users_on_workers : Dict Text Counts
  pub active_users : List (Text × Text)
  pub user_generator : Option (List (Option Text))
  pub user_count_per_dispatch_iteration : ℕ
  pub target_user_count : Dict Text ℕ
  pub current_user_count : Counts
  pub users_to_sticky_tag : Dict Text Text
  pub spread : Spread
  pub rebalance : Bool
  pub no_user_to_spawn : Bool
  pub dispatch_in_progress : Bool

-- What the generator of `_create_user_generator` does next.
pub data Next : Type 0 where
  yields : Text → List (Option Text) → Next
  returns : Next
  raises : Exception → Next

-- Once it has returned, the generator returns always.
abbrev pub exhausted : List (Option Text)
exhausted = none ∷ []

pub next_user : List (Option Text) → Next
next_user names = elim (next names) [
  | none ↦ raises runtime_error
  | some (none, rest) ↦ returns
  | some (some name, rest) ↦ elim name [ [] ↦ returns | c ∷ s ↦ yields (c ∷ s) rest ]
]

-- The names of the generator, where it starts now for a target.
unfoldable pub generated :
    (List (Text × ℕ) → ℕ → List Text)
    → Option (List (Option Text))
    → Dict Text ℕ
    → List (Option Text)
generated smooth none target = infinite_cycle_gen smooth target
generated smooth (some names) target = names

-- What the loops that add users change.
pub record Placement : Type 0 where
  pub users_on_workers : Dict Text Counts
  pub active_users : List (Text × Text)
  pub user_count : Counts
  pub total : ℕ
  pub cycles : Dict Text (List Text)

-- The user is placed on the next worker of the cycle; the cycles of the source are never empty.
unfoldable pub place_on :
    Text → ℕ → Text → Option (Text × List Text) → Placement → Result Exception (Bool × Placement)
place_on name count sticky_tag none p = err (other 0)
place_on name count sticky_tag (some (worker, cycle)) p = do
  table ← update_count (λ n. n + 1) worker name p.users_on_workers
  ok (
    true,
    record {
      users_on_workers = table;
      active_users = (worker, name) ∷ p.active_users;
      user_count = insert name (count + 1) p.user_count;
      total = p.total + 1;
      cycles = insert sticky_tag cycle p.cycles;
    },
  )

unfoldable pub place_next :
    Dict Text Text → Text → ℕ → Placement → Result Exception (Bool × Placement)
place_next users_to_sticky_tag name count p = do
  sticky_tag ← at name users_to_sticky_tag
  cycle ← at sticky_tag p.cycles
  place_on name count sticky_tag (next cycle) p

-- One round of these loops: whether the user was added, and the placement after it.
unfoldable pub place_user :
    Dict Text Text → Dict Text ℕ → Text → Placement → Result Exception (Bool × Placement)
place_user users_to_sticky_tag target name p = do
  count ← at name p.user_count
  limit ← at name target
  if ltb limit (count + 1) then ok (false, p) else place_next users_to_sticky_tag name count p

-- How such a loop ended, with the names of the generator that are left.
pub record Placed : Type 0 where
  pub placement : Placement
  pub names : List (Option Text)
  pub reached : Bool

-- The loop, until `limit` users are placed; `none` where the fuel runs out.
pub place_users :
    ℕ
    → Dict Text Text
    → Dict Text ℕ
    → ℕ
    → List (Option Text)
    → Placement
    → Option (Result Exception Placed)
place_users zero tags target limit names p = none
place_users (suc fuel) tags target limit names p = elim (next_user names) [
  | returns ↦ some (ok (record { placement = p; names = exhausted; reached = false }))
  | raises e ↦ some (err e)
  | yields name names' ↦ elim (place_user tags target name p) [
    | err e ↦ some (err e)
    | ok (added, p') ↦ elim (added && leb limit p'.total) [
      | true ↦ some (ok (record { placement = p'; names = names'; reached = true }))
      | false ↦ place_users fuel tags target limit names' p'
    ]
  ]
]

-- get_target_user_count, get_current_user_count_total, and the comparisons of the two
unfoldable pub target_total : Dispatcher → ℕ
target_total d = sum_values d.target_user_count

unfoldable pub active_total : Dispatcher → ℕ
active_total d = length d.active_users

unfoldable pub has_reached_target : Dispatcher → Bool
has_reached_target d = active_total d =ℕ target_total d

unfoldable pub is_below_target : Dispatcher → Bool
is_below_target d = ltb (active_total d) (target_total d)

unfoldable pub is_above_target : Dispatcher → Bool
is_above_target d = ltb (target_total d) (active_total d)

abbrev pub min : ℕ → ℕ → ℕ
min a b = if ltb b a then b else a

abbrev pub max : ℕ → ℕ → ℕ
max a b = if ltb a b then b else a

-- The placement that the loop of _add_users_on_workers starts from.
abbrev pub placement_of : Dispatcher → Placement
placement_of d = record {
  users_on_workers = d.users_on_workers;
  active_users = d.active_users;
  user_count = sum_counts [] d.users_on_workers;
  total = active_total d;
  cycles = d.spread.cycles;
}

module _ (smooth : List (Text × ℕ) → ℕ → List Text) where
  -- FixedUsersDispatcher._add_users_on_workers
  pub add_users : ℕ → Dispatcher → Option (Result Exception Dispatcher)
  add_users fuel d =
      let limit = min (active_total d + d.user_count_per_dispatch_iteration) (target_total d) in
      let names = generated smooth d.user_generator d.target_user_count in
      elim (place_users fuel d.users_to_sticky_tag d.target_user_count limit names
        (placement_of d)) [
          | none ↦ none
          | some result ↦ some (
              result >>= λ placed. ok (record d {
                users_on_workers = placed.placement.users_on_workers;
                active_users = placed.placement.active_users;
                user_generator = some placed.names;
                current_user_count =
                    if placed.reached then placed.placement.user_count else d.current_user_count;
                spread = record d.spread { cycles = placed.placement.cycles };
              }))
        ]

-- The loop of _remove_users_from_workers, for the users that are active. Where the table counts these, as
-- the dispatcher keeps it, a count that is lowered is at least 1; for a table that does not, `-= 1` goes on
-- below 0, where the difference here stays at 0.
unfoldable pub take_users :
    ℕ
    → List (Text × Text)
    → Dict Text Counts
    → Result Exception (List (Text × Text) × Dict Text Counts)
take_users limit [] table = ok ([], table)
take_users limit ((worker, user) ∷ active) table = do
  table' ← update_count (λ n. n - 1) worker user table
  let more = take_users limit active table'
  if leb (length active) limit then ok (active, table') else more

-- FixedUsersDispatcher._remove_users_from_workers, for a dispatcher with active users: on an empty list
-- `pop` also takes one off the length that is kept.
unfoldable pub remove_users : Dispatcher → Result Exception Dispatcher
remove_users d = if active_total d =ℕ 0 then ok d else (do
  let limit = max (active_total d - d.user_count_per_dispatch_iteration) (target_total d)
  (active, table) ← take_users limit d.active_users d.users_on_workers
  ok (record d {
    users_on_workers = table;
    active_users = active;
    current_user_count = sum_counts [] table;
  }))
