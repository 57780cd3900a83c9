-- ===== src/Locust/Dispatcher/Rebalance.antt =====
-- `FixedUsersDispatcher` where workers come and go, and where a dispatch starts.
use grizzly.Common.{
  ℕ, Bool, true, false, List, [], ◌∷◌, ◌++◌, map, Option, none, some, if◌then◌else◌, ltb, leb, ◌=ℕ◌,
  length, list_eq, nat_eq, ◌==◌, Result, ok, err, ◌>>=◌, contains,
}
use grizzly.Common.Dict.{Dict, insert}
use grizzly.Common.Text.{Text, codes}
use grizzly.Exceptions.{Exception, assertion_error}
use grizzly.Locust.Sorting.{sorted, by_value, text_le, sort_workers}
use grizzly.Locust.Cycle.{sum_values}
use grizzly.Locust.Counts.{Counts, sum_counts, empty_table}
use grizzly.Locust.Sticky.{spread_sticky_tags}
use grizzly.Locust.Dispatcher.{UserClass, Dispatcher, generated, place_users, max}

abbrev names_of : List UserClass → List Text
names_of classes = map (λ c. c.name) classes

-- user_class.sticky_tag or '__orphan__'
abbrev tag_of : UserClass → Text
tag_of c = elim c.sticky_tag [
  | none ↦ codes "__orphan__"
  | some tag ↦ if tag == [] then codes "__orphan__" else tag
]

-- A dictionary from a comprehension over the classes; a later class with the same name counts.
pub dict_of : {A : Type 0} → (UserClass → A) → Dict Text A → List UserClass → Dict Text A
dict_of f d [] = d
dict_of f d (c ∷ cs) = dict_of f (insert c.name (f c) d) cs

abbrev by_name : List UserClass → List UserClass
by_name classes = sorted (λ a b. text_le a.name b.name) classes

-- {**a, **b}
pub merged : {A : Type 0} → Dict Text A → Dict Text A → Dict Text A
merged d [] = d
merged d ((k, v) ∷ rest) = merged (insert k v d) rest

-- len(set(tags))
abbrev distinct : List Text → List Text
distinct [] = []
distinct (tag ∷ tags) = let rest = distinct tags in if contains tag rest then rest else tag ∷ rest

-- FixedUsersDispatcher.__init__; no two classes have the same name.
pub construct : List Text → List UserClass → Result Exception Dispatcher
construct worker_nodes user_classes =
    let classes = by_name user_classes in
    let table = empty_table (names_of classes) worker_nodes in
    let tags = dict_of tag_of [] user_classes in
    if leb (length user_classes) 0
    then err assertion_error
    else if ltb (length worker_nodes) (length (distinct (map (λ p. p.1) tags)))
    then err assertion_error
    else ok (record {
      worker_nodes = sort_workers worker_nodes;
      user_classes = classes;
      original_user_classes = classes;
      users_on_workers = table;
      initial_users_on_workers = table;
      active_users = [];
      user_generator = none;
      user_count_per_dispatch_iteration = 0;
      target_user_count = by_value (dict_of (λ c. c.fixed_count) [] classes);
      current_user_count = map (λ name. (name, 0)) (names_of classes);
      users_to_sticky_tag = tags;
      spread = record { workers_of_tag = []; cycles = [] };
      rebalance = false;
      no_user_to_spawn = false;
      dispatch_in_progress = false;
    })

-- A class type is its name here; its `fixed_count` may be another one than before.
abbrev same_classes : List UserClass → List UserClass → Bool
same_classes a b = names_of a == names_of b

-- [w for w in workers if w.id != worker.id]
pub without : Text → List Text → List Text
without worker [] = []
without worker (w ∷ ws) = let rest = without worker ws in if w == worker then rest else w ∷ rest

module _ (smooth : List (Text × ℕ) → ℕ → List Text) where
  abbrev spread_tags : Dispatcher → Dispatcher
  spread_tags d = record d {
    spread =
        spread_sticky_tags smooth d.worker_nodes d.users_to_sticky_tag d.target_user_count d.spread;
  }

  -- The classes that new_dispatch is given, where they are others than before.
  pub change_classes : Option (List UserClass) → Dispatcher → Dispatcher
  change_classes none d = record d {
    target_user_count = by_value (dict_of (λ c. c.fixed_count) [] d.user_classes);
  }
  change_classes (some classes) d =
      if same_classes d.user_classes (by_name classes)
      then record d {
        user_classes = by_name classes;
        target_user_count = by_value (dict_of (λ c. c.fixed_count) [] (by_name classes));
      }
      else record d {
        user_classes = by_name classes;
        users_to_sticky_tag = dict_of tag_of [] (d.original_user_classes ++ classes);
        target_user_count =
            by_value (merged d.target_user_count (dict_of (λ c. c.fixed_count) [] classes));
      }

  -- FixedUsersDispatcher.new_dispatch, for target_user_count=-1; `spawn_floor` is floor(spawn_rate).
  pub new_dispatch : ℕ → Option (List UserClass) → Dispatcher → Dispatcher
  new_dispatch spawn_floor user_classes d =
      let d' = spread_tags (
        change_classes user_classes
          (record d { user_count_per_dispatch_iteration = max 1 spawn_floor })) in
      record d' { initial_users_on_workers = d'.users_on_workers; user_generator = none }

  -- FixedUsersDispatcher._grizzly_distribute_users, with what _prepare_rebalance keeps of it
  pub distribute_users : ℕ → Counts → Dispatcher → Option (Result Exception Dispatcher)
  distribute_users fuel wanted d =
      let target = if length wanted =ℕ 0 then d.target_user_count else wanted in
      let d' = spread_tags d in
      let table = empty_table (names_of d.original_user_classes) d.worker_nodes in
      elim (place_users fuel d.users_to_sticky_tag target (sum_values target)
        (generated smooth none d.target_user_count)
        (record {
          users_on_workers = table;
          active_users = [];
          user_count = sum_counts [] table;
          total = 0;
          cycles = d'.spread.cycles;
        })) [
          | none ↦ none
          | some result ↦ some (
              result >>= λ placed. ok (record d' {
                users_on_workers = placed.placement.users_on_workers;
                active_users = placed.placement.active_users;
                user_generator = some placed.names;
                current_user_count =
                    if placed.reached then placed.placement.user_count else d.current_user_count;
                spread = record d'.spread { cycles = placed.placement.cycles };
              }))
        ]

  -- FixedUsersDispatcher._prepare_rebalance
  pub prepare_rebalance : ℕ → Dispatcher → Option (Result Exception Dispatcher)
  prepare_rebalance fuel d = elim (distribute_users fuel d.current_user_count (spread_tags d)) [
    | none ↦ none
    | some result ↦ some (result >>= λ d'. ok (record d' { rebalance = true }))
  ]

  -- FixedUsersDispatcher.add_worker, .remove_worker
  pub add_worker : ℕ → Text → Dispatcher → Option (Result Exception Dispatcher)
  add_worker fuel worker d =
      prepare_rebalance fuel
        (record d { worker_nodes = sort_workers (d.worker_nodes ++ worker ∷ []) })

  pub remove_worker : ℕ → Text → Dispatcher → Option (Result Exception Dispatcher)
  remove_worker fuel worker d =
      let d' = record d { worker_nodes = without worker d.worker_nodes } in
      elim d'.worker_nodes [ [] ↦ some (ok d') | w ∷ ws ↦ prepare_rebalance fuel d' ]
