-- ===== src/Locust/Dispatcher/Samples.antt =====
-- Dispatchers of one class and two workers: without users, and with more than the target asks for.
use grizzly.Common.{ℕ, true, false, List, [], ◌∷◌, map, some, arith, list_eq, nat_eq}
use grizzly.Common.Dict.{lookup}
use grizzly.Common.Equality.{list_beq_iff}
use grizzly.Common.Text.{Text, codes}
use grizzly.Locust.Counts.{get_zero}
use grizzly.Locust.Active.{on_worker, active_on, Consistent}
use grizzly.Locust.Dispatcher.{Dispatcher}

abbrev pub smooth : List (Text × ℕ) → ℕ → List Text
smooth weights n = map (λ p. p.0) weights

abbrev pub dispatcher_of : ℕ → ℕ → List (Text × Text) → Dispatcher
dispatcher_of target n active = record {
  worker_nodes = codes "w" ∷ codes "v" ∷ [];
  user_classes = [];
  original_user_classes = [];
  users_on_workers = (codes "w", (codes "A", n) ∷ []) ∷ (codes "v", (codes "A", n) ∷ []) ∷ [];
  initial_users_on_workers = [];
  active_users = active;
  user_generator = some (some (codes "A") ∷ []);
  user_count_per_dispatch_iteration = 2;
  target_user_count = (codes "A", target) ∷ [];
  current_user_count = (codes "A", 0) ∷ [];
  users_to_sticky_tag = (codes "A", codes "t") ∷ [];
  spread = record {
    workers_of_tag = (codes "t", codes "w" ∷ codes "v" ∷ []) ∷ [];
    cycles = (codes "t", codes "w" ∷ codes "v" ∷ []) ∷ [];
  };
  rebalance = false;
  no_user_to_spawn = false;
  dispatch_in_progress = true;
}

abbrev pub idle : Dispatcher
idle = dispatcher_of 3 0 []

abbrev pub busy : Dispatcher
busy = dispatcher_of 1 1 ((codes "v", codes "A") ∷ (codes "w", codes "A") ∷ [])

pub idle-Consistent : Consistent idle.users_on_workers idle.active_users
unfolding Consistent on_worker active_on lookup get_zero
idle-Consistent worker user = ground arith

pub busy-Consistent : Consistent busy.users_on_workers busy.active_users
unfolding Consistent on_worker active_on lookup get_zero
busy-Consistent worker user =
    ground (arith, list_beq_iff (codes "w") worker, list_beq_iff (codes "v") worker)
