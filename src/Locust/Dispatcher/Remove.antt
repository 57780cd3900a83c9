-- ===== src/Locust/Dispatcher/Remove.antt =====
-- What a removal leaves.
use grizzly.Common.{
  ℕ, zero, suc, ◌-◌, ◌<◌, ◌≡◌, refl, false, List, [], ◌∷◌, arith, leb, ◌=ℕ◌, length, drop, list_eq,
  nat_eq, ok, Bool-cases, inl, inr,
}
use grizzly.Common.Dict.{Dict}
use grizzly.Common.Text.{Text}
use grizzly.Locust.Counts.{Counts, sum_counts}
use grizzly.Locust.Active.{
  on_worker, active_on, Consistent, on_worker-update_count, entry_of-on_worker, Consistent-tail,
  on_worker-Consistent,
}
use grizzly.Locust.Dispatcher.{
  Dispatcher, max, active_total, target_total, take_users, remove_users,
}

take_users-Consistent :
    (limit : ℕ) (active : List (Text × Text)) (table : Dict Text Counts)
    → Consistent table active
    → limit < length active
    → (table' : Dict Text Counts) × (take_users limit active table
        ≡ ok (drop (length active - limit) active, table'))
      × Consistent table' (drop (length active - limit) active)
unfolding take_users
take_users-Consistent limit [] table consistent below = absurd (ground arith)
take_users-Consistent limit ((worker, user) ∷ active) table consistent below =
    let m = active_on worker user active in
    let counted : on_worker worker user table ≡ suc m =
      on_worker-Consistent worker user table active consistent in
    let (counts, has_worker, has_user) = entry_of-on_worker worker user table m counted in
    let (table', updates, updated) =
      on_worker-update_count (λ n. n - 1) worker user table counts (suc m) has_worker has_user in
    let rest = Consistent-tail worker user table table' active (suc m) consistent counted updated in
    elim (Bool-cases (leb (length active) limit)) [
      | inl last ↦
          let one : length ((worker, user) ∷ active) - limit ≡ 1 = ground arith in
          (table', rw (take_users, updates, last, one) refl, rw one rest)
      | inr more ↦
          let (table'', takes, consistent'') =
            take_users-Consistent limit active table' rest (ground arith) in
          let next : length ((worker, user) ∷ active) - limit ≡ suc (length active - limit) =
            ground arith in
          (table'', rw (take_users, updates, more, next) takes, rw next consistent'')
    ]

length-drop : {A : Type 0} (k : ℕ) (xs : List A) → length (drop k xs) ≡ length xs - k
length-drop zero xs = ground arith
length-drop (suc k) [] = ground arith
length-drop (suc k) (x ∷ xs) = ground (arith, length-drop k xs)

-- What a removal changes, and what it keeps.
pub record Left (d d' : Dispatcher) : Type 0 where
  pub removes : remove_users d ≡ ok d'
  pub total :
      active_total d' ≡ max (active_total d - d.user_count_per_dispatch_iteration) (target_total d)
  pub last_gone : d'.active_users ≡ drop (active_total d - active_total d') d.active_users
  pub consistent : Consistent d'.users_on_workers d'.active_users
  pub counted : d'.current_user_count ≡ sum_counts [] d'.users_on_workers
  pub same_target : target_total d' ≡ target_total d
  pub same_iteration : d'.user_count_per_dispatch_iteration ≡ d.user_count_per_dispatch_iteration
  pub same_rebalance : d'.rebalance ≡ d.rebalance

pub remove_users-Left :
    (d : Dispatcher)
    → Consistent d.users_on_workers d.active_users
    → target_total d < active_total d
    → 0 < d.user_count_per_dispatch_iteration
    → (d' : Dispatcher) × Left d d'
unfolding remove_users active_total target_total
remove_users-Left d consistent above some_users =
    let limit = max (active_total d - d.user_count_per_dispatch_iteration) (target_total d) in
    let below : limit < length d.active_users = ground arith in
    let (table, takes, consistent') =
      take_users-Consistent limit d.active_users d.users_on_workers consistent below in
    let left : length (drop (length d.active_users - limit) d.active_users) ≡ limit =
      ground (arith, length-drop (length d.active_users - limit) d.active_users) in
    let some_active : (active_total d =ℕ 0) ≡ false = ground arith in
    (
      record d {
        users_on_workers = table;
        active_users = drop (length d.active_users - limit) d.active_users;
        current_user_count = sum_counts [] table;
      },
      record {
        removes = rw (remove_users, some_active, takes) refl;
        total = left;
        last_gone = rw left refl;
        consistent = consistent';
        counted = refl;
        same_target = refl;
        same_iteration = refl;
        same_rebalance = refl;
      },
    )

-- Where the table counts the active users, and more of them are active than the target asks for, a
-- removal of at least one user succeeds: the users that were added last are gone, as many as a dispatch
-- iteration removes, but none below the target; the table counts those that are left.
pub remove_users-Consistent :
    (d : Dispatcher)
    → Consistent d.users_on_workers d.active_users
    → target_total d < active_total d
    → 0 < d.user_count_per_dispatch_iteration
    → (d' : Dispatcher) × (remove_users d ≡ ok d')
      × (active_total d'
          ≡ max (active_total d - d.user_count_per_dispatch_iteration) (target_total d))
      × (d'.active_users ≡ drop (active_total d - active_total d') d.active_users)
      × Consistent d'.users_on_workers d'.active_users
      × (d'.current_user_count ≡ sum_counts [] d'.users_on_workers)
remove_users-Consistent d consistent above some_users =
    let (d', left) = remove_users-Left d consistent above some_users in
    (d', left.removes, left.total, left.last_gone, left.consistent, left.counted)
