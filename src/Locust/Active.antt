-- ===== src/Locust/Active.antt =====
-- The table of users on workers against the list of active users.
use grizzly.Common.{
  ℕ, suc, ◌+◌, ◌-◌, ◌≡◌, refl, ◌&&◌, List, [], ◌∷◌, none, some, arith, if◌then◌else◌, list_eq,
  nat_eq, ◌==◌, ok, Option-cases, inl, inr,
}
use grizzly.Common.Dict.{Dict, lookup, insert, lookup-insert}
use grizzly.Common.Equality.{list_beq_iff, beq_refl}
use grizzly.Common.Text.{Text}
use grizzly.Locust.Counts.{Counts, get_zero, at, update_count}

unfoldable pub on_worker : Text → Text → Dict Text Counts → ℕ
on_worker worker user table = elim (lookup worker table) [
  | none ↦ 0
  | some counts ↦ get_zero user counts
]

unfoldable pub active_on : Text → Text → List (Text × Text) → ℕ
active_on worker user [] = 0
active_on worker user ((w, u) ∷ active) =
    (if w == worker && u == user then 1 else 0) + active_on worker user active

-- The active users of a class, on whichever worker.
unfoldable pub active_of : Text → List (Text × Text) → ℕ
active_of user [] = 0
active_of user ((w, u) ∷ active) = (if u == user then 1 else 0) + active_of user active

-- The table counts the active users.
unfoldable pub Consistent : Dict Text Counts → List (Text × Text) → Type 0
Consistent table active =
    (worker user : Text) → on_worker worker user table ≡ active_on worker user active

pub update_count_entry :
    (f : ℕ → ℕ) (worker user : Text) (table : Dict Text Counts) (counts : Counts) (n : ℕ)
    → lookup worker table ≡ some counts
    → lookup user counts ≡ some n
    → update_count f worker user table ≡ ok (insert worker (insert user (f n) counts) table)
unfolding update_count at
update_count_entry f worker user table counts n has_worker has_user =
    rw (update_count, at, has_worker, has_user) refl

-- An update is seen there and nowhere else.
pub on_worker-insert :
    (worker user : Text) (table : Dict Text Counts) (counts : Counts) (m : ℕ)
    → lookup worker table ≡ some counts
    → (w u : Text)
    → on_worker w u (insert worker (insert user m counts) table)
      ≡ (if worker == w && user == u then m else on_worker w u table)
unfolding on_worker get_zero
on_worker-insert worker user table counts m has_worker w u = ground (
  arith,
  list_beq_iff worker w,
  has_worker,
  lookup-insert worker w (insert user m counts) table,
  lookup-insert user u m counts,
)

pub on_worker-update_count :
    (f : ℕ → ℕ) (worker user : Text) (table : Dict Text Counts) (counts : Counts) (n : ℕ)
    → lookup worker table ≡ some counts
    → lookup user counts ≡ some n
    → (table' : Dict Text Counts) × (update_count f worker user table ≡ ok table')
      × ((w u : Text)
          → on_worker w u table' ≡ (if worker == w && user == u then f n else on_worker w u table))
on_worker-update_count f worker user table counts n has_worker has_user = (
  insert worker (insert user (f n) counts) table,
  update_count_entry f worker user table counts n has_worker has_user,
  on_worker-insert worker user table counts (f n) has_worker,
)

pub on_worker-entry :
    (worker user : Text) (table : Dict Text Counts) (counts : Counts) (n : ℕ)
    → lookup worker table ≡ some counts
    → lookup user counts ≡ some n
    → on_worker worker user table ≡ n
unfolding on_worker get_zero
on_worker-entry worker user table counts n has_worker has_user =
    rw (on_worker, has_worker, get_zero, has_user) refl

-- A user that is counted has an entry.
pub entry_of-on_worker :
    (worker user : Text) (table : Dict Text Counts) (m : ℕ)
    → on_worker worker user table ≡ suc m
    → (counts : Counts) × (lookup worker table ≡ some counts) × (lookup user counts ≡ some (suc m))
unfolding on_worker get_zero
entry_of-on_worker worker user table m h = elim (Option-cases (lookup worker table)) [
  | inl no_worker ↦ absurd (ground (arith, no_worker))
  | inr (counts, has_worker) ↦ elim (Option-cases (lookup user counts)) [
    | inl no_user ↦ absurd (ground (arith, has_worker, no_user))
    | inr (n, has_user) ↦ (counts, has_worker, ground (arith, has_worker, has_user))
  ]
]

pub Consistent-cons :
    (worker user : Text) (table table' : Dict Text Counts) (active : List (Text × Text)) (n : ℕ)
    → Consistent table active
    → on_worker worker user table ≡ n
    → ((w u : Text)
        → on_worker w u table' ≡ (if worker == w && user == u then n + 1 else on_worker w u table))
    → Consistent table' ((worker, user) ∷ active)
unfolding Consistent active_on
Consistent-cons worker user table table' active n consistent counted updated w u =
    ground (arith, consistent w u, updated w u, list_beq_iff worker w, list_beq_iff user u, counted)

pub Consistent-tail :
    (worker user : Text) (table table' : Dict Text Counts) (active : List (Text × Text)) (n : ℕ)
    → Consistent table ((worker, user) ∷ active)
    → on_worker worker user table ≡ n
    → ((w u : Text)
        → on_worker w u table' ≡ (if worker == w && user == u then n - 1 else on_worker w u table))
    → Consistent table' active
unfolding Consistent active_on
Consistent-tail worker user table table' active n consistent counted updated w u =
    ground (arith, consistent w u, updated w u, list_beq_iff worker w, list_beq_iff user u, counted)

-- The last user that was added is counted.
pub on_worker-Consistent :
    (worker user : Text) (table : Dict Text Counts) (active : List (Text × Text))
    → Consistent table ((worker, user) ∷ active)
    → on_worker worker user table ≡ suc (active_on worker user active)
unfolding Consistent active_on
on_worker-Consistent worker user table active consistent =
    ground (arith, beq_refl worker, beq_refl user, consistent worker user)
