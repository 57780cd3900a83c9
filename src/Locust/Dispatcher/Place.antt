-- ===== src/Locust/Dispatcher/Place.antt =====
-- One round of the loops that add users.
use grizzly.Common.{
  ℕ, suc, ◌+◌, ◌≤◌, ◌<◌, ◌≡◌, refl, true, false, List, [], ◌∷◌, ◌++◌, some, arith, if◌then◌else◌,
  ltb, length, list_eq, nat_eq, ◌==◌, ok, Bool-cases, inl, inr, All,
}
use std.Path.{subst}
use grizzly.Common.Dict.{Dict, lookup, insert, lookup-insert}
use grizzly.Common.Equality.{list_beq_iff}
use grizzly.Common.Text.{Text}
use grizzly.Locust.Cycle.{next}
use grizzly.Locust.Counts.{Counts, at, get_zero}
use grizzly.Locust.Active.{
  Consistent, active_of, on_worker-insert, on_worker-entry, update_count_entry, Consistent-cons,
}
use grizzly.Locust.Dispatcher.{Placement, place_user, place_next, place_on}
use grizzly.Locust.Dispatcher.Entries.{HasEntry, HasEntry-insert, All-rotate, All-map, rotated}
use grizzly.Locust.Dispatcher.Target.{sum_for, Distinct, sum_for-insert}

-- The class is known to all the tables, and its tag has workers.
pub record Placeable (tags : Dict Text Text) (target : Counts) (p : Placement) (name : Text)
    : Type 0 where
  pub count : ℕ
  pub limit : ℕ
  pub tag : Text
  pub worker : Text
  pub workers : List Text
  pub has_count : lookup name p.user_count ≡ some count
  pub has_limit : lookup name target ≡ some limit
  pub has_tag : lookup name tags ≡ some tag
  pub has_workers : lookup tag p.cycles ≡ some (worker ∷ workers)
  pub has_entries : All (HasEntry name p.users_on_workers) (worker ∷ workers)

-- The table counts the active users, `user_count` has those of each class, no class is above its target,
-- and the total is that of the classes.
pub record Sound (target : Counts) (p : Placement) : Type 0 where
  pub consistent : Consistent p.users_on_workers p.active_users
  pub at_most :
      (name : Text) (n limit : ℕ)
      → lookup name p.user_count ≡ some n
      → lookup name target ≡ some limit
      → n ≤ limit
  pub actual : (name : Text) → active_of name p.active_users ≡ get_zero name p.user_count
  pub summed : sum_for target p.user_count ≡ p.total
  pub counted : length p.active_users ≡ p.total

module _ (tags : Dict Text Text) (target : Counts) where
  -- A class that has reached its target is passed over.
  pub place_user_full :
      (name : Text) (p : Placement) (h : Placeable tags target p name)
      → h.limit ≤ h.count
      → place_user tags target name p ≡ ok (false, p)
  unfolding place_user at
  place_user_full name p h full =
      let over : ltb h.limit (h.count + 1) ≡ true = ground arith in
      rw (place_user, at, h.has_count, h.has_limit, over) refl

  -- The placement with one more user.
  abbrev pub with_user :
      (name : Text) (p : Placement) → Placeable tags target p name → Counts → ℕ → Placement
  with_user name p h counts n = record {
    users_on_workers = insert h.worker (insert name (n + 1) counts) p.users_on_workers;
    active_users = (h.worker, name) ∷ p.active_users;
    user_count = insert name (h.count + 1) p.user_count;
    total = p.total + 1;
    cycles = insert h.tag (h.workers ++ h.worker ∷ []) p.cycles;
  }

  place_user-with_user :
      (name : Text) (p : Placement) (h : Placeable tags target p name) (counts : Counts) (n : ℕ)
      → h.count < h.limit
      → lookup h.worker p.users_on_workers ≡ some counts
      → lookup name counts ≡ some n
      → place_user tags target name p ≡ ok (true, with_user name p h counts n)
  unfolding place_user place_next place_on at next
  place_user-with_user name p h counts n below has_worker has_name =
      let fits : ltb h.limit (h.count + 1) ≡ false = ground arith in
      let updates =
        update_count_entry (λ n. n + 1) h.worker name p.users_on_workers counts n has_worker
          has_name in
      rw (place_user, at, h.has_count, h.has_limit, fits, h.has_tag, h.has_workers, next, updates)
        refl

  with_user-Sound :
      (name : Text) (p : Placement) (h : Placeable tags target p name) (counts : Counts) (n : ℕ)
      → Distinct target
      → h.count < h.limit
      → lookup h.worker p.users_on_workers ≡ some counts
      → lookup name counts ≡ some n
      → Sound target p
      → Sound target (with_user name p h counts n)
  unfolding active_of get_zero
  with_user-Sound name p h counts n distinct below has_worker has_name sound = record {
    consistent =
        Consistent-cons h.worker name p.users_on_workers
          (insert h.worker (insert name (n + 1) counts) p.users_on_workers) p.active_users n
          sound.consistent
          (on_worker-entry h.worker name p.users_on_workers counts n has_worker has_name)
          (on_worker-insert h.worker name p.users_on_workers counts (n + 1) has_worker);
    at_most = λ other m limit has_m has_limit. ground (
      arith,
      list_beq_iff name other,
      lookup-insert name other (h.count + 1) p.user_count,
      sound.at_most other m limit,
      h.has_limit,
      below,
    );
    actual = λ other. ground (
      arith,
      list_beq_iff name other,
      lookup-insert name other (h.count + 1) p.user_count,
      sound.actual other,
      h.has_count,
    );
    summed = ground (
      arith,
      sum_for-insert name h.count h.limit target p.user_count distinct h.has_limit h.has_count,
      sound.summed,
    );
    counted = ground (arith, sound.counted);
  }

  with_user-Placeable :
      (name other : Text) (p : Placement) (h : Placeable tags target p name) (counts : Counts)
      (n : ℕ)
      → lookup h.worker p.users_on_workers ≡ some counts
      → Placeable tags target p other
      → Placeable tags target (with_user name p h counts n) other
  with_user-Placeable name other p h counts n has_worker k =
      let table' = insert h.worker (insert name (n + 1) counts) p.users_on_workers in
      let keep = HasEntry-insert h.worker name other (n + 1) p.users_on_workers counts has_worker in
      let entries =
        All-map (HasEntry other p.users_on_workers) (HasEntry other table') (k.worker ∷ k.workers)
          keep k.has_entries in
      let count' : ℕ = if name == other then h.count + 1 else k.count in
      let counted : lookup other (insert name (h.count + 1) p.user_count) ≡ some count' = ground (
        arith,
        list_beq_iff name other,
        lookup-insert name other (h.count + 1) p.user_count,
        k.has_count,
      ) in
      let (first, rest, rotates) = rotated h.worker h.workers in
      elim (Bool-cases (h.tag == k.tag)) [
        | inl same ↦
            let tags_equal = (list_beq_iff h.tag k.tag).0 same in
            let workers_equal : k.worker ∷ k.workers ≡ h.worker ∷ h.workers =
              ground (arith, tags_equal, k.has_workers, h.has_workers) in
            record {
              count = count';
              limit = k.limit;
              tag = k.tag;
              worker = first;
              workers = rest;
              has_count = counted;
              has_limit = k.has_limit;
              has_tag = k.has_tag;
              has_workers = ground (
                arith,
                same,
                rotates,
                lookup-insert h.tag k.tag (h.workers ++ h.worker ∷ []) p.cycles,
              );
              has_entries = subst (All (HasEntry other table')) rotates (
                  All-rotate (HasEntry other table') h.worker h.workers
                    (subst (All (HasEntry other table')) workers_equal entries));
            }
        | inr different ↦ record {
          count = count';
          limit = k.limit;
          tag = k.tag;
          worker = k.worker;
          workers = k.workers;
          has_count = counted;
          has_limit = k.has_limit;
          has_tag = k.has_tag;
          has_workers = ground (
            arith,
            different,
            k.has_workers,
            lookup-insert h.tag k.tag (h.workers ++ h.worker ∷ []) p.cycles,
          );
          has_entries = entries;
        }
      ]

  -- A class below its target gets one more user.
  pub place_user-adds :
      (name : Text) (p : Placement) (h : Placeable tags target p name)
      → Distinct target
      → Sound target p
      → h.count < h.limit
      → (p' : Placement) × (place_user tags target name p ≡ ok (true, p'))
        × Sound target p'
        × (p'.total ≡ suc p.total)
        × ((other : Text) → Placeable tags target p other → Placeable tags target p' other)
  unfolding HasEntry
  place_user-adds name p h distinct sound below =
      let (counts, n, has_worker, has_name) = h.has_entries.0 in
      (
        with_user name p h counts n,
        place_user-with_user name p h counts n below has_worker has_name,
        with_user-Sound name p h counts n distinct below has_worker has_name sound,
        omega arith,
        λ other k. with_user-Placeable name other p h counts n has_worker k,
      )
