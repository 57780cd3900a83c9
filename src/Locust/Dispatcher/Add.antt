-- ===== src/Locust/Dispatcher/Add.antt =====
-- The loop that adds users ends, with the number of users it is to reach.
use grizzly.Common.{
  ℕ, zero, suc, ◌+◌, ◌*◌, ◌≤◌, ◌<◌, ◌≡◌, refl, ap, sym, true, false, List, [], ◌∷◌, ◌++◌, map, some,
  arith, ltb, leb, length, list_eq, nat_eq, contains, ok, Bool-cases, inl, inr, All, append_assoc,
  append-nil, length-append, ◌∙◌,
}
use std.Path.{subst}
use grizzly.Common.Dict.{Dict, lookup}
use grizzly.Common.Equality.{list_beq_iff, beq_refl}
use grizzly.Common.Text.{Text}
use grizzly.Locust.Cycle.{next, sum_values}
use grizzly.Locust.Counts.{Counts, get_zero}
use grizzly.Locust.Dispatcher.{Placement, Placed, yields, next_user, place_user, place_users}
use grizzly.Locust.Dispatcher.Target.{Distinct, below_target}
use grizzly.Locust.Dispatcher.Place.{Placeable, Sound, place_user_full, place_user-adds}

-- A text with characters.
unfoldable pub IsNamed : Text → Type 0
IsNamed [] = ⊥
IsNamed (c ∷ s) = Unit

map-rotate :
    {A B : Type 0} (f : A → B) (x : A) (xs : List A) → map f (xs ++ x ∷ []) ≡ map f xs ++ f x ∷ []
map-rotate f x [] = refl
map-rotate f x (y ∷ ys) = ap (λ zs. f y ∷ zs) (map-rotate f x ys)

next_user-cons :
    (name : Text) (names : List Text)
    → IsNamed name
    → next_user (map some (name ∷ names)) ≡ yields name (map some (names ++ name ∷ []))
unfolding next_user next IsNamed
next_user-cons [] names named = elim named [ ]
next_user-cons (c ∷ s) names named =
    ap (λ rest. yields (c ∷ s) rest) (sym (map-rotate some (c ∷ s) names))

contains-rotate :
    (name t : Text) (names : List Text)
    → contains name (names ++ t ∷ []) ≡ contains name (t ∷ names)
unfolding contains
contains-rotate name t [] = refl
contains-rotate name t (u ∷ names) = ground (arith, contains-rotate name t names)

All-snoc :
    (P : Text → Type 0) (t : Text) (names : List Text) → P t → All P names → All P (names ++ t ∷ [])
All-snoc P t [] h hs = (h, tt)
All-snoc P t (u ∷ names) h (k, ks) = (k, All-snoc P t names h ks)

module _ (tags : Dict Text Text) (target : Counts) (limit : ℕ) where
  -- What the loop needs of the names of its generator: each can be placed, and the classes that have a
  -- target are among them.
  pub record Ready (names : List Text) (p : Placement) : Type 0 where
    pub sound : Sound target p
    pub named : All IsNamed names
    pub placeable : (name : Text) → contains name names ≡ true → Placeable tags target p name
    pub covers :
        (name : Text) (n : ℕ) → lookup name target ≡ some n → 0 < n → contains name names ≡ true

  unfoldable pub Reaches : ℕ → List Text → Placement → Type 0
  Reaches fuel names p =
      (placed : Placed) × (place_users fuel tags target limit (map some names) p ≡ some (ok placed))
      × (placed.reached ≡ true)
      × (placed.placement.total ≡ limit)
      × Sound target placed.placement

  Ready-rotate :
      (t : Text) (names : List Text) (p p' : Placement)
      → Ready (t ∷ names) p
      → Sound target p'
      → ((other : Text) → Placeable tags target p other → Placeable tags target p' other)
      → Ready (names ++ t ∷ []) p'
  Ready-rotate t names p p' ready sound keeps = record {
    sound = sound;
    named = All-snoc IsNamed t names ready.named.0 ready.named.1;
    placeable = λ name h. keeps name (ready.placeable name (rw (← contains-rotate name t names) h));
    covers = λ name n has some_users.
        rw (contains-rotate name t names) (ready.covers name n has some_users);
  }

  -- A round that passes a class over, and one that adds a user.
  Reaches-skip :
      (fuel : ℕ) (t : Text) (names : List Text) (p : Placement)
      → IsNamed t
      → place_user tags target t p ≡ ok (false, p)
      → Reaches fuel (names ++ t ∷ []) p
      → Reaches (suc fuel) (t ∷ names) p
  unfolding Reaches place_users
  Reaches-skip fuel t names p named skips (placed, places, reaches, total, after) =
      (placed, rw (place_users, next_user-cons t names named, skips) places, reaches, total, after)

  Reaches-add :
      (fuel : ℕ) (t : Text) (names : List Text) (p p' : Placement)
      → IsNamed t
      → place_user tags target t p ≡ ok (true, p')
      → Sound target p'
      → p'.total ≤ limit
      → (p'.total < limit → Reaches fuel (names ++ t ∷ []) p')
      → Reaches (suc fuel) (t ∷ names) p
  unfolding Reaches place_users
  Reaches-add fuel t names p p' named adds sound most more =
      elim (Bool-cases (leb limit p'.total)) [
        | inl last ↦ (
          record { placement = p'; names = map some (names ++ t ∷ []); reached = true },
          rw (place_users, next_user-cons t names named, adds, last) refl,
          refl,
          ground arith,
          sound,
        )
        | inr further ↦
            let (placed, places, reaches, total, after) = more (ground arith) in
            (
              placed,
              rw (place_users, next_user-cons t names named, adds, further) places,
              reaches,
              total,
              after,
            )
      ]

  -- Up to the first class below its target, the classes are passed over.
  Reaches-search :
      (f : ℕ) (name : Text) (m : ℕ) (pre rest : List Text) (fuel : ℕ) (p : Placement)
      → Distinct target
      → Ready (pre ++ rest) p
      → p.total < limit
      → contains name pre ≡ true
      → lookup name target ≡ some m
      → get_zero name p.user_count < m
      → length pre + f ≤ fuel
      → ((fuel' : ℕ) (names' : List Text) (p' : Placement)
          → length names' ≡ length (pre ++ rest)
          → f ≤ fuel'
          → Ready names' p'
          → p'.total ≡ suc p.total
          → p'.total < limit
          → Reaches fuel' names' p')
      → Reaches fuel (pre ++ rest) p
  unfolding contains get_zero
  Reaches-search f name m [] rest fuel p distinct ready less inside has below enough more =
      absurd (ground arith)
  Reaches-search f name m (t ∷ pre) rest zero p distinct ready less inside has below enough more =
      absurd (ground arith)
  Reaches-search f name m (t ∷ pre) rest (suc fuel) p distinct ready less inside has below enough
        more =
      let h = ready.placeable t (ground (arith, beq_refl t)) in
      let size : length ((pre ++ rest) ++ t ∷ []) ≡ length (t ∷ (pre ++ rest)) =
        omega (arith, length-append (pre ++ rest) (t ∷ [])) in
      elim (Bool-cases (ltb h.count h.limit)) [
        | inl fits ↦
            let (p', adds, sound', total', keeps) =
              place_user-adds tags target t p h distinct ready.sound (ground arith) in
            Reaches-add fuel t (pre ++ rest) p p' ready.named.0 adds sound' (omega arith) (λ less'.
              more fuel ((pre ++ rest) ++ t ∷ []) p' size (omega arith)
                (Ready-rotate t (pre ++ rest) p p' ready sound' keeps) total' less')
        | inr full ↦
            let skips = place_user_full tags target t p h (ground arith) in
            let further : contains name pre ≡ true =
              ground (arith, list_beq_iff t name, h.has_limit, h.has_count, has) in
            let same_size : length (pre ++ (rest ++ t ∷ [])) ≡ length (t ∷ (pre ++ rest)) =
              rw (← append_assoc pre rest (t ∷ [])) size in
            Reaches-skip fuel t (pre ++ rest) p ready.named.0 skips (
              rw (append_assoc pre rest (t ∷ [])) (
                Reaches-search f name m pre (rest ++ t ∷ []) fuel p distinct
                  (rw (← append_assoc pre rest (t ∷ []))
                    (Ready-rotate t (pre ++ rest) p p ready ready.sound (λ other k. k)))
                  less further has below (omega arith)
                  (λ fuel' names' p' same enough' ready' total' less'.
                    more fuel' names' p' (same ∙ same_size) enough' ready' total' less')))
      ]

  Reaches-first :
      (f fuel : ℕ) (names : List Text) (p : Placement)
      → Distinct target
      → limit ≤ sum_values target
      → Ready names p
      → p.total < limit
      → length names + f ≤ fuel
      → ((fuel' : ℕ) (names' : List Text) (p' : Placement)
          → length names' ≡ length names
          → f ≤ fuel'
          → Ready names' p'
          → p'.total ≡ suc p.total
          → p'.total < limit
          → Reaches fuel' names' p')
      → Reaches fuel names p
  Reaches-first f fuel names p distinct reachable ready less enough more =
      let (name, m, has, below) =
        below_target target p.user_count distinct (omega (arith, ready.sound.summed)) in
      let nothing = append-nil names in
      subst (λ all. Reaches fuel all p) nothing
        (Reaches-search f name m names [] fuel p distinct (rw nothing ready) less
          (ready.covers name m has (omega arith)) has below enough
          (λ fuel' names' p' same. more fuel' names' p' (same ∙ ap length nothing)))

  -- Each user takes at most one round for each name of the generator.
  pub place_users-Reaches :
      (k fuel : ℕ) (names : List Text) (p : Placement)
      → Distinct target
      → limit ≤ sum_values target
      → Ready names p
      → p.total + suc k ≡ limit
      → suc k * length names ≤ fuel
      → Reaches fuel names p
  place_users-Reaches zero fuel names p distinct reachable ready missing enough =
      Reaches-first 0 fuel names p distinct reachable ready (omega arith) (ground arith)
        (λ fuel' names' p' same enough' ready' total' less'. absurd (omega arith))
  place_users-Reaches (suc k) fuel names p distinct reachable ready missing enough =
      Reaches-first (suc k * length names) fuel names p distinct reachable ready (omega arith)
        (ground arith)
        (λ fuel' names' p' same enough' ready' total' less'.
          place_users-Reaches k fuel' names' p' distinct reachable ready' (omega arith)
            (rw same enough'))
