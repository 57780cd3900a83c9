-- ===== src/Locust/Dispatcher/Entries.antt =====
-- The entries of a class in the table of users on workers, and cycles that move on.
use grizzly.Common.{
  ℕ, ◌≡◌, refl, List, [], ◌∷◌, ◌++◌, some, arith, if◌then◌else◌, list_eq, nat_eq, ◌==◌, Bool-cases,
  inl, inr, All,
}
use grizzly.Common.Dict.{Dict, lookup, insert, lookup-insert}
use grizzly.Common.Equality.{list_beq_iff}
use grizzly.Common.Text.{Text}
use grizzly.Locust.Counts.{Counts}

-- The class has an entry on the worker.
unfoldable pub HasEntry : Text → Dict Text Counts → Text → Type 0
HasEntry name table worker =
    (counts : Counts) × (n : ℕ) × (lookup worker table ≡ some counts)
    × (lookup name counts ≡ some n)

pub All-rotate :
    {A : Type 0} (P : A → Type 0) (x : A) (xs : List A) → All P (x ∷ xs) → All P (xs ++ x ∷ [])
All-rotate P x [] (h, hs) = (h, tt)
All-rotate P x (y ∷ ys) (h, (k, hs)) = (k, All-rotate P x ys (h, hs))

pub All-map :
    {A : Type 0} (P Q : A → Type 0) (xs : List A) → ((x : A) → P x → Q x) → All P xs → All Q xs
All-map P Q [] f tt = tt
All-map P Q (x ∷ xs) f (h, hs) = (f x h, All-map P Q xs f hs)

pub HasEntry-insert :
    (worker user name : Text) (m : ℕ) (table : Dict Text Counts) (counts : Counts)
    → lookup worker table ≡ some counts
    → (w : Text) → HasEntry name table w
    → HasEntry name (insert worker (insert user m counts) table) w
unfolding HasEntry
HasEntry-insert worker user name m table counts has w (others, n, has_worker, has_name) =
    elim (Bool-cases (worker == w)) [
      | inl same ↦
          let here = (list_beq_iff worker w).0 same in
          (
            insert user m counts,
            (if user == name then m else n),
            ground (arith, same, lookup-insert worker w (insert user m counts) table),
            ground (arith, same, here, lookup-insert user name m counts),
          )
      | inr other ↦ (
        others,
        n,
        ground (arith, other, lookup-insert worker w (insert user m counts) table),
        has_name,
      )
    ]

pub rotated : {A : Type 0} (x : A) (xs : List A) → (y : A) × (ys : List A) × (xs ++ x ∷ [] ≡ y ∷ ys)
rotated x [] = (x, [], refl)
rotated x (y ∷ ys) = (y, ys ++ x ∷ [], refl)
