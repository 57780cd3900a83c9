-- ===== src/Variables/Queue.antt =====
-- The queue of rows or files behind `AtomicCsvReader` and `AtomicDirectoryContents`: the body of the
-- `try` of their `__getitem__`. `pick` stands for `secrets.randbelow`, at the length of the queue.
pub mod Rotation
mod Examples
use grizzly.Common.{
  ℕ, zero, suc, Bool, true, false, List, [], ◌∷◌, ◌++◌, Option, none, some, if◌then◌else◌, length,
}

-- One entry of `_settings`.
pub record Settings : Type 0 where
  pub repeat : Bool
  pub random : Bool

-- queue.pop(index); `none` stands for IndexError
pub pop {ℓ} : {A : Type ℓ} → List A → ℕ → Option (A × List A)
pop [] index = none
pop (x ∷ xs) zero = some (x, xs)
pop (x ∷ xs) (suc index) = elim (pop xs index) [ none ↦ none | some (y, rest) ↦ some (y, x ∷ rest) ]

-- `randbelow(0)` is a ValueError, which the code handles as an empty queue.
pub choose_index {ℓ} : {A : Type ℓ} → (ℕ → ℕ) → Settings → List A → Option ℕ
choose_index pick settings [] = if settings.random then none else some 0
choose_index pick settings (x ∷ xs) =
    if settings.random then some (pick (length (x ∷ xs))) else some 0

-- The element that is handed out, and the queue after it; `none` where the code returns None.
pub take_next {ℓ} : {A : Type ℓ} → (ℕ → ℕ) → Settings → List A → Option (A × List A)
take_next pick settings queue = elim (choose_index pick settings queue) [
  | none ↦ none
  | some index ↦ elim (pop queue index) [
    | none ↦ none
    | some (x, rest) ↦ some (x, if settings.repeat then rest ++ x ∷ [] else rest)
  ]
]
