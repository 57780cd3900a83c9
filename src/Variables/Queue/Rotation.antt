-- ===== src/Variables/Queue/Rotation.antt =====
-- What successive accesses of a queue hand out.
use mathlib.Core.List.{Perm, perm_append_singleton}
use mathlib.Core.List.Perm
use grizzly.Common.{
  ℕ, zero, suc, ◌≤◌, ◌≡◌, refl, Bool, true, false, List, [], ◌∷◌, ◌++◌, none, some, arith, length,
  if◌then◌else◌, append-nil, append_assoc, Option-cases, Bool-cases, inl, inr,
}
use grizzly.Variables.Queue.{Settings, pop, choose_index, take_next}

-- The elements of `n` accesses, until the first that returns None, and the queue after them.
pub accesses {ℓ} : {A : Type ℓ} → (ℕ → ℕ) → Settings → ℕ → List A → List A × List A
accesses pick settings zero queue = ([], queue)
accesses pick settings (suc n) queue = elim (take_next pick settings queue) [
  | none ↦ ([], queue)
  | some (x, rest) ↦ let (xs, final) = accesses pick settings n rest in (x ∷ xs, final)
]

module _ {ℓ} {A : Type ℓ} (pick : ℕ → ℕ) where
  -- Without `repeat` and `random`, as many accesses as there are elements, or more, hand out every
  -- element in order and leave nothing.
  pub accesses-in_order :
      (n : ℕ) (queue : List A)
      → length queue ≤ n
      → accesses pick (record { repeat = false; random = false }) n queue ≡ (queue, [])
  unfolding accesses take_next choose_index pop
  accesses-in_order zero [] h = refl
  accesses-in_order zero (x ∷ queue) h = absurd (omega arith)
  accesses-in_order (suc n) [] h = refl
  accesses-in_order (suc n) (x ∷ queue) h = rw (accesses-in_order n queue (omega arith))

  accesses-repeat :
      (xs ys : List A)
      → accesses pick (record { repeat = true; random = false }) (length xs) (xs ++ ys)
        ≡ (xs, ys ++ xs)
  unfolding accesses take_next choose_index pop
  accesses-repeat [] ys = rw append-nil
  accesses-repeat (x ∷ xs) ys =
      rw (
        append_assoc xs ys (x ∷ []),
        accesses-repeat xs (ys ++ x ∷ []),
        append_assoc ys (x ∷ []) xs,
      )

  -- With `repeat` and without `random`, a round of as many accesses as there are elements hands out
  -- every element in order, and leaves the queue as it was.
  pub accesses_round :
      (queue : List A)
      → accesses pick (record { repeat = true; random = false }) (length queue) queue
        ≡ (queue, queue)
  accesses_round queue = rw append-nil at (accesses-repeat queue [])

  pub take_next-first :
      (repeat : Bool) (x : A) (xs : List A)
      → take_next pick (record { repeat = repeat; random = false }) (x ∷ xs)
        ≡ some (x, if repeat then xs ++ x ∷ [] else xs)
  unfolding take_next choose_index pop
  take_next-first repeat x xs = refl

  pub accesses-zero :
      (settings : Settings) (queue : List A) → accesses pick settings 0 queue ≡ ([], queue)
  unfolding accesses
  accesses-zero settings queue = refl

  pub accesses-none :
      (settings : Settings) (n : ℕ) (queue : List A)
      → take_next pick settings queue ≡ none
      → accesses pick settings (suc n) queue ≡ ([], queue)
  unfolding accesses
  accesses-none settings n queue h = rw (h, accesses)

  pub accesses-some :
      (settings : Settings) (n : ℕ) (queue rest : List A) (x : A)
      → take_next pick settings queue ≡ some (x, rest)
      → accesses pick settings (suc n) queue
        ≡ (x ∷ (accesses pick settings n rest).0, (accesses pick settings n rest).1)
  unfolding accesses
  accesses-some settings n queue rest x h = rw (h, accesses)

  pop-perm :
      (queue : List A) (index : ℕ) (x : A) (rest : List A)
      → pop queue index ≡ some (x, rest)
      → Perm (x ∷ rest) queue
  unfolding pop
  pop-perm [] index x rest h = cc
  pop-perm (y ∷ queue) zero x rest h =
      let same : x ≡ y = ground arith in
      let same_rest : rest ≡ queue = ground arith in rw (same, same_rest) Perm.rfl
  pop-perm (y ∷ queue) (suc index) x rest h = elim (Option-cases (pop queue index)) [
    | inl gone ↦ absurd (ground arith)
    | inr ((z, others), found) ↦
        let same : x ≡ z = ground arith in
        let same_rest : rest ≡ y ∷ others = ground arith in
        rw (same, same_rest)
          (Perm.trans (Perm.swap y z others) (Perm.cons y (pop-perm queue index z others found)))
  ]

  -- Whatever is picked: with `repeat` the queue afterwards holds the same elements, each as often, and
  -- without it what was handed out and the queue afterwards do.
  pub take_next-perm :
      (settings : Settings) (queue : List A) (x : A) (rest : List A)
      → take_next pick settings queue ≡ some (x, rest)
      → Perm (if settings.repeat then rest else x ∷ rest) queue
  unfolding take_next
  take_next-perm settings queue x rest h = elim (Option-cases (choose_index pick settings queue)) [
    | inl gone ↦ absurd (ground arith)
    | inr (index, chosen) ↦ elim (Option-cases (pop queue index)) [
      | inl gone ↦ absurd (ground arith)
      | inr ((y, others), popped) ↦ elim (Bool-cases settings.repeat) [
        | inl repeats ↦
            let same : rest ≡ others ++ y ∷ [] = ground arith in
            rw (repeats, same)
              (Perm.trans (perm_append_singleton y others) (pop-perm queue index y others popped))
        | inr once ↦
            let same : x ≡ y = ground arith in
            let same_rest : rest ≡ others = ground arith in
            rw (once, same, same_rest) (pop-perm queue index y others popped)
      ]
    ]
  ]
