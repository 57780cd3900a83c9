-- ===== src/Variables/CsvReader/Reading.antt =====
-- What successive accesses of an `AtomicCsvReader` return.
use grizzly.Common.{
  ℕ, zero, suc, ◌≤◌, ◌≡◌, refl, Bool, true, false, List, [], ◌∷◌, ◌++◌, none, some, arith, length,
  if◌then◌else◌, Option-cases, inl, inr, ap, list_eq, nat_eq, ok, err,
}
use grizzly.Common.Dict.{lookup, insert, lookup-insert_self}
use grizzly.Common.Text.{Text}
use grizzly.Common.Text.Laws.{Lacks, occurs_absent}
use grizzly.Exceptions.{value_error}
use grizzly.Variables.Queue.{Settings, take_next}
use grizzly.Variables.Queue.Rotation.{
  accesses, accesses-in_order, accesses_round, accesses-zero, accesses-none, accesses-some,
  take_next-first,
}
use grizzly.Variables.CsvReader.{Row, CsvReader, name_and_column, select_column, next_row, get_item}

-- The instance serves the variable from the queue.
pub record Serves (i : CsvReader) (name : Text) (settings : Settings) (queue : List Row)
    : Type 0 where
  pub setting : lookup name i.settings ≡ some settings
  pub rows : lookup name i.rows ≡ some queue

-- The rows of `n` accesses of the whole variable, until the first that returns no row.
pub reads : (ℕ → ℕ) → Text → ℕ → CsvReader → List Row × CsvReader
reads pick name zero i = ([], i)
reads pick name (suc n) i =
    let (result, i') = get_item pick name i in
    elim result [
      | err e ↦ ([], i')
      | ok found ↦ elim found [
        | none ↦ ([], i')
        | some row ↦ let (rows, final) = reads pick name n i' in (row ∷ rows, final)
      ]
    ]

module _ (pick : ℕ → ℕ) (name : Text) (whole : Lacks b'.' name) (settings : Settings) where
  get_item_whole : (i : CsvReader) → get_item pick name i ≡ next_row pick name none i
  unfolding get_item
  get_item_whole i = rw (occurs_absent b'.' name whole)

  -- One access, by what the queue hands out.
  get_item-none :
      (queue : List Row) (i : CsvReader)
      → Serves i name settings queue
      → take_next pick settings queue ≡ none
      → get_item pick name i ≡ (ok none, i)
  unfolding next_row
  get_item-none queue i s h = rw get_item_whole (rw (s.setting, next_row, s.rows, h))

  get_item-some :
      (queue rest : List Row) (row : Row) (i : CsvReader)
      → Serves i name settings queue
      → take_next pick settings queue ≡ some (row, rest)
      → get_item pick name i ≡ (ok (some row), record i { rows = insert name rest i.rows })
  unfolding next_row select_column
  get_item-some queue rest row i s h = rw get_item_whole (rw (s.setting, next_row, s.rows, h))

  Serves-rest :
      (queue rest : List Row) (i : CsvReader)
      → Serves i name settings queue
      → Serves (record i { rows = insert name rest i.rows }) name settings rest
  Serves-rest queue rest i s = record {
    setting = s.setting;
    rows = lookup-insert_self name rest i.rows;
  }

  reads-none :
      (n : ℕ) (queue : List Row) (i : CsvReader)
      → Serves i name settings queue
      → take_next pick settings queue ≡ none
      → reads pick name (suc n) i ≡ ([], i)
  unfolding reads
  reads-none n queue i s h = ground (arith, get_item-none queue i s h)

  reads-some :
      (n : ℕ) (queue rest : List Row) (row : Row) (i : CsvReader)
      → Serves i name settings queue
      → take_next pick settings queue ≡ some (row, rest)
      → reads pick name (suc n) i ≡ (
        row ∷ (reads pick name n (record i { rows = insert name rest i.rows })).0,
        (reads pick name n (record i { rows = insert name rest i.rows })).1,
      )
  unfolding reads
  reads-some n queue rest row i s h = ground (arith, get_item-some queue rest row i s h)

  -- Accesses of the whole variable hand out what its queue does.
  reads-accesses :
      (n : ℕ) (queue : List Row) (i : CsvReader)
      → Serves i name settings queue
      → ((reads pick name n i).0 ≡ (accesses pick settings n queue).0)
        × Serves (reads pick name n i).1 name settings (accesses pick settings n queue).1
  unfolding reads
  reads-accesses zero queue i s = rw accesses-zero (refl, s)
  reads-accesses (suc n) queue i s = elim (Option-cases (take_next pick settings queue)) [
    | inl gone ↦
        rw (reads-none n queue i s gone, accesses-none pick settings n queue gone) (refl, s)
    | inr ((row, rest), taken) ↦
        let (same, serves) = reads-accesses n rest _ (Serves-rest queue rest i s) in
        rw
          (
            reads-some n queue rest row i s taken,
            accesses-some pick settings n queue rest row taken,
          )
          (ap (λ rows. row ∷ rows) same, serves)
  ]

-- Without `repeat` and `random`, as many accesses of a variable without a dot in its name as its queue
-- has rows, or more, return the rows in order, and the queue is empty afterwards.
pub reads-in_order :
    (pick : ℕ → ℕ) (name : Text) (n : ℕ) (queue : List Row) (i : CsvReader)
    → Lacks b'.' name
    → length queue ≤ n
    → Serves i name (record { repeat = false; random = false }) queue
    → ((reads pick name n i).0 ≡ queue)
      × Serves (reads pick name n i).1 name (record { repeat = false; random = false }) []
reads-in_order pick name n queue i whole enough s =
    rw (accesses-in_order pick n queue enough) at
      (reads-accesses pick name whole (record { repeat = false; random = false }) n queue i s)

-- With `repeat` and without `random`, as many accesses of a variable without a dot in its name as its
-- queue has rows return the rows in order, and the queue is the same afterwards.
reads_round :
    (pick : ℕ → ℕ) (name : Text) (queue : List Row) (i : CsvReader)
    → Lacks b'.' name
    → Serves i name (record { repeat = true; random = false }) queue
    → ((reads pick name (length queue) i).0 ≡ queue)
      × Serves
          (reads pick name (length queue) i).1
          name
          (record { repeat = true; random = false })
          queue
reads_round pick name queue i whole s = rw (accesses_round pick queue) at (
    reads-accesses pick name whole (record { repeat = true; random = false }) (length queue) queue i
      s)

-- Without `random`, an access of a column that the next row lacks raises a ValueError; the row is then
-- the first of the queue again, and with `repeat` it also stays at the end: the queue has grown.
pub get_item_missing_column :
    (pick : ℕ → ℕ) (variable name column : Text) (repeat : Bool) (row : Row) (rest : List Row)
    (i : CsvReader)
    → name_and_column variable ≡ (name, some column)
    → lookup column row ≡ none
    → Serves i name (record { repeat = repeat; random = false }) (row ∷ rest)
    → ((get_item pick variable i).0 ≡ err value_error)
      × (lookup name (get_item pick variable i).1.rows
          ≡ some (row ∷ (if repeat then rest ++ row ∷ [] else rest)))
unfolding get_item next_row select_column
get_item_missing_column pick variable name column repeat row rest i split lacks s = ground (
  arith,
  take_next-first pick repeat row rest,
  lookup-insert_self name (row ∷ (if repeat then rest ++ row ∷ [] else rest)) i.rows,
)
