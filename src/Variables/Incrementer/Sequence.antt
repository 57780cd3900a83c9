-- ===== src/Variables/Incrementer/Sequence.antt =====
-- The values that successive accesses of an `AtomicIntegerIncrementer` return.
use grizzly.Common.{
  ℕ, zero, suc, ◌+◌, ◌*◌, ◌<◌, ◌≡◌, refl, ◌≢◌, Option, some, arith, ok, list_eq, nat_eq, ap,
}
use grizzly.Common.Dict.{lookup, lookup-insert_self, lookup-insert_ne}
use grizzly.Common.Int.{ℤ, pos, negsuc, ◌+ℤ◌, pos_part, neg_part, sub_ℕ, +ℤ_parts, eq_of_parts}
use grizzly.Common.Text.{Text}
use grizzly.Variables.{get_value}
use grizzly.Variables.Incrementer.{Incrementer, Settings, get_item}

-- v + k * step
pub value_at : ℤ → ℤ → ℕ → ℤ
value_at v step k = v +ℤ sub_ℕ (k * pos_part step) (k * neg_part step)

-- The instance after `k` accesses of the variable.
pub accessed : Text → ℕ → Incrementer → Incrementer
accessed variable zero i = i
accessed variable (suc k) i = accessed variable k (get_item variable i).1

-- The instance holds a value and settings for the variable.
pub record Holds (i : Incrementer) (variable : Text) (v : ℤ) (settings : Settings) : Type 0 where
  pub value : lookup variable i.values ≡ some (some v)
  pub setting : lookup variable i.steps ≡ some settings

sub_ℕ_parts : (a b : ℕ) → pos_part (sub_ℕ a b) + b ≡ neg_part (sub_ℕ a b) + a
sub_ℕ_parts a b = ground arith

value_at_parts :
    (v step : ℤ) (k : ℕ)
    → pos_part (value_at v step k) + neg_part v + k * neg_part step
      ≡ neg_part (value_at v step k) + pos_part v + k * pos_part step
unfolding value_at
value_at_parts v step k =
    let shift = sub_ℕ (k * pos_part step) (k * neg_part step) in
    omega (arith, +ℤ_parts v shift, sub_ℕ_parts (k * pos_part step) (k * neg_part step))

pub value_at-zero : (v step : ℤ) → value_at v step 0 ≡ v
value_at-zero v step = eq_of_parts (value_at v step 0) v (omega (arith, value_at_parts v step 0))

pub value_at-suc : (v step : ℤ) (k : ℕ) → value_at (v +ℤ step) step k ≡ value_at v step (suc k)
value_at-suc v step k = eq_of_parts (value_at (v +ℤ step) step k) (value_at v step (suc k)) (
    omega
      (arith, value_at_parts (v +ℤ step) step k, value_at_parts v step (suc k), +ℤ_parts v step))

pub get_item-Holds :
    (variable : Text) (v : ℤ) (settings : Settings) (i : Incrementer)
    → Holds i variable v settings
    → Holds (get_item variable i).1 variable (v +ℤ settings.step) settings
unfolding get_item get_value
get_item-Holds variable v settings i h =
    ground (arith, lookup-insert_self variable (some (v +ℤ settings.step)) i.values)

pub get_item_value :
    (variable : Text) (v : ℤ) (settings : Settings) (i : Incrementer)
    → Holds i variable v settings
    → (get_item variable i).0 ≡ ok (some v)
unfolding get_item get_value
get_item_value variable v settings i h = ground arith

-- Where the variable holds `v` with the step `s`, the access after `k` others returns v + k * s.
get_item-accessed :
    (variable : Text) (v : ℤ) (settings : Settings) (k : ℕ) (i : Incrementer)
    → Holds i variable v settings
    → (get_item variable (accessed variable k i)).0 ≡ ok (some (value_at v settings.step k))
unfolding accessed
get_item-accessed variable v settings zero i h =
    rw (value_at-zero v settings.step) (get_item_value variable v settings i h)
get_item-accessed variable v settings (suc k) i h = rw (← value_at-suc v settings.step k) (
    get_item-accessed variable (v +ℤ settings.step) settings k (get_item variable i).1
      (get_item-Holds variable v settings i h))

mul_gap : (m j k : ℕ) → j < k → j * suc m < k * suc m
mul_gap m j k h = grind arith

pub value_at-ne :
    (v step : ℤ) (j k : ℕ) → step ≢ pos 0 → j < k → value_at v step j ≢ value_at v step k
value_at-ne v (pos zero) j k n h e = n refl
value_at-ne v (pos (suc m)) j k n h e =
    let p = value_at_parts v (pos (suc m)) j in
    let q = value_at_parts v (pos (suc m)) k in
    let pe = ap pos_part e in let ne = ap neg_part e in let le = mul_gap m j k h in omega arith
value_at-ne v (negsuc m) j k n h e =
    let p = value_at_parts v (negsuc m) j in
    let q = value_at_parts v (negsuc m) k in
    let pe = ap pos_part e in let ne = ap neg_part e in let le = mul_gap m j k h in omega arith

-- With a step that is not zero, no two accesses return the same value.
pub get_item_unique :
    (variable : Text) (v : ℤ) (settings : Settings) (j k : ℕ) (i : Incrementer)
    → Holds i variable v settings
    → settings.step ≢ pos 0
    → j < k
    → (get_item variable (accessed variable j i)).0 ≢ (get_item variable (accessed variable k i)).0
get_item_unique variable v settings j k i h n lt e = ground (
  arith,
  get_item-accessed variable v settings j i h,
  get_item-accessed variable v settings k i h,
  value_at-ne v settings.step j k n lt,
)

-- An access of one variable leaves the value of every other as it is.
get_item_other :
    (variable other : Text) (i : Incrementer)
    → variable ≢ other
    → lookup other (get_item variable i).1.values ≡ lookup other i.values
unfolding get_item get_value
get_item_other variable other i n =
    grind (arith, λ (v : Option ℤ). lookup-insert_ne variable other v i.values n)
