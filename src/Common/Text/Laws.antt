-- ===== src/Common/Text/Laws.antt =====
-- Laws of the text methods: stripping, searching for one code point, and splitting.
use Prim.Native.Nat.{ℕ, ◌+◌}
use mathlib.Core.Path.{◌≡◌, refl}
use mathlib.Core.Logic.{◌≢◌}
use mathlib.Core.Bool.{true, false}
use mathlib.Core.List.{List, [], ◌∷◌, ◌++◌}
use mathlib.Core.Option.{none, some}
use native.Mathlib.Omega.{arith}
use grizzly.Common.Lists.{All, length, drop, take-length_append}
use grizzly.Common.Text.{
  Text, is_space, lstrip, rstrip, strip, index?, occurs, count_from, count, split, split_once,
}

-- No code point of the text is `c`.
abbrev pub Lacks : ℕ → Text → Type 0
Lacks c = All (λ d. d ≢ c)

abbrev pub HasNoSpace : Text → Type 0
HasNoSpace = All (λ c. is_space c ≡ false)

-- Each part of a concatenation is looked at by itself.
module _ {ℓ} {A : Type ℓ} (Q : A → Type 0) where
  pub All-append : (front back : List A) → All Q front → All Q back → All Q (front ++ back)
  All-append [] back f b = b
  All-append (c ∷ front) back f b = (f.0, All-append front back f.1 b)

rstrip-eq_self : (t : Text) → HasNoSpace t → rstrip t ≡ t
unfolding rstrip
rstrip-eq_self [] h = refl
rstrip-eq_self (c ∷ []) h = ground arith
rstrip-eq_self (c ∷ d ∷ t) h = ground (arith, rstrip-eq_self (d ∷ t) h.1)

lstrip-eq_self : (t : Text) → HasNoSpace t → lstrip t ≡ t
unfolding lstrip
lstrip-eq_self [] h = refl
lstrip-eq_self (c ∷ t) h = ground arith

pub strip-eq_self : (t : Text) → HasNoSpace t → strip t ≡ t
unfolding strip
strip-eq_self t h = rw (lstrip-eq_self t h) (rstrip-eq_self t h)

pub strip-space : (t : Text) → strip (0x20 ∷ t) ≡ strip t
unfolding strip
strip-space t = refl

pub index?-append :
    (c : ℕ) (t s : Text) → Lacks c t → index? (c ∷ []) (t ++ c ∷ s) ≡ some (length t)
unfolding index?
index?-append c [] s h = ground arith
index?-append c (d ∷ t) s h = ground (arith, index?-append c t s h.1)

pub index?-eq-none : (c : ℕ) (t : Text) → Lacks c t → index? (c ∷ []) t ≡ none
unfolding index?
index?-eq-none c [] h = refl
index?-eq-none c (d ∷ t) h = ground (arith, index?-eq-none c t h.1)

-- A pair of code points is not found in a text that lacks the second.
pub index?_pair-eq-none : (a b : ℕ) (t : Text) → Lacks b t → index? (a ∷ b ∷ []) t ≡ none
unfolding index?
index?_pair-eq-none a b [] h = refl
index?_pair-eq-none a b (c ∷ []) h = ground arith
index?_pair-eq-none a b (c ∷ d ∷ t) h = ground (arith, index?_pair-eq-none a b (d ∷ t) h.1)

pub occurs_append : (c : ℕ) (t s : Text) → Lacks c t → occurs (c ∷ []) (t ++ c ∷ s) ≡ true
unfolding occurs
occurs_append c t s h = rw (index?-append c t s h, occurs)

pub occurs_absent : (c : ℕ) (t : Text) → Lacks c t → occurs (c ∷ []) t ≡ false
unfolding occurs
occurs_absent c t h = ground (arith, index?-eq-none c t h)

pub occurs_pair : (a b : ℕ) (t s : Text) → occurs (a ∷ b ∷ []) (t ++ a ∷ b ∷ s) ≡ true
unfolding occurs index?
occurs_pair a b [] s = ground arith
occurs_pair a b (c ∷ t) s = ground (arith, occurs_pair a b t s)

count_from-append :
    (c : ℕ) (t s : Text)
    → Lacks c t
    → count_from (c ∷ []) 0 (t ++ c ∷ s) ≡ count_from (c ∷ []) 0 s + 1
unfolding count_from
count_from-append c [] s h = ground arith
count_from-append c (d ∷ t) s h = ground (arith, count_from-append c t s h.1)

count_from-absent : (c : ℕ) (t : Text) → Lacks c t → count_from (c ∷ []) 0 t ≡ 0
unfolding count_from
count_from-absent c [] h = refl
count_from-absent c (d ∷ t) h = ground (arith, count_from-absent c t h.1)

pub count_once : (c : ℕ) (t s : Text) → Lacks c t → Lacks c s → count (c ∷ []) (t ++ c ∷ s) ≡ 1
unfolding count
count_once c t s h k = omega (arith, count_from-append c t s h, count_from-absent c s k)

drop-suc_length : (t : Text) (c : ℕ) (s : Text) → drop (length t + 1) (t ++ c ∷ s) ≡ s
drop-suc_length [] c s = refl
drop-suc_length (d ∷ t) c s = ground (arith, drop-suc_length t c s)

pub split_once-append :
    (c : ℕ) (t s : Text) → Lacks c t → split_once (c ∷ []) (t ++ c ∷ s) ≡ t ∷ s ∷ []
unfolding split_once
split_once-append c t s h =
    rw (index?-append c t s h, take-length_append t (c ∷ s), drop-suc_length t c s)

pub split-absent : (c : ℕ) (t : Text) → Lacks c t → split c t ≡ t ∷ []
unfolding split
split-absent c [] h = refl
split-absent c (d ∷ t) h = ground (arith, split-absent c t h.1)

split-ne-nil : (c : ℕ) (t : Text) → split c t ≢ []
unfolding split
split-ne-nil c [] = ground arith
split-ne-nil c (d ∷ t) = ground (arith, split-ne-nil c t)

pub split-append : (c : ℕ) (t s : Text) → Lacks c t → split c (t ++ c ∷ s) ≡ t ∷ split c s
unfolding split
split-append c [] s h = ground (arith, split-ne-nil c s)
split-append c (d ∷ t) s h = ground (arith, split-append c t s h.1)

rstrip-append : (t : Text) (c : ℕ) → is_space c ≡ false → rstrip (t ++ c ∷ []) ≡ t ++ c ∷ []
unfolding rstrip
rstrip-append [] c h = ground arith
rstrip-append (d ∷ []) c h = ground (arith, rstrip-append [] c h)
rstrip-append (d ∷ e ∷ t) c h = ground (arith, rstrip-append (e ∷ t) c h)

rstrip-append_space : (t : Text) → HasNoSpace t → rstrip (t ++ 0x20 ∷ []) ≡ t
unfolding rstrip is_space
rstrip-append_space [] h = refl
rstrip-append_space (c ∷ []) h = ground arith
rstrip-append_space (c ∷ d ∷ t) h = ground (arith, rstrip-append_space (d ∷ t) h.1)

-- A text whose two ends are no blanks keeps them.
pub strip_ends :
    (c : ℕ) (t : Text) (d : ℕ)
    → is_space c ≡ false
    → is_space d ≡ false
    → strip (c ∷ t ++ d ∷ []) ≡ c ∷ t ++ d ∷ []
unfolding strip lstrip
strip_ends c t d h k = rw h (rstrip-append (c ∷ t) d k)

pub strip-append_space : (t : Text) → HasNoSpace t → strip (t ++ 0x20 ∷ []) ≡ t
unfolding strip lstrip is_space
strip-append_space [] h = refl
strip-append_space (c ∷ t) h = rw (h.0, lstrip) (rstrip-append_space (c ∷ t) h)
