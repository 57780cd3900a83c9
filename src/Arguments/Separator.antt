-- ===== src/Arguments/Separator.antt =====
-- Texts with one separator: what `has_separator` and `split_value` make of them.
use grizzly.Common.{
  ℕ, ◌+◌, ◌≡◌, refl, true, false, [], ◌∷◌, ◌++◌, some, arith, ok, length, get_elem?,
}
use grizzly.Common.Text.{Text, codes, strip}
use grizzly.Common.Text.Laws.{Lacks, index?-append, count_once, split_once-append}
use grizzly.Arguments.{is_operator, has_separator, split_at_operator, split_value}

-- The separator is found where a text that lacks it ends.
get_elem?-after :
    (t : Text) (c d : ℕ) (s : Text) → get_elem? (t ++ c ∷ d ∷ s) (length t + 1) ≡ some d
get_elem?-after [] c d s = refl
get_elem?-after (e ∷ t) c d s = ground (arith, get_elem?-after t c d s)

pub has_separator-append :
    (t : Text) (d : ℕ) (s : Text)
    → Lacks b'|' t
    → is_operator d ≡ false
    → has_separator (codes "|") (t ++ b'|' ∷ d ∷ s) ≡ true
unfolding has_separator
has_separator-append t d s h k =
    ground (arith, index?-append b'|' t (d ∷ s) h, get_elem?-after t b'|' d s)

pub split_value-append :
    (t s : Text)
    → Lacks b'|' t
    → Lacks b'|' s
    → split_value (t ++ b'|' ∷ s) (codes "|") ≡ ok (strip t ∷ strip s ∷ [])
unfolding split_value split_at_operator
split_value-append t s h k = ground (arith, count_once b'|' t s h k, split_once-append b'|' t s h)
