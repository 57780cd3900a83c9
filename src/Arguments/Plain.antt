-- ===== src/Arguments/Plain.antt =====
-- Plain texts: what the parser of arguments does with a key and a value that hold no syntax.
use grizzly.Common.{
  ℕ, ◌≡◌, refl, ◌≢◌, Bool, true, false, not, ◌&&◌, ◌=ℕ◌, [], ◌∷◌, ◌++◌, some, arith, length, All,
  ok, ltb, list_eq, nat_eq, length-append,
}
use grizzly.Common.Text.{Text, is_space, last?}
use grizzly.Common.Text.Laws.{Lacks, HasNoSpace, index?_pair-eq-none, occurs_absent}
use grizzly.Arguments.{is_quote, has_sequence, start_index, close_value, parse_quotes, parse_pair}

-- A code point with no meaning in the syntax of arguments.
pub record IsPlainChar (c : ℕ) : Type 0 where
  pub no_space : is_space c ≡ false
  pub no_comma : c ≢ b','
  pub no_equals : c ≢ b'='
  pub no_double : c ≢ 0x22
  pub no_single : c ≢ 0x27

abbrev pub IsPlain : Text → Type 0
IsPlain t = (t ≢ []) × All IsPlainChar t

-- The same as a test, for texts that are written out.
unfoldable pub is_plain_char : ℕ → Bool
is_plain_char c = not (is_space c) && not (c =ℕ b',') && not (c =ℕ b'=') && not (is_quote c)

unfoldable pub is_plain : Text → Bool
is_plain [] = true
is_plain (c ∷ t) = is_plain_char c && is_plain t

IsPlainChar-of : (c : ℕ) → is_plain_char c ≡ true → IsPlainChar c
unfolding is_plain_char
IsPlainChar-of c h = record {
  no_space = ground arith;
  no_comma = ground arith;
  no_equals = ground arith;
  no_double = ground arith;
  no_single = ground arith;
}

pub is_plain-IsPlainChar : (t : Text) → is_plain t ≡ true → All IsPlainChar t
unfolding is_plain
is_plain-IsPlainChar [] h = tt
is_plain-IsPlainChar (c ∷ t) h =
    (IsPlainChar-of c (ground arith), is_plain-IsPlainChar t (ground arith))

-- What a plain text lacks.
module _ {P : ℕ → Type 0} (c : ℕ) (without : (d : ℕ) → P d → d ≢ c) where
  pub Lacks-of : (t : Text) → All P t → Lacks c t
  Lacks-of [] h = tt
  Lacks-of (d ∷ t) h = (without d h.0, Lacks-of t h.1)

pub HasNoSpace-plain : (t : Text) → All IsPlainChar t → HasNoSpace t
HasNoSpace-plain [] h = tt
HasNoSpace-plain (d ∷ t) h = (h.0.no_space, HasNoSpace-plain t h.1)

pub blank_is_space : (d : ℕ) → is_space d ≡ false → d ≢ b' '
unfolding is_space
blank_is_space d h = ground arith

module _ (t : Text) (h : All IsPlainChar t) where
  pub Lacks-comma : Lacks b',' t
  Lacks-comma = Lacks-of b',' (λ d p. p.no_comma) t h

  pub Lacks-equals : Lacks b'=' t
  Lacks-equals = Lacks-of b'=' (λ d p. p.no_equals) t h

  pub Lacks-double : Lacks 0x22 t
  Lacks-double = Lacks-of 0x22 (λ d p. p.no_double) t h

  pub Lacks-single : Lacks 0x27 t
  Lacks-single = Lacks-of 0x27 (λ d p. p.no_single) t h

  pub Lacks-blank : Lacks b' ' t
  Lacks-blank = Lacks-of b' ' (λ d p. blank_is_space d p.no_space) t h

  pub start_index-plain : start_index t ≡ 0
  unfolding start_index has_sequence
  start_index-plain = ground (
    arith,
    index?_pair-eq-none b'=' b'=' t Lacks-equals,
    index?_pair-eq-none b'|' b'=' t Lacks-equals,
  )

pub last?-plain :
    (t : Text) → t ≢ [] → All IsPlainChar t → (c : ℕ) × (last? t ≡ some c) × (is_quote c ≡ false)
unfolding last?
last?-plain [] n h = absurd (n refl)
last?-plain (c ∷ []) n h = (c, refl, ground (arith, h.0.no_double, h.0.no_single))
last?-plain (c ∷ d ∷ t) n h = last?-plain (d ∷ t) (ground arith) h.1

pub parse_quotes-plain :
    (unquoted final : Bool) (t : Text) → IsPlain t → parse_quotes unquoted final t ≡ ok (some t)
unfolding parse_quotes close_value
parse_quotes-plain unquoted final [] h = absurd (h.0 refl)
parse_quotes-plain unquoted final (c ∷ t) h =
    let (d, is_end, no_quote) = last?-plain (c ∷ t) h.0 h.1 in
    ground (
      arith,
      start_index-plain (c ∷ t) h.1,
      is_end,
      no_quote,
      h.1.0.no_double,
      h.1.0.no_single,
      occurs_absent b' ' (c ∷ t) (Lacks-blank (c ∷ t) h.1),
    )

pub length-plain : (t : Text) → t ≢ [] → ltb (length t) 1 ≡ false
length-plain [] n = absurd (n refl)
length-plain (c ∷ t) n = ground arith

pub parse_pair-plain :
    (unquoted final : Bool) (key value : Text)
    → IsPlain key
    → IsPlain value
    → parse_pair unquoted final key value ≡ ok (some (key, value))
unfolding parse_pair
parse_pair-plain unquoted final key value k v = rw (
  occurs_absent 0x22 key (Lacks-double key k.1),
  occurs_absent 0x27 key (Lacks-single key k.1),
  occurs_absent b' ' key (Lacks-blank key k.1),
  length-plain value v.0,
  parse_quotes-plain unquoted final value v,
)

pub length-pair_text : (key value : Text) → ltb (length (key ++ b'=' ∷ value)) 1 ≡ false
length-pair_text key value = ground (arith, length-append key (b'=' ∷ value))
