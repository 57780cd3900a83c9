-- ===== src/Arguments/Errors.antt =====
-- An input on which `parse_arguments` does not raise the `ValueError` that its callers catch.
use grizzly.Common.{ℕ, ◌≡◌, ◌≢◌, refl, true, false, [], ◌∷◌, ◌++◌, err, arith, Bool}
use grizzly.Common.Text.{Text, codes, is_space, index?, last?}
use grizzly.Common.Text.Laws.{
  Lacks, HasNoSpace, strip-eq_self, occurs_absent, All-append, occurs_append, count_once,
  split_once-append, split-absent,
}
use grizzly.Arguments.{
  is_quote, has_sequence, start_index, close_value, parse_quotes, parse_pair, strip_pair,
  parse_argument, parse_parts, parse_arguments, index_error,
}
use grizzly.Arguments.Plain.{
  IsPlain, HasNoSpace-plain, Lacks-comma, Lacks-equals, Lacks-double, Lacks-single, Lacks-blank,
  length-pair_text,
}

module _ (key : Text) (k : IsPlain key) (quote : ℕ) (q : is_quote quote ≡ true) where
  -- The value is one quote: taking the opening quote off leaves nothing to look at.
  parse_quotes-lone : (final : Bool) → parse_quotes true final (quote ∷ []) ≡ err index_error
  unfolding parse_quotes start_index has_sequence index? close_value last?
  parse_quotes-lone final = ground arith

  parse_pair-lone : (final : Bool) → parse_pair true final key (quote ∷ []) ≡ err index_error
  unfolding parse_pair
  parse_pair-lone final = rw (
    occurs_absent 0x22 key (Lacks-double key k.1),
    occurs_absent 0x27 key (Lacks-single key k.1),
    occurs_absent b' ' key (Lacks-blank key k.1),
    parse_quotes-lone final,
  )

  quote_no_space : is_space quote ≡ false
  unfolding is_space
  quote_no_space = ground arith

  HasNoSpace-lone : HasNoSpace (key ++ b'=' ∷ quote ∷ [])
  unfolding is_space
  HasNoSpace-lone =
      All-append (λ c. is_space c ≡ false) key (b'=' ∷ quote ∷ []) (HasNoSpace-plain key k.1)
        (refl, (quote_no_space, tt))

  strip_pair-lone :
      (final : Bool) → strip_pair true final (key ∷ (quote ∷ []) ∷ []) ≡ err index_error
  strip_pair-lone final =
      rw
        (
          strip-eq_self key (HasNoSpace-plain key k.1),
          strip-eq_self (quote ∷ []) (quote_no_space, tt),
        )
        (parse_pair-lone final)

  parse_argument-lone :
      (final : Bool)
      → parse_argument (codes "=") true final (key ++ b'=' ∷ quote ∷ []) ≡ err index_error
  unfolding parse_argument
  parse_argument-lone final =
      rw
        (
          strip-eq_self (key ++ b'=' ∷ quote ∷ []) HasNoSpace-lone,
          length-pair_text key (quote ∷ []),
          occurs_append b'=' key (quote ∷ []) (Lacks-equals key k.1),
          split_once-append b'=' key (quote ∷ []) (Lacks-equals key k.1),
        )
        (strip_pair-lone final)

-- For a plain key and a value that is a single quotation mark, `parse_arguments` with its defaults
-- ends in an `IndexError`, and not in the `ValueError` of a value that is incorrectly quoted.
pub parse_arguments_lone_quote :
    (key : Text) (quote : ℕ)
    → IsPlain key
    → is_quote quote ≡ true
    → parse_arguments (key ++ b'=' ∷ quote ∷ []) (codes "=") true ≡ err index_error
unfolding parse_arguments parse_parts
parse_arguments_lone_quote key quote k q =
    let lacks_equals : Lacks b'=' (quote ∷ []) = (ground arith, tt) in
    let lacks_comma : Lacks b',' (quote ∷ []) = (ground arith, tt) in
    rw (
      occurs_append b'=' key (quote ∷ []) (Lacks-equals key k.1),
      count_once b'=' key (quote ∷ []) (Lacks-equals key k.1) lacks_equals,
      split-absent b',' (key ++ b'=' ∷ quote ∷ []) (
          All-append (λ c. c ≢ b',') key (b'=' ∷ quote ∷ []) (Lacks-comma key k.1)
            (omega arith, lacks_comma)),
      parse_argument-lone key k quote q true,
    )
