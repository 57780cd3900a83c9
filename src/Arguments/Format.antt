-- ===== src/Arguments/Format.antt =====
-- Arguments written as `key=value, key=value` (the form that `generate_initial_value` of
-- grizzly/testdata/variables/integer_incrementer.py writes) are read back by `parse_arguments`.
use grizzly.Common.{
  ◌≡◌, refl, ◌≢◌, Bool, true, false, List, [], ◌∷◌, ◌++◌, none, some, arith, All, ok, list_eq,
  nat_eq, append_assoc,
}
use grizzly.Common.Dict.{Dict, insert}
use grizzly.Common.Text.{Text, codes, is_space, occurs, count, split}
use grizzly.Common.Text.Laws.{
  Lacks, HasNoSpace, All-append, strip-eq_self, strip-space, occurs_append, occurs_pair, count_once,
  split_once-append, split-absent, split-append,
}
use grizzly.Arguments.Plain.{
  IsPlain, HasNoSpace-plain, Lacks-comma, Lacks-equals, parse_pair-plain, length-pair_text,
}
use grizzly.Arguments.{strip_pair, parse_argument, parse_parts, parse_arguments}

abbrev pub ArePlain : List (Text × Text) → Type 0
ArePlain = All (λ p. IsPlain p.0 × IsPlain p.1)

abbrev pair_text : Text × Text → Text
pair_text (key, value) = key ++ b'=' ∷ value

unfoldable pub format_arguments : List (Text × Text) → Text
format_arguments [] = []
format_arguments (p ∷ []) = pair_text p
format_arguments (p ∷ q ∷ ps) = pair_text p ++ (b',' ∷ b' ' ∷ format_arguments (q ∷ ps))

-- parsed[key] = value for each pair, in order
unfoldable pub assign_all : Dict Text Text → List (Text × Text) → Dict Text Text
assign_all d [] = d
assign_all d ((k, v) ∷ ps) = assign_all (insert k v d) ps

module _ (key value : Text) (k : IsPlain key) (v : IsPlain value) where
  HasNoSpace-pair_text : HasNoSpace (key ++ b'=' ∷ value)
  unfolding is_space
  HasNoSpace-pair_text =
      All-append (λ c. is_space c ≡ false) key (b'=' ∷ value) (HasNoSpace-plain key k.1)
        (refl, HasNoSpace-plain value v.1)

  strip_pair-plain :
      (unquoted final : Bool)
      → strip_pair unquoted final (key ∷ value ∷ []) ≡ ok (some (key, value))
  strip_pair-plain unquoted final =
      rw
        (
          strip-eq_self key (HasNoSpace-plain key k.1),
          strip-eq_self value (HasNoSpace-plain value v.1),
        )
        (parse_pair-plain unquoted final key value k v)

  -- A part as `split` leaves it, with or without the blank after the comma.
  parse_argument-pair :
      (unquoted final : Bool)
      → parse_argument (codes "=") unquoted final (key ++ b'=' ∷ value) ≡ ok (some (key, value))
  unfolding parse_argument
  parse_argument-pair unquoted final =
      rw
        (
          strip-eq_self (key ++ b'=' ∷ value) HasNoSpace-pair_text,
          length-pair_text key value,
          occurs_append b'=' key value (Lacks-equals key k.1),
          split_once-append b'=' key value (Lacks-equals key k.1),
        )
        (strip_pair-plain unquoted final)

  parse_argument-blank_pair :
      (unquoted final : Bool)
      → parse_argument (codes "=") unquoted final (b' ' ∷ key ++ b'=' ∷ value)
        ≡ ok (some (key, value))
  unfolding parse_argument
  parse_argument-blank_pair unquoted final =
      rw
        (
          strip-space (key ++ b'=' ∷ value),
          strip-eq_self (key ++ b'=' ∷ value) HasNoSpace-pair_text,
          length-pair_text key value,
          occurs_append b'=' (b' ' ∷ key) value (omega arith, Lacks-equals key k.1),
          split_once-append b'=' key value (Lacks-equals key k.1),
        )
        (strip_pair-plain unquoted final)

  Lacks-comma_pair_text : Lacks b',' (key ++ b'=' ∷ value)
  Lacks-comma_pair_text =
      All-append (λ c. c ≢ b',') key (b'=' ∷ value) (Lacks-comma key k.1)
        (omega arith, Lacks-comma value v.1)

-- The parts after the first have the blank of the separator in front.
abbrev blank_parts : List (Text × Text) → List Text
blank_parts [] = []
blank_parts (p ∷ ps) = (b' ' ∷ pair_text p) ∷ blank_parts ps

abbrev all_parts : List (Text × Text) → List Text
all_parts [] = [] ∷ []
all_parts (p ∷ ps) = pair_text p ∷ blank_parts ps

split-format_arguments_blank :
    (p : Text × Text) (ps : List (Text × Text))
    → ArePlain (p ∷ ps)
    → split b',' (b' ' ∷ format_arguments (p ∷ ps)) ≡ blank_parts (p ∷ ps)
unfolding format_arguments
split-format_arguments_blank (key, value) [] h =
    split-absent b',' (b' ' ∷ key ++ b'=' ∷ value)
      (omega arith, Lacks-comma_pair_text key value h.0.0 h.0.1)
split-format_arguments_blank (key, value) (q ∷ ps) h =
    rw (← split-format_arguments_blank q ps h.1) (
      split-append b',' (b' ' ∷ key ++ b'=' ∷ value) (b' ' ∷ format_arguments (q ∷ ps))
        (omega arith, Lacks-comma_pair_text key value h.0.0 h.0.1))

split-format_arguments :
    (p : Text × Text) (ps : List (Text × Text))
    → ArePlain (p ∷ ps)
    → split b',' (format_arguments (p ∷ ps)) ≡ all_parts (p ∷ ps)
unfolding format_arguments
split-format_arguments (key, value) [] h =
    split-absent b',' (key ++ b'=' ∷ value) (Lacks-comma_pair_text key value h.0.0 h.0.1)
split-format_arguments (key, value) (q ∷ ps) h = rw (← split-format_arguments_blank q ps h.1) (
    split-append b',' (key ++ b'=' ∷ value) (b' ' ∷ format_arguments (q ∷ ps))
      (Lacks-comma_pair_text key value h.0.0 h.0.1))

parse_parts-blank :
    (unquoted : Bool) (d : Dict Text Text) (ps : List (Text × Text))
    → ArePlain ps
    → parse_parts (codes "=") unquoted d none (blank_parts ps) ≡ ok (assign_all d ps)
unfolding parse_parts assign_all
parse_parts-blank unquoted d [] h = refl
parse_parts-blank unquoted d ((key, value) ∷ ps) h =
    rw (parse_argument-blank_pair key value h.0.0 h.0.1 unquoted)
      (parse_parts-blank unquoted (insert key value d) ps h.1)

parse_parts-all :
    (unquoted : Bool) (p : Text × Text) (ps : List (Text × Text))
    → ArePlain (p ∷ ps)
    → parse_parts (codes "=") unquoted [] none (all_parts (p ∷ ps)) ≡ ok (assign_all [] (p ∷ ps))
unfolding parse_parts assign_all
parse_parts-all unquoted (key, value) ps h =
    rw (parse_argument-pair key value h.0.0 h.0.1 unquoted)
      (parse_parts-blank unquoted (insert key value []) ps h.1)

occurs_equals :
    (p : Text × Text) (ps : List (Text × Text))
    → ArePlain (p ∷ ps)
    → occurs (codes "=") (format_arguments (p ∷ ps)) ≡ true
unfolding format_arguments
occurs_equals (key, value) [] h = occurs_append b'=' key value (Lacks-equals key h.0.0.1)
occurs_equals (key, value) (q ∷ ps) h =
    rw (append_assoc key (b'=' ∷ value) _) (occurs_append b'=' key _ (Lacks-equals key h.0.0.1))

count-equals_once :
    (key value : Text)
    → IsPlain key
    → IsPlain value
    → count (codes "=") (format_arguments ((key, value) ∷ [])) ≡ 1
unfolding format_arguments
count-equals_once key value k v =
    count_once b'=' key value (Lacks-equals key k.1) (Lacks-equals value v.1)

occurs_separator :
    (p q : Text × Text) (ps : List (Text × Text))
    → occurs (codes ", ") (format_arguments (p ∷ q ∷ ps)) ≡ true
unfolding format_arguments
occurs_separator p q ps = occurs_pair b',' b' ' (pair_text p) (format_arguments (q ∷ ps))

-- Plain keys and values, one pair at least, written as `key=value` and joined by `, `, are parsed to
-- the dictionary of these pairs, in which a later value of a key replaces an earlier one.
pub parse_arguments-format_arguments :
    (unquoted : Bool) (ps : List (Text × Text))
    → ps ≢ []
    → ArePlain ps
    → parse_arguments (format_arguments ps) (codes "=") unquoted ≡ ok (assign_all [] ps)
unfolding parse_arguments
parse_arguments-format_arguments unquoted [] n h = absurd (n refl)
parse_arguments-format_arguments unquoted ((key, value) ∷ []) n h =
    rw
      (
        occurs_equals (key, value) [] h,
        count-equals_once key value h.0.0 h.0.1,
        split-format_arguments (key, value) [] h,
      )
      (parse_parts-all unquoted (key, value) [] h)
parse_arguments-format_arguments unquoted (p ∷ q ∷ ps) n h =
    let split_parts = split-format_arguments p (q ∷ ps) h in
    let parsed = parse_parts-all unquoted p (q ∷ ps) h in
    ground (arith, occurs_equals p (q ∷ ps) h, occurs_separator p q ps, split_parts, parsed)
