-- ===== src/Tasks/Until/Attempts.antt =====
-- How often `UntilRequestTask` makes its request, and what it ends with.
use grizzly.Common.{
  ℕ, zero, suc, ◌≤◌, ◌≡◌, refl, true, false, List, Option, none, arith, if◌then◌else◌, Result, ok,
  err, Bool-cases, inl, inr, ap, ◌∙◌,
}
use grizzly.Common.Int.{ℤ}
use grizzly.Common.Text.{Text}
use grizzly.Exceptions.{Exception}
use grizzly.Tasks.Until.{
  User, Transformer, Progress, continue, break, is_abort, is_exit, is_expected, settle, attempt,
  repeat,
}

-- The number of matches of an attempt; an attempt that raises has none.
abbrev pub count : Result Exception ℕ → ℕ
count (ok matches) = matches
count (err e) = 0

settle-count :
    (expected : ℤ) (received : ℕ) (result : Result Exception ℕ) (p : Progress)
    → (settle expected received result p).1.number_of_matches ≡ count result
unfolding settle
settle-count expected received (ok matches) p = refl
settle-count expected received (err e) p = refl

abbrev pub GoesOn : Result Exception ℕ → Type 0
GoesOn (ok matches) = Unit {0}
GoesOn (err e) = (is_abort e ≡ false) × (is_exit e ≡ false)

settle-next :
    (expected : ℤ) (received : ℕ) (result : Result Exception ℕ) (p : Progress)
    → GoesOn result
    → (settle expected received result p).0
      ≡ (if is_expected expected (count result) then break else continue)
unfolding settle
settle-next expected received (ok matches) p g = refl
settle-next expected received (err e) p g = rw (g.0, g.1) refl

module _ {W D : Type 0} (sleep : User W → Result Exception (Unit {0}) × User W)
    (execute : User W → Result Exception (Option Text) × User W) (transformer : Transformer D)
    (expected : ℤ) where
  module _ (parser : D → Result Exception (List Text)) where
    abbrev pub tried : User W → (ℕ × Result Exception ℕ) × User W
    tried = attempt sleep execute transformer parser

    -- `Attempts k u m u'`: `k` attempts lead from `u` to `u'`, the last one found `m` matches, and
    -- none of the others the expected number.
    pub data Attempts : ℕ → User W → ℕ → User W → Type 0 where
      once : (u : User W) → Attempts 1 u (count (tried u).0.1) (tried u).1
      again :
          (k : ℕ) (u : User W) (m : ℕ) (u' : User W)
          → is_expected expected (count (tried u).0.1) ≡ false
          → Attempts k (tried u).1 m u'
          → Attempts (suc k) u m u'

    pub repeat-break :
        (left : ℕ) (p : Progress) (u : User W)
        → (settle expected (tried u).0.0 (tried u).0.1 p).0 ≡ break
        → repeat sleep execute transformer expected parser (suc left) p u
          ≡ (none, (settle expected (tried u).0.0 (tried u).0.1 p).1, (tried u).1)
    unfolding repeat
    repeat-break left p u h = rw (h, repeat) refl

    repeat-continue :
        (left : ℕ) (p : Progress) (u : User W)
        → (settle expected (tried u).0.0 (tried u).0.1 p).0 ≡ continue
        → repeat sleep execute transformer expected parser (suc left) p u
          ≡ repeat sleep execute transformer expected parser left
              (settle expected (tried u).0.0 (tried u).0.1 p).1
              (tried u).1
    unfolding repeat
    repeat-continue left p u h = rw (h, repeat) refl

    -- The loop with `n` rounds left, where no attempt aborts.
    pub record Ended (n : ℕ) (p : Progress) (u : User W) : Type 0 where
      pub attempts : ℕ
      pub final : Progress
      pub after : User W
      pub bound : attempts ≤ n
      pub made : Attempts attempts u final.number_of_matches after
      pub result : repeat sleep execute transformer expected parser n p u ≡ (none, final, after)
      pub used_up : is_expected expected final.number_of_matches ≡ false → attempts ≡ n

    -- The variables after a round.
    abbrev settled : Progress → User W → Progress
    settled p u = (settle expected (tried u).0.0 (tried u).0.1 p).1

    -- One attempt is the last.
    Ended-once :
        (left : ℕ) (p : Progress) (u : User W)
        → repeat sleep execute transformer expected parser (suc left) p u
          ≡ (none, settled p u, (tried u).1)
        → (is_expected expected (count (tried u).0.1) ≡ false → 1 ≡ suc left)
        → Ended (suc left) p u
    Ended-once left p u stopped last =
        let same = settle-count expected (tried u).0.0 (tried u).0.1 p in
        record {
          attempts = 1;
          final = settled p u;
          after = (tried u).1;
          bound = omega arith;
          made = rw same (once u);
          result = stopped;
          used_up = rw same last;
        }

    Ended-again :
        (left : ℕ) (p : Progress) (u : User W)
        → is_expected expected (count (tried u).0.1) ≡ false
        → repeat sleep execute transformer expected parser (suc left) p u
          ≡ repeat sleep execute transformer expected parser left (settled p u) (tried u).1
        → Ended left (settled p u) (tried u).1
        → Ended (suc left) p u
    Ended-again left p u missed continued e = record {
      attempts = suc e.attempts;
      final = e.final;
      after = e.after;
      bound = omega (arith, e.bound);
      made = again e.attempts u e.final.number_of_matches e.after missed e.made;
      result = continued ∙ e.result;
      used_up = λ none_left. ap suc (e.used_up none_left);
    }

    module _ (goes : (u : User W) → GoesOn (tried u).0.1) where
      settle-continue :
          (p : Progress) (u : User W)
          → is_expected expected (count (tried u).0.1) ≡ false
          → (settle expected (tried u).0.0 (tried u).0.1 p).0 ≡ continue
      settle-continue p u missed =
          rw missed at (settle-next expected (tried u).0.0 (tried u).0.1 p (goes u))

      Ended-matched :
          (left : ℕ) (p : Progress) (u : User W)
          → is_expected expected (count (tried u).0.1) ≡ true
          → Ended (suc left) p u
      Ended-matched left p u matched =
          let stops : (settle expected (tried u).0.0 (tried u).0.1 p).0 ≡ break =
            rw matched at (settle-next expected (tried u).0.0 (tried u).0.1 p (goes u)) in
          Ended-once left p u (repeat-break left p u stops) (λ missed. cc)

      pub repeat-Ended : (left : ℕ) (p : Progress) (u : User W) → Ended (suc left) p u
      unfolding repeat
      repeat-Ended zero p u = elim (Bool-cases (is_expected expected (count (tried u).0.1))) [
        | inl matched ↦ Ended-matched 0 p u matched
        | inr missed ↦
            Ended-once 0 p u (repeat-continue 0 p u (settle-continue p u missed)) (λ h. refl)
      ]
      repeat-Ended (suc n) p u =
          let rest = repeat-Ended n (settled p u) (tried u).1 in
          elim (Bool-cases (is_expected expected (count (tried u).0.1))) [
            | inl matched ↦ Ended-matched (suc n) p u matched
            | inr missed ↦
                Ended-again (suc n) p u missed
                  (repeat-continue (suc n) p u (settle-continue p u missed)) rest
          ]
