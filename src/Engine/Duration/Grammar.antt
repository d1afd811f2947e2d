-- ===== src/Engine/Duration/Grammar.antt =====
-- The duration texts that are accepted (packages/core/src/engine/duration.ts).
use workit.Prelude.{
  ℕ, ◌*◌, ◌≤◌, ◌≡◌, refl, ap, ◌∙◌, ◌↔◌, ◌≢◌, true, Option, some, none, List, [], ◌∷◌, ◌++◌, all, ok,
  arith,
}
use workit.Engine.Duration.{
  Duration, number, text, DurationUnit, ms, s, m, h, multiplier, max_timeout_ms, is_digit, digits,
  after_digits, unit_of, decimal, parse_match, parse_duration, whole, negative, not_finite,
}

abbrev pub unit_text : DurationUnit → List ℕ
unit_text ms = b'm' ∷ b's' ∷ []
unit_text s = b's' ∷ []
unit_text m = b'm' ∷ []
unit_text h = b'h' ∷ []

-- How the accepted texts are written, with no reference to the parser.
pub record IsWritten (t : List ℕ) (n : ℕ) : Type 0 where
  pub count : List ℕ
  pub unit : DurationUnit
  pub split : t ≡ count ++ unit_text unit
  pub are_digits : all is_digit count ≡ true
  pub has_digit : count ≢ []
  pub value : n ≡ decimal count * multiplier unit

digits-split : (t : List ℕ) → t ≡ digits t ++ after_digits t
unfolding digits after_digits
digits-split [] = refl
digits-split (c ∷ cs) = ground (arith, digits-split cs)

all-digits : (t : List ℕ) → all is_digit (digits t) ≡ true
unfolding digits
all-digits [] = refl
all-digits (c ∷ cs) = ground (arith, all-digits cs)

unit_of-text : (t : List ℕ) (u : DurationUnit) → unit_of t ≡ some u → t ≡ unit_text u
unfolding unit_of
unit_of-text [] u e = cc
unit_of-text (c ∷ []) u e = ground arith
unit_of-text (c ∷ d ∷ []) u e = ground arith
unit_of-text (c ∷ d ∷ e' ∷ r) u e = cc

digits-append :
    (ds : List ℕ) (u : DurationUnit) → all is_digit ds ≡ true → digits (ds ++ unit_text u) ≡ ds
unfolding digits
digits-append [] ms e = refl
digits-append [] s e = refl
digits-append [] m e = refl
digits-append [] h e = refl
digits-append (d ∷ ds) u e = ground (arith, digits-append ds u)

after_digits-append :
    (ds : List ℕ) (u : DurationUnit)
    → all is_digit ds ≡ true
    → after_digits (ds ++ unit_text u) ≡ unit_text u
unfolding after_digits
after_digits-append [] ms e = refl
after_digits-append [] s e = refl
after_digits-append [] m e = refl
after_digits-append [] h e = refl
after_digits-append (d ∷ ds) u e = ground (arith, after_digits-append ds u)

unit_of-unit_text : (u : DurationUnit) → unit_of (unit_text u) ≡ some u
unfolding unit_of
unit_of-unit_text ms = refl
unit_of-unit_text s = refl
unit_of-unit_text m = refl
unit_of-unit_text h = refl

parse_match-ok :
    (ds : List ℕ) (u : Option DurationUnit) (n : ℕ)
    → parse_match ds u ≡ ok n
    → (v : DurationUnit) × (u ≡ some v)
      × (ds ≢ [])
      × (n ≡ decimal ds * multiplier v)
      × (n ≤ max_timeout_ms)
unfolding parse_match
parse_match-ok [] u n e = cc
parse_match-ok (d ∷ ds) none n e = cc
parse_match-ok (d ∷ ds) (some v) n e = (v, refl, (λ q. cc), ground arith, ground arith)

parse_match-within :
    (ds : List ℕ) (u : DurationUnit)
    → ds ≢ []
    → decimal ds * multiplier u ≤ max_timeout_ms
    → parse_match ds (some u) ≡ ok (decimal ds * multiplier u)
unfolding parse_match
parse_match-within [] u p le = absurd (p refl)
parse_match-within (d ∷ ds) u p le = ground arith

-- A text is accepted, and means n milliseconds, exactly when it is digits followed by a unit that
-- together make n, and n is at most the longest timeout.
pub parse_duration-text_iff :
    (t : List ℕ) (n : ℕ) → (parse_duration (text t) ≡ ok n) ↔ (IsWritten t n × (n ≤ max_timeout_ms))
unfolding parse_duration
parse_duration-text_iff t n = (there, back)
  where
    there :
        parse_match (digits t) (unit_of (after_digits t)) ≡ ok n
        → IsWritten t n × (n ≤ max_timeout_ms)
    there e =
        let (u, unit, some_digit, value, le) = parse_match-ok (digits t) _ n e in
        (
          record {
            count = digits t;
            unit = u;
            split = digits-split t ∙ ap (◌++◌ (digits t)) (unit_of-text _ u unit);
            are_digits = all-digits t;
            has_digit = some_digit;
            value = value;
          },
          le,
        )

    back :
        IsWritten t n × (n ≤ max_timeout_ms)
        → parse_match (digits t) (unit_of (after_digits t)) ≡ ok n
    back (w, le) =
        rw
          (
            w.split,
            digits-append w.count w.unit w.are_digits,
            after_digits-append w.count w.unit w.are_digits,
            unit_of-unit_text w.unit,
          )
          (rw w.value (parse_match-within w.count w.unit w.has_digit (ground arith)))

-- No accepted duration, numeric or written, is longer than the longest timeout.
pub parse_duration_bounded : (d : Duration) (n : ℕ) → parse_duration d ≡ ok n → n ≤ max_timeout_ms
unfolding parse_duration
parse_duration_bounded (number (whole k)) n e = ground arith
parse_duration_bounded (number negative) n e = cc
parse_duration_bounded (number not_finite) n e = cc
parse_duration_bounded (text t) n e = (parse_match-ok (digits t) _ n e).4
