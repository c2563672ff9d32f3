-- ===== src/Engine/Fixed.antt =====
-- A concrete library of decimals for runs of the engines: whole numbers of millionths.

use pms_backend.Base.{
  ℕ, ◌≤◌, ◌≡◌, refl, sym, ap, ap₂, length, Bool, ◌∙◌, ◌-◌, ◌/◌, ◌^◌, ◌%◌, true, false, not, Option,
  none, some, arith, if◌then◌else◌, ltb, leb, ◌==◌, ◌||◌, ◌&&◌,
}
use pms_backend.Base.Int.{ℤ, pos, negsuc, negate, magnitude, ltb_ℤ, ◌+ℤ◌, ◌-ℤ◌, ◌*ℤ◌, ◌≤ℤ◌}
use pms_backend.Fault.{ok, err}
use pms_backend.Text.{Text}
use pms_backend.Decimal.{match_signed, match_unsigned, units_of}
use pms_backend.Money.{compare_units, apply_sign}
use pms_backend.Money.RoundTrip.{match_signed_positive}
use pms_backend.Loss.{is_zero}
use pms_backend.Engine.{Decimals, matched_units, units_to_decimal, is_matched}
use pms_backend.Engine.Exact.{ExactSums, UnsignedIsPositive}

abbrev unit : ℕ
unit = 1000000

-- The quotient rounded towards negative infinity.
unfoldable pub floor_div : ℤ → ℕ → ℤ
floor_div (pos a) b = pos (a / b)
floor_div (negsuc a) b = negsuc (a / b)

unfoldable pub text_value : Text → ℤ
unfolding matched_units
text_value t = elim (matched_units (match_signed t) 6) [ ok v ↦ v | err e ↦ pos 0 ]

unfoldable pub quotient : ℤ → ℤ → ℤ
unfolding floor_div
quotient a b =
    if ltb_ℤ b (pos 0)
    then floor_div (negate a *ℤ pos unit) (magnitude b)
    else floor_div (a *ℤ pos unit) (magnitude b)

-- The nearest whole number, a tie to the even one.
unfoldable pub half_even : ℤ → ℤ
unfolding floor_div
half_even a =
    let low = floor_div a unit in
    let rest = magnitude (a -ℤ low *ℤ pos unit) in
    if ltb rest 500000 || (rest == 500000 && magnitude low % 2 == 0) then low else low +ℤ pos 1

unfoldable pub fixed : Decimals
unfolding ◌+ℤ◌ ◌-ℤ◌ ◌*ℤ◌ compare_units floor_div quotient half_even text_value units_to_decimal
fixed = record {
  Value = ℤ;
  of_text = text_value;
  of_units = λ n. n *ℤ pos unit;
  plus = λ a b. a +ℤ b;
  minus = λ a b. a -ℤ b;
  times = λ a b. floor_div (a *ℤ b) unit;
  divided_by = quotient;
  equals = λ a b. is_zero (a -ℤ b);
  greater_than = λ a b. ltb_ℤ b a;
  at_least = λ a b. not (ltb_ℤ a b);
  at_most = λ a b. not (ltb_ℤ b a);
  compared_to = compare_units;
  lowest = λ a b. if ltb_ℤ b a then b else a;
  highest = λ a b. if ltb_ℤ a b then b else a;
  is_zero = is_zero;
  is_negative = λ a. ltb_ℤ a (pos 0);
  is_positive = λ a. not (ltb_ℤ a (pos 0));
  floor_units = λ a. ok (floor_div a unit);
  rounded_units = λ a. ok (half_even a);
  formatted = λ a scale.
      if leb 6 scale
      then units_to_decimal (a *ℤ pos (10 ^ (scale - 6))) scale
      else units_to_decimal (floor_div a (10 ^ (6 - scale))) scale;
}

read_millionths :
    (t : Text) (negative : Bool) (i f : Text)
    → match_signed t ≡ some (negative, i, f)
    → length f ≤ 6
    → text_value t ≡ apply_sign negative (units_of i f 6)
unfolding text_value matched_units
read_millionths t negative i f e short = ground arith

below_or_zero : (a : ℤ) → ltb_ℤ a (pos 0) ≡ true → a ≤ℤ pos 0
below_or_zero a h = ground arith

not_below : (a : ℤ) → ltb_ℤ a (pos 0) ≡ false → pos 0 ≤ℤ a
not_below a h = ground arith

-- Millionths are exact at any precision.
pub fixed-ExactSums : (precision : ℕ) → ExactSums fixed 6 precision
unfolding fixed
fixed-ExactSums precision = record {
  Counts = λ v n. v ≡ n;
  text_counts = λ {t} {negative} {i} {f} e short. read_millionths t negative i f e short;
  plus_counts = λ h k _. ap₂ ◌+ℤ◌ h k;
  minus_counts = λ h k _. ap₂ ◌-ℤ◌ h k;
  greater_than_lem = λ h k. ap₂ (λ a b. ltb_ℤ b a) h k;
  is_zero_lem = λ h. ap is_zero h;
  negative_lem = λ h k. below_or_zero _ (sym (ap (λ a. ltb_ℤ a (pos 0)) h) ∙ k);
  not_negative_lem = λ h k. not_below _ (sym (ap (λ a. ltb_ℤ a (pos 0)) h) ∙ k);
}

matched_sign :
    (m : Option (Text × Text)) (t : Text)
    → match_unsigned t ≡ m
    → is_matched m ≡ true
    → not (ltb_ℤ (text_value t) (pos 0)) ≡ true
unfolding text_value matched_units apply_sign
matched_sign none t e h = absurd (ground arith)
matched_sign (some (i, f)) t e h = ground (arith, match_signed_positive t i f e)

pub fixed-UnsignedIsPositive : UnsignedIsPositive fixed
unfolding fixed
fixed-UnsignedIsPositive t h = matched_sign (match_unsigned t) t refl h
