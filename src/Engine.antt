-- ===== src/Engine.antt =====
-- libs/engine/src: what the profit engines share. The library decimal.js is a parameter, a record of
-- the operations that the engines call; each engine has its own precision and rounding.
pub mod Units
pub mod Exact
pub mod Fixed
pub mod Musharaka
pub mod Wakala
pub mod Moudaraba
pub mod Distributable
pub mod Target
pub mod Dates
pub mod Weighted
mod Tests
use pms_backend.Base.{
  ℕ, ◌∷◌, Bool, true, false, Option, none, some, ltb, if◌then◌else◌, length, not,
}
use pms_backend.Base.Int.{ℤ, pos, negate, magnitude, ltb_ℤ}
use pms_backend.Fault.{
  Fault, Result, ok, err, ◌>>=◌, ◌>>◌, throw_if, engine_scale, output_scale, engine_not_canonical,
  engine_exceeds_scale, engine_negative, engine_not_positive, ratio_above_one,
}
use pms_backend.Number.{Number, num, Sign, integer_within}
use pms_backend.Text.{Text, codes}
use pms_backend.Decimal.{match_signed, match_unsigned, units_of, print_unsigned}
use pms_backend.Money.{apply_sign}

-- The calls of decimal.js. A comparison with NaN is false; `BigInt` throws on the text of a value
-- that is no whole number, such as NaN.
pub record Decimals : Type 1 where
  pub Value : Type 0
  -- `new ExactDecimal(text)` and `new ExactDecimal(n.toString())`
  pub of_text : Text → Value
  pub of_units : ℤ → Value
  pub plus : Value → Value → Value
  pub minus : Value → Value → Value
  pub times : Value → Value → Value
  pub divided_by : Value → Value → Value
  -- `equals`, `greaterThan`, `greaterThanOrEqualTo` and `lessThanOrEqualTo`
  pub equals : Value → Value → Bool
  pub greater_than : Value → Value → Bool
  pub at_least : Value → Value → Bool
  pub at_most : Value → Value → Bool
  pub compared_to : Value → Value → Sign
  -- `Decimal.min` and `Decimal.max`
  pub lowest : Value → Value → Value
  pub highest : Value → Value → Value
  -- `isPositive` and `isNegative` look at the sign alone, which 0 has, too.
  pub is_zero : Value → Bool
  pub is_negative : Value → Bool
  pub is_positive : Value → Bool
  -- `BigInt(value.floor().toFixed(0))`, and the same with `toDecimalPlaces(0, ROUND_HALF_EVEN)`
  pub floor_units : Value → Result ℤ
  pub rounded_units : Value → Result ℤ
  -- `value.toDecimalPlaces(scale, ROUND_HALF_EVEN).toFixed(scale)`
  pub formatted : Value → ℕ → Text

-- `currencyScale ?? 2` and `outputScale ?? 12`, with their checks.
abbrev pub or_number : Option Number → ℕ → Number
or_number none n = num n
or_number (some s) n = s

abbrev pub currency_scale : Option Number → Result ℕ
currency_scale s = integer_within 12 engine_scale (or_number s 2)

abbrev pub checked_output_scale : Option Number → Result ℕ
checked_output_scale s = integer_within 24 output_scale (or_number s 12)

-- The part of `decimalToUnits` behind `exec`.
unfoldable pub matched_units : Option (Bool × Text × Text) → ℕ → Result ℤ
matched_units none scale = err engine_not_canonical
matched_units (some (negative, integer, fraction)) scale =
    if ltb scale (length fraction)
    then err engine_exceeds_scale
    else ok (apply_sign negative (units_of integer fraction scale))

abbrev pub unsigned_match : Option (Text × Text) → Option (Bool × Text × Text)
unsigned_match none = none
unsigned_match (some (integer, fraction)) = some (false, integer, fraction)

-- `decimalToUnits`, with and without a sign.
abbrev pub signed_units : Text → ℕ → Result ℤ
signed_units value scale = matched_units (match_signed value) scale

abbrev pub unsigned_units : Text → ℕ → Result ℤ
unsigned_units value scale = matched_units (unsigned_match (match_unsigned value)) scale

-- `unitsToDecimal`
unfoldable pub units_to_decimal : ℤ → ℕ → Text
units_to_decimal units scale =
    let value = print_unsigned (magnitude units) scale in
    if ltb_ℤ units (pos 0) then b'-' ∷ value else value

abbrev pub is_matched {ℓ} : {T : Type ℓ} → Option T → Bool
is_matched none = false
is_matched (some t) = true

module _ (d : Decimals) where
  open d use {Value, of_text, is_negative, is_positive, is_zero, greater_than, of_units}

  -- `nonNegative`: the text has no sign.
  unfoldable pub non_negative : Text → Result Value
  non_negative value = do
    throw_if (not (is_matched (match_unsigned value))) engine_not_canonical
    ok (of_text value)

  -- `signed` and `amount`
  unfoldable pub signed : Text → Result Value
  signed value = do
    throw_if (not (is_matched (match_signed value))) engine_not_canonical
    ok (of_text value)

  -- `positive`
  unfoldable pub positive : Text → Result Value
  unfolding non_negative
  positive value = do
    parsed ← non_negative value
    throw_if (not (is_positive parsed)) engine_not_positive
    ok parsed

  -- `ratio`, `rate` and `boundedRate`
  unfoldable pub ratio : Text → Result Value
  unfolding non_negative
  ratio value = do
    parsed ← non_negative value
    throw_if (greater_than parsed (of_units (pos 1))) ratio_above_one
    ok parsed
