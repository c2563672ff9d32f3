-- ===== src/Money.antt =====
-- src/shared-kernel/money.ts: `class Money`, an amount in whole minor units.
pub mod RoundTrip
pub mod Parsing
pub mod Arithmetic
pub mod Amounts
mod Tests
use pms_backend.Base.{
  ℕ, ◌≡◌, refl, Bool, true, false, ◌&&◌, ◌||◌, not, Option, none, some, [], ◌∷◌, arith, leb, ltb,
  ◌==◌, if◌then◌else◌, length,
}
use pms_backend.Base.Int.{ℤ, pos, negsuc, negate, magnitude, ltb_ℤ, ◌+ℤ◌, ◌-ℤ◌}
use pms_backend.Fault.{
  Fault, Result, ok, err, ◌>>=◌, ◌>>◌, throw_if, money_currency, money_scale, money_not_canonical,
  money_exceeds_scale, money_incompatible,
}
use pms_backend.Number.{Number, integer_within, Sign, less, same, more}
use pms_backend.Text.{Text, text_eq, is_currency}
use pms_backend.Decimal.{match_signed, units_of, print_unsigned}

pub record Money : Type 0 where
  pub currency : Text
  pub minor_units : ℤ
  pub scale : ℕ

abbrev pub max_scale : ℕ
max_scale = 12

-- `match[1] === '-' ? -units : units`
unfoldable pub apply_sign : Bool → ℕ → ℤ
unfolding negate
apply_sign negative units = if negative then negate (pos units) else pos units

-- The part of `Money.parse` behind `exec`.
unfoldable pub parse_matched : Option (Bool × Text × Text) → Text → ℕ → Result Money
unfolding apply_sign units_of
parse_matched none currency scale = err money_not_canonical
parse_matched (some (negative, integer, fraction)) currency scale =
    if ltb scale (length fraction)
    then err money_exceeds_scale
    else ok (record {
      currency = currency;
      minor_units = apply_sign negative (units_of integer fraction scale);
      scale = scale;
    })

-- `Money.parse`
unfoldable pub parse : Text → Text → Number → Result Money
unfolding integer_within parse_matched
parse amount currency scale = do
  throw_if (not (is_currency currency)) money_currency
  s ← integer_within max_scale money_scale scale
  parse_matched (match_signed amount) currency s

-- `Money.fromMinorUnits`
unfoldable pub from_minor_units : ℤ → Text → Number → Result Money
unfolding integer_within
from_minor_units minor_units currency scale = do
  throw_if (not (is_currency currency)) money_currency
  s ← integer_within max_scale money_scale scale
  ok (record { currency = currency; minor_units = minor_units; scale = s })

-- `assertCompatible`
unfoldable pub assert_compatible : Money → Money → Result (Unit {0})
assert_compatible m n =
    throw_if (not (text_eq m.currency n.currency) || not (m.scale == n.scale)) money_incompatible

-- `add`
unfoldable pub add : Money → Money → Result Money
unfolding assert_compatible
add m n = do assert_compatible m n; ok (record m { minor_units = m.minor_units +ℤ n.minor_units })

-- `subtract`
unfoldable pub subtract : Money → Money → Result Money
unfolding assert_compatible
subtract m n = do
  assert_compatible m n
  ok (record m { minor_units = m.minor_units -ℤ n.minor_units })

unfoldable pub compare_units : ℤ → ℤ → Sign
compare_units a b = if ltb_ℤ a b then less else if ltb_ℤ b a then more else same

-- `compare`
unfoldable pub compare : Money → Money → Result Sign
unfolding assert_compatible compare_units
compare m n = do assert_compatible m n; ok (compare_units m.minor_units n.minor_units)

-- `toDecimalString`
unfoldable pub to_decimal_string : Money → Text
to_decimal_string m =
    let value = print_unsigned (magnitude m.minor_units) m.scale in
    if ltb_ℤ m.minor_units (pos 0) then b'-' ∷ value else value
