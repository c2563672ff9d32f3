-- ===== src/Risk.antt =====
-- src/modules/risk-alm/domain: the displaced commercial risk ratio (dcr.ts) and the stress of an
-- amount by shocks in basis points (stress-scenario.ts).
pub mod Rounding
pub mod Ratio
pub mod Stress
pub mod Rerun
pub mod Shocked
mod Tests
use pms_backend.Base.{
  ℕ, suc, ◌+◌, ◌*◌, ◌/◌, ◌%◌, Bool, true, false, ◌&&◌, ◌||◌, not, Option, none, some, List, [], ◌∷◌,
  leb, ltb, ◌==◌, if◌then◌else◌, length, every,
}
use pms_backend.Base.Int.{ℤ, pos, negate, magnitude, ltb_ℤ, ◌*ℤ◌}
use pms_backend.Fault.{
  Result, ok, err, ◌>>=◌, ◌>>◌, throw_if, capital_negative, exposure_not_positive,
  threshold_not_decimal, threshold_scale, stress_negative, shock_count, stress_bucket, shock_range,
  stressed_negative,
}
use pms_backend.Number.{Number, int, non_integer}
use pms_backend.Text.{Text, is_upper, is_digit, includes}
use pms_backend.Decimal.{match_unsigned, units_of, print_unsigned}
use pms_backend.Money.{Money, apply_sign, parse, from_minor_units, add, to_decimal_string}

abbrev pub ratio_scale : ℕ
ratio_scale = 6

abbrev pub ratio_factor : ℕ
ratio_factor = 1000000

-- The quotient, one more where twice the remainder reaches the divisor.
unfoldable pub round_half_up : ℕ → ℕ → ℕ
round_half_up n d = if leb d (n % d * 2) then n / d + 1 else n / d

pub record DcrInput : Type 0 where
  pub capital_duration_amount : Text
  pub risk_weighted_duration_amount : Text
  pub currency : Text
  pub amount_scale : Number
  pub threshold : Text

pub data DcrState : Type 0 where
  within_limit breach : DcrState

pub record DcrResult : Type 0 where
  pub value : Text
  pub threshold : Text
  pub state : DcrState

-- `parseRatio`: the two parts of `split('.')` are those of the match.
unfoldable pub ratio_units : Option (Text × Text) → Result ℕ
ratio_units none = err threshold_not_decimal
ratio_units (some (whole, fraction)) =
    if ltb ratio_scale (length fraction)
    then err threshold_scale
    else ok (units_of whole fraction ratio_scale)

abbrev pub parse_ratio : Text → Result ℕ
parse_ratio value = ratio_units (match_unsigned value)

-- `formatRatio`
unfoldable pub format_ratio : ℕ → Text
format_ratio units = print_unsigned units ratio_scale

-- `calculateDcr`: behind the guards both amounts are natural numbers.
unfoldable pub calculate_dcr : DcrInput → Result DcrResult
unfolding ratio_units format_ratio round_half_up
calculate_dcr input = do
  capital ← parse input.capital_duration_amount input.currency input.amount_scale
  exposure ← parse input.risk_weighted_duration_amount input.currency input.amount_scale
  throw_if (ltb_ℤ capital.minor_units (pos 0)) capital_negative
  throw_if (not (ltb_ℤ (pos 0) exposure.minor_units)) exposure_not_positive
  threshold ← parse_ratio input.threshold
  let value =
      round_half_up (magnitude capital.minor_units * ratio_factor) (magnitude exposure.minor_units)
  ok (record {
    value = format_ratio value;
    threshold = format_ratio threshold;
    state = if leb threshold value then within_limit else breach;
  })

pub record StressShock : Type 0 where
  pub bucket : Text
  pub basis_points : Number

pub record StressResult : Type 0 where
  pub bucket : Text
  pub basis_points : ℤ
  pub stressed_amount : Text
  pub impact_amount : Text

abbrev is_bucket_char : ℕ → Bool
is_bucket_char c = is_upper c || is_digit c || c == b'_' || c == b'-'

-- `/^[A-Z][A-Z0-9_-]{1,63}$/`
unfoldable pub is_bucket : Text → Bool
is_bucket [] = false
is_bucket (c ∷ s) = is_upper c && leb 1 (length s) && leb (length s) 63 && every is_bucket_char s

-- The check of the basis points.
unfoldable pub shock_points : Number → Result ℤ
shock_points (int z) = if leb (magnitude z) 10000 then ok z else err shock_range
shock_points non_integer = err shock_range

-- `impactMinor`
unfoldable pub impact_units : ℤ → ℤ → ℤ
unfolding round_half_up
impact_units base points =
    let numerator = base *ℤ points in
    apply_sign (ltb_ℤ numerator (pos 0)) (round_half_up (magnitude numerator) 10000)

-- One shock of `executeStressScenario`.
unfoldable pub stress_one : Money → Text → Number → StressShock → Result StressResult
unfolding impact_units shock_points
stress_one base currency scale shock = do
  points ← shock_points shock.basis_points
  impact ← from_minor_units (impact_units base.minor_units points) currency scale
  stressed ← add base impact
  throw_if (ltb_ℤ stressed.minor_units (pos 0)) stressed_negative
  ok (record {
    bucket = shock.bucket;
    basis_points = points;
    stressed_amount = to_decimal_string stressed;
    impact_amount = to_decimal_string impact;
  })

-- The `map` over the shocks, with the set `buckets`.
unfoldable pub stress_all :
    Money → Text → Number → List Text → List StressShock → Result (List StressResult)
unfolding is_bucket stress_one
stress_all base currency scale seen [] = ok []
stress_all base currency scale seen (shock ∷ shocks) = do
  throw_if (not (is_bucket shock.bucket) || includes seen shock.bucket) stress_bucket
  result ← stress_one base currency scale shock
  rest ← stress_all base currency scale (shock.bucket ∷ seen) shocks
  ok (result ∷ rest)

-- `executeStressScenario`
unfoldable pub execute_stress_scenario :
    Text → Text → Number → List StressShock → Result (List StressResult)
unfolding stress_all
execute_stress_scenario base_amount currency scale shocks = do
  base ← parse base_amount currency scale
  throw_if (ltb_ℤ base.minor_units (pos 0)) stress_negative
  throw_if (length shocks == 0 || ltb 100 (length shocks)) shock_count
  stress_all base currency scale [] shocks
