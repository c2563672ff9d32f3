-- ===== src/Risk/Ratio.antt =====
-- The ratio that `calculateDcr` prints.
use pms_backend.Base.{
  ℕ, ◌*◌, ◌<◌, ◌≤◌, ◌≡◌, ◌↔◌, subst, Bool, true, false, not, arith, leb, if◌then◌else◌,
}
use pms_backend.Base.Int.{ℤ, pos, magnitude, ltb_ℤ}
use pms_backend.Fault.{
  ok, throw_if, >>=_returns, ok_injective, capital_negative, exposure_not_positive,
}
use pms_backend.Decimal.Scan.{print_matched}
use pms_backend.Money.{Money, parse}
use pms_backend.Risk.{
  DcrInput, DcrResult, within_limit, breach, ratio_factor, round_half_up, ratio_units, parse_ratio,
  format_ratio, calculate_dcr,
}
use pms_backend.Risk.Rounding.{IsNearest, round_half_up-IsNearest}

-- A printed ratio is read back.
parse_ratio-format_ratio : (u : ℕ) → parse_ratio (format_ratio u) ≡ ok u
unfolding format_ratio ratio_units
parse_ratio-format_ratio u =
    let (i, f, matched, short, exact) = print_matched u 6 in rw (matched) (ground arith)

positive_magnitude : (z : ℤ) → ltb_ℤ (pos 0) z ≡ true → 0 < magnitude z
positive_magnitude z h = ground arith

thrown_not : (b : Bool) → throw_if (not b) exposure_not_positive ≡ ok tt → b ≡ true
thrown_not b h = ground arith

state_shape : (t v : ℕ) → ((if leb t v then within_limit else breach) ≡ within_limit) ↔ (t ≤ v)
state_shape t v = ground arith

-- The ratio of two amounts, in millionths.
abbrev pub Rated : DcrInput → DcrResult → Type 0
Rated input r =
    (capital : Money) × (exposure : Money) × (threshold : ℕ) × (value : ℕ) × (parse
        input.capital_duration_amount input.currency input.amount_scale
      ≡ ok capital)
    × (parse input.risk_weighted_duration_amount input.currency input.amount_scale ≡ ok exposure)
    × (parse_ratio input.threshold ≡ ok threshold)
    × (ltb_ℤ capital.minor_units (pos 0) ≡ false)
    × (ltb_ℤ (pos 0) exposure.minor_units ≡ true)
    × (parse_ratio r.value ≡ ok value)
    × (parse_ratio r.threshold ≡ ok threshold)
    × IsNearest (magnitude capital.minor_units * ratio_factor) (magnitude exposure.minor_units)
        value
    × ((r.state ≡ within_limit) ↔ (threshold ≤ value))

not_negative : (b : Bool) → throw_if b capital_negative ≡ ok tt → b ≡ false
not_negative b h = ground arith

-- A calculated ratio is the one of the two amounts rounded to the nearest millionth, halves up, its
-- print and the one of the threshold read back, and it is within the limit exactly where the rounded
-- ratio reaches the threshold.
pub calculate_dcr_sound :
    (input : DcrInput) (r : DcrResult) → calculate_dcr input ≡ ok r → Rated input r
unfolding calculate_dcr
calculate_dcr_sound input r h =
    let c = input.currency in
    let n = input.amount_scale in
    let (capital, pc, h1) = >>=_returns (parse input.capital_duration_amount c n) _ h in
    let (exposure, pe, h2) = >>=_returns (parse input.risk_weighted_duration_amount c n) _ h1 in
    let (_, a, h3) =
      >>=_returns (throw_if (ltb_ℤ capital.minor_units (pos 0)) capital_negative) _ h2 in
    let (_, b, h4) =
      >>=_returns (throw_if (not (ltb_ℤ (pos 0) exposure.minor_units)) exposure_not_positive) _
        h3 in
    let (threshold, pt, h5) = >>=_returns (parse_ratio input.threshold) _ h4 in
    let units = magnitude capital.minor_units * ratio_factor in
    let divisor = magnitude exposure.minor_units in
    let value = round_half_up units divisor in
    let positive = thrown_not (ltb_ℤ (pos 0) exposure.minor_units) b in
    subst (Rated input) (ok_injective h5) (
      capital,
      exposure,
      threshold,
      value,
      pc,
      pe,
      pt,
      not_negative (ltb_ℤ capital.minor_units (pos 0)) a,
      positive,
      parse_ratio-format_ratio value,
      parse_ratio-format_ratio threshold,
      round_half_up-IsNearest units divisor (positive_magnitude exposure.minor_units positive),
      state_shape threshold value,
    )
