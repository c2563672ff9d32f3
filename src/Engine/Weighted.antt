-- ===== src/Engine/Weighted.antt =====
-- libs/engine/src/weighted-participation-base.ts: the weighted days of an account in a period.
pub mod Days
use pms_backend.Base.{
  ℕ, zero, suc, ◌+◌, ◌-◌, ◌*◌, ◌/◌, Bool, true, false, not, Option, none, some, List, [], ◌∷◌, map,
  ltb, ◌==◌, if◌then◌else◌, length,
}
use pms_backend.Base.Int.{ℤ, pos}
use pms_backend.Fault.{
  Result, ok, err, ◌>>=◌, ◌>>◌, throw_if, account_required, period_reversed, observation_count,
  observation_date, participation_units_required,
}
use pms_backend.Number.{Number}
use pms_backend.Text.{Text, is_blank}
use pms_backend.Engine.Dates.{parse_date}
use pms_backend.Engine.{Decimals, checked_output_scale, non_negative}

pub data BalanceConvention : Type 0 where
  daily_balance average_daily_balance minimum_daily_balance participation_units : BalanceConvention

pub data DayCountConvention : Type 0 where
  actual_365 actual_360 : DayCountConvention

pub record ParticipationObservation : Type 0 where
  pub business_date : Text
  pub eligible_balance : Text
  pub participation_units : Option Text
  pub participation_unit_value : Option Text

pub record WeightedParticipationInput : Type 0 where
  pub account_id : Text
  pub period_start : Text
  pub period_end : Text
  pub balance_convention : BalanceConvention
  pub day_count_convention : DayCountConvention
  pub category_weight : Text
  pub maturity_weight : Text
  pub observations : List ParticipationObservation
  pub output_scale : Option Number

pub record DailyParticipationBase : Type 0 where
  pub business_date : Text
  pub eligible_basis : Text
  pub weighted_basis : Text
  pub day_fraction : Text
  pub weighted_accrual : Text

pub record WeightedParticipationResult : Type 0 where
  pub account_id : Text
  pub period_start : Text
  pub period_end : Text
  pub observation_count : ℕ
  pub day_count_convention : DayCountConvention
  pub balance_convention : BalanceConvention
  pub average_eligible_basis : Text
  pub minimum_eligible_basis : Text
  pub weighted_amount_days : Text
  pub weighted_participation_base : Text
  pub daily : List DailyParticipationBase

abbrev pub days_in_year : DayCountConvention → ℕ
days_in_year actual_365 = 365
days_in_year actual_360 = 360

module _ (d : Decimals) where
  open d use {Value, of_units, plus, times, divided_by, lowest, formatted}

  -- `basisForObservation`
  unfoldable pub basis_for_observation : ParticipationObservation → BalanceConvention → Result Value
  basis_for_observation o participation_units = elim o.participation_units [
    | none ↦ err participation_units_required
    | some units ↦ elim o.participation_unit_value [
      | none ↦ err participation_units_required
      | some unit_value ↦ (do
        parsed_units ← non_negative d units
        parsed_value ← non_negative d unit_value
        ok (times parsed_units parsed_value))
    ]
  ]
  basis_for_observation o _ = non_negative d o.eligible_balance

  -- `input.observations.map(...)`: the date of each must be the next one.
  unfoldable pub raw_bases :
      BalanceConvention → ℕ → List ParticipationObservation → Result (List Value)
  unfolding basis_for_observation
  raw_bases convention expected [] = ok []
  raw_bases convention expected (o ∷ observations) = do
    date ← parse_date o.business_date
    throw_if (not (date == expected)) observation_date
    basis ← basis_for_observation o convention
    rest ← raw_bases convention (suc expected) observations
    ok (basis ∷ rest)

  unfoldable pub sum_from : Value → List Value → Value
  sum_from total [] = total
  sum_from total (value ∷ values) = sum_from (plus total value) values

  -- `rawBases.reduce((lowest, value) => Decimal.min(lowest, value), rawBases[0])`; there is one.
  unfoldable pub lowest_from : Value → List Value → Value
  lowest_from low [] = low
  lowest_from low (value ∷ values) = lowest_from (lowest low value) values

  unfoldable pub minimum_of : List Value → Value
  unfolding lowest_from
  minimum_of [] = of_units (pos 0)
  minimum_of (value ∷ values) = lowest_from value (value ∷ values)

  -- `effectiveBases`
  unfoldable pub effective_bases : BalanceConvention → Value → Value → List Value → List Value
  effective_bases average_daily_balance average minimum raw = map (λ _. average) raw
  effective_bases minimum_daily_balance average minimum raw = map (λ _. minimum) raw
  effective_bases _ average minimum raw = raw

  -- The two sums that the last closure changes.
  pub record Totals : Type 0 where
    pub weighted_amount_days : Value
    pub weighted_participation_base : Value

  -- `input.observations.map(...)`: one entry for each observation and its basis.
  unfoldable pub daily_from :
      Value
      → Value
      → ℕ
      → Totals
      → List ParticipationObservation
      → List Value
      → List DailyParticipationBase × Totals
  daily_from weight fraction scale totals (o ∷ observations) (basis ∷ bases) =
      let weighted_basis = times basis weight in
      let accrual = times weighted_basis fraction in
      let (rest, last) =
        daily_from weight fraction scale
          (record {
            weighted_amount_days = plus totals.weighted_amount_days weighted_basis;
            weighted_participation_base = plus totals.weighted_participation_base accrual;
          })
          observations bases in
      (
        record {
          business_date = o.business_date;
          eligible_basis = formatted basis scale;
          weighted_basis = formatted weighted_basis scale;
          day_fraction = formatted fraction scale;
          weighted_accrual = formatted accrual scale;
        }
            ∷ rest,
        last,
      )
  daily_from weight fraction scale totals _ _ = ([], totals)

  -- The rest of `calculateWeightedParticipationBase`, behind `rawBases`.
  unfoldable pub weighted_result :
      WeightedParticipationInput → ℕ → Value → ℕ → List Value → WeightedParticipationResult
  unfolding sum_from minimum_of effective_bases daily_from
  weighted_result input scale weight expected_days raw =
      let average = divided_by (sum_from (of_units (pos 0)) raw) (of_units (pos expected_days)) in
      let minimum = minimum_of raw in
      let denominator = of_units (pos (days_in_year input.day_count_convention)) in
      let (daily, totals) =
        daily_from weight (divided_by (of_units (pos 1)) denominator) scale
          (record {
            weighted_amount_days = of_units (pos 0);
            weighted_participation_base = of_units (pos 0);
          })
          input.observations (effective_bases input.balance_convention average minimum raw) in
      record {
        account_id = input.account_id;
        period_start = input.period_start;
        period_end = input.period_end;
        observation_count = expected_days;
        day_count_convention = input.day_count_convention;
        balance_convention = input.balance_convention;
        average_eligible_basis = formatted average scale;
        minimum_eligible_basis = formatted minimum scale;
        weighted_amount_days = formatted totals.weighted_amount_days scale;
        weighted_participation_base = formatted totals.weighted_participation_base scale;
        daily = daily;
      }

  -- `calculateWeightedParticipationBase`
  unfoldable pub calculate_weighted_participation_base :
      WeightedParticipationInput → Result WeightedParticipationResult
  unfolding raw_bases weighted_result
  calculate_weighted_participation_base input = do
    throw_if (is_blank input.account_id) account_required
    start ← parse_date input.period_start
    end ← parse_date input.period_end
    throw_if (ltb end start) period_reversed
    let expected_days = suc (end - start)
    throw_if (not (length input.observations == expected_days)) observation_count
    scale ← checked_output_scale input.output_scale
    category_weight ← non_negative d input.category_weight
    maturity_weight ← non_negative d input.maturity_weight
    raw ← raw_bases input.balance_convention start input.observations
    ok (weighted_result input scale (times category_weight maturity_weight) expected_days raw)
