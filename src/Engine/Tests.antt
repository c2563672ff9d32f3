-- ===== src/Engine/Tests.antt =====
-- Runs of the engines on the library of millionths.
use pms_backend.Base.{arith, false, true, ◌≡◌, ◌⊎◌, refl, none, some, [], ◌∷◌}
use pms_backend.Base.Int.{pos, negsuc, ◌+ℤ◌, ◌-ℤ◌, ◌*ℤ◌, negate}
use pms_backend.Fault.{Fault, ok, err}
use pms_backend.Number.{num, integer_within}
use pms_backend.Text.{codes, is_blank, trim}
use pms_backend.Text.Digits.{big_int}
use pms_backend.Decimal.{running}
use pms_backend.Money.{apply_sign}
use pms_backend.Account.{is_date_text}
use pms_backend.Engine.{matched_units, units_to_decimal, non_negative, positive, ratio, signed}
use pms_backend.Engine.Fixed.{fixed, fixed-ExactSums, floor_div, quotient, text_value}
use pms_backend.Engine.Distributable.{
  DistributablePoolProfitInput, DistributablePoolProfitResult, Amounts, waterfall, read_amounts,
  non_negative_amount, positive_amount,
}
use pms_backend.Engine.Distributable.Waterfall.{Numbers, Spelled, Shared, Refused, waterfall_lem}
use pms_backend.Engine.Target.{
  ProfitTargetSolverInput, ProfitTargetSolverResult, Terms, distribution_key,
  next_period_or_tanazul, contractual_key_cannot_increase_during_current_period,
  publish_key_for_next_period, use_documented_tanazul, adjustment_of, formatted_value, response,
  solve_key, solve, solve_profit_target,
}
use pms_backend.Engine.Target.Solved.{Answers, TermsRead, Valued, solve_profit_target-Answers}
use pms_backend.Engine.Dates.{
  parse_date, dated, day_number, is_leap, month_lengths, length_of, days_before_month,
  days_before_year,
}
use pms_backend.Engine.Weighted.{
  WeightedParticipationInput, WeightedParticipationResult, average_daily_balance, actual_360,
  basis_for_observation, raw_bases, sum_from, lowest_from, minimum_of, effective_bases, daily_from,
  weighted_result, calculate_weighted_participation_base,
}
use pms_backend.Engine.Weighted.Days.{Covers, calculate_weighted_participation_base-Covers}

unfoldable opened : Unit {0}
unfolding running matched_units apply_sign units_to_decimal non_negative positive ratio signed fixed
    floor_div quotient text_value integer_within trim is_blank ◌+ℤ◌ ◌-ℤ◌ ◌*ℤ◌ negate
opened = tt

-- A pool with a revenue of 1000.
abbrev pool : DistributablePoolProfitInput
pool = record {
  pool_id = codes "P";
  revenue = codes "1000";
  approved_charges = codes "100";
  losses = codes "50";
  non_compliant_income = codes "10";
  adjustments = codes "-5";
  bank_economic_share = codes "200";
  moudarib_remuneration = codes "100";
  per_allocation = codes "20";
  irr_allocation = codes "15";
  pool_participation_base = codes "10000";
  partial_backing_base = none;
  output_scale = none;
}

abbrev amounts : Amounts fixed
amounts = record {
  revenue = fixed.of_text (codes "1000");
  charges = fixed.of_text (codes "100");
  losses = fixed.of_text (codes "50");
  purification = fixed.of_text (codes "10");
  adjustments = fixed.of_text (codes "-5");
  bank_economic = fixed.of_text (codes "200");
  moudarib = fixed.of_text (codes "100");
  per = fixed.of_text (codes "20");
  irr = fixed.of_text (codes "15");
  base = fixed.of_text (codes "10000");
}

abbrev numbers : Numbers
numbers = record {
  revenue = pos 1000000000;
  charges = pos 100000000;
  losses = pos 50000000;
  purification = pos 10000000;
  adjustments = negsuc 4999999;
  bank_economic = pos 200000000;
  moudarib = pos 100000000;
  per = pos 20000000;
  irr = pos 15000000;
}

pool-Spelled : Spelled 6 pool numbers
unfolding opened apply_sign
pool-Spelled = record {
  revenue = (false, codes "1000", [], refl, omega arith, refl);
  charges = (false, codes "100", [], refl, omega arith, refl);
  losses = (false, codes "50", [], refl, omega arith, refl);
  purification = (false, codes "10", [], refl, omega arith, refl);
  adjustments = (true, codes "5", [], refl, omega arith, refl);
  bank_economic = (false, codes "200", [], refl, omega arith, refl);
  moudarib = (false, codes "100", [], refl, omega arith, refl);
  per = (false, codes "20", [], refl, omega arith, refl);
  irr = (false, codes "15", [], refl, omega arith, refl);
}

pool_read : read_amounts fixed pool ≡ ok amounts
unfolding opened read_amounts non_negative_amount positive_amount
pool_read = refl

waterfall_lem_example :
    ((r : DistributablePoolProfitResult) × (waterfall fixed pool 12 amounts ≡ ok r)
      × Shared fixed (fixed-ExactSums 30) 12 numbers r)
    ⊎ ((f : Fault) × (waterfall fixed pool 12 amounts ≡ err f)
        × Refused fixed (fixed-ExactSums 30) pool amounts numbers f)
waterfall_lem_example =
    waterfall_lem fixed (fixed-ExactSums 30) pool 12 amounts numbers pool-Spelled (omega arith)
      pool_read

-- A rate of 6 % on 1000 would need a key of 0.6, above the current 0.5.
abbrev target : ProfitTargetSolverInput
target = record {
  backing_base = codes "1000";
  target_net_rate = codes "0.06";
  current_investor_profit = codes "50";
  distributable_profit_before_share = codes "100";
  current_investor_key = codes "0.5";
  available_bank_share_for_tanazul = codes "50";
  per_minimum_adjustment = codes "-5";
  per_maximum_adjustment = codes "5";
  irr_minimum_adjustment = codes "-5";
  irr_maximum_adjustment = codes "5";
  lever = distribution_key;
  output_scale = some (num 2);
}

abbrev solved_target : ProfitTargetSolverResult
solved_target = record {
  lever = distribution_key;
  status = next_period_or_tanazul;
  required_value = some (codes "0.60");
  required_profit_adjustment = codes "10.00";
  target_investor_profit = codes "60.00";
  achievable_net_rate_minimum = codes "0.00";
  achievable_net_rate_maximum = codes "0.10";
  governance = contractual_key_cannot_increase_during_current_period ∷ [];
  alternatives = publish_key_for_next_period ∷ use_documented_tanazul ∷ [];
}

solve_target : solve_profit_target fixed target ≡ ok solved_target
unfolding opened solve_profit_target solve solve_key response formatted_value adjustment_of
solve_target = refl

solve_profit_target-Answers_example :
    (t : Terms fixed) × (rate : fixed.Value) × (non_negative fixed (codes "0.06") ≡ ok rate)
    × (t.target_profit ≡ fixed.times t.base rate)
    × TermsRead fixed target t
    × Answers fixed target distribution_key t solved_target
    × Valued solved_target
    × (distribution_key ≡ distribution_key)
solve_profit_target-Answers_example =
    solve_profit_target-Answers fixed target solved_target solve_target

-- Two days over the end of a leap February.
abbrev period : WeightedParticipationInput
period = record {
  account_id = codes "a";
  period_start = codes "2024-02-29";
  period_end = codes "2024-03-01";
  balance_convention = average_daily_balance;
  day_count_convention = actual_360;
  category_weight = codes "1";
  maturity_weight = codes "2";
  observations =
      record {
        business_date = codes "2024-02-29";
        eligible_balance = codes "100";
        participation_units = none;
        participation_unit_value = none;
      }
      ∷ record {
        business_date = codes "2024-03-01";
        eligible_balance = codes "200";
        participation_units = none;
        participation_unit_value = none;
      }
      ∷ [];
  output_scale = some (num 2);
}

abbrev covered : WeightedParticipationResult
covered = record {
  account_id = codes "a";
  period_start = codes "2024-02-29";
  period_end = codes "2024-03-01";
  observation_count = 2;
  day_count_convention = actual_360;
  balance_convention = average_daily_balance;
  average_eligible_basis = codes "150.00";
  minimum_eligible_basis = codes "100.00";
  weighted_amount_days = codes "600.00";
  weighted_participation_base = codes "1.66";
  daily =
      record {
        business_date = codes "2024-02-29";
        eligible_basis = codes "150.00";
        weighted_basis = codes "300.00";
        day_fraction = codes "0.00";
        weighted_accrual = codes "0.83";
      }
      ∷ record {
        business_date = codes "2024-03-01";
        eligible_basis = codes "150.00";
        weighted_basis = codes "300.00";
        day_fraction = codes "0.00";
        weighted_accrual = codes "0.83";
      }
      ∷ [];
}

calculate_period : calculate_weighted_participation_base fixed period ≡ ok covered
unfolding opened calculate_weighted_participation_base weighted_result raw_bases
    basis_for_observation sum_from lowest_from minimum_of effective_bases daily_from parse_date
    dated day_number is_leap month_lengths length_of days_before_month days_before_year is_date_text
    big_int
calculate_period = refl

calculate_weighted_participation_base-Covers_example : Covers fixed period covered
calculate_weighted_participation_base-Covers_example =
    calculate_weighted_participation_base-Covers fixed period covered calculate_period
