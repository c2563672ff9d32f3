-- ===== src/Engine/Musharaka/Tests.antt =====
-- A profit of 100.01 and a loss of 90 between 60 % and 40 %, and a bank bought out in two periods.
use pms_backend.Base.{arith, ◌≡◌, refl, true, none, some, [], ◌∷◌, ℕ}
use pms_backend.Base.Int.{ℤ, pos, ◌+ℤ◌, ◌-ℤ◌, ◌*ℤ◌, negate}
use pms_backend.Fault.{ok}
use pms_backend.Number.{num, integer_within}
use pms_backend.Text.{codes}
use pms_backend.Decimal.{running}
use pms_backend.Money.{apply_sign}
use pms_backend.Engine.{
  currency_scale, signed_units, matched_units, units_to_decimal, non_negative, positive, ratio,
}
use pms_backend.Engine.Exact.{Unsigned}
use pms_backend.Engine.Fixed.{fixed, fixed-ExactSums, floor_div, quotient, text_value}
use pms_backend.Engine.Musharaka.{
  MusharakaAllocationInput, MusharakaAllocationResult, MoutanaqissaScheduleInput,
  MoutanaqissaScheduleResult, bank, profit, negotiated_profit_ratio, result_type_of, next_period,
  with_residual, split_units, allocation_result, allocate_units, allocate_musharaka_result,
  purchase_step, purchase_steps, build_moutanaqissa_schedule,
}
use pms_backend.Engine.Musharaka.Split.{
  Ratios, Agreed, Allocated, allocate_musharaka_result-Allocated,
}
use pms_backend.Engine.Musharaka.Schedule.{Bought, Scheduled, build_moutanaqissa_schedule-Scheduled}

unfoldable opened : Unit {0}
unfolding running matched_units apply_sign units_to_decimal non_negative positive ratio fixed
    floor_div quotient text_value integer_within ◌+ℤ◌ ◌-ℤ◌ ◌*ℤ◌ negate
opened = tt

abbrev input : MusharakaAllocationInput
input = record {
  result = codes "100.01";
  bank_capital = codes "600";
  partner_capital = codes "400";
  bank_profit_ratio = codes "0.5";
  partner_profit_ratio = codes "0.5";
  passive_partner = bank;
  loss_cause = none;
  currency_scale = none;
}

abbrev outcome : MusharakaAllocationResult
outcome = record {
  result_type = profit;
  bank_allocation = codes "50.01";
  partner_allocation = codes "50.00";
  bank_capital_ratio = codes "0.600000000000";
  partner_capital_ratio = codes "0.400000000000";
  applied_rule = negotiated_profit_ratio;
  conservation_difference = codes "0.00";
}

allocate_input : allocate_musharaka_result fixed input ≡ ok outcome
unfolding opened allocate_musharaka_result allocate_units split_units with_residual
    allocation_result result_type_of
allocate_input = refl

allocate_musharaka_result-Allocated_example :
    (scale : ℕ) × (total : ℤ) × (currency_scale none ≡ ok scale)
    × (signed_units (codes "100.01") scale ≡ ok total)
    × (s : Ratios fixed) × Agreed fixed input s
    × Allocated fixed scale total none s outcome
allocate_musharaka_result-Allocated_example =
    allocate_musharaka_result-Allocated fixed input outcome allocate_input

abbrev schedule : MoutanaqissaScheduleInput
schedule = record {
  bank_capital = codes "600";
  partner_capital = codes "400";
  purchases =
      record { period = num 1; bank_capital_purchased = codes "100" }
      ∷ record { period = num 3; bank_capital_purchased = codes "500" }
      ∷ [];
  maturity_reached = true;
  output_scale = some (num 2);
}

abbrev scheduled : MoutanaqissaScheduleResult
scheduled = record {
  periods =
      record {
        period = pos 1;
        bank_capital_purchased = codes "100.00";
        remaining_bank_capital = codes "500.00";
        partner_capital = codes "500.00";
        bank_ownership_ratio = codes "0.50";
        partner_ownership_ratio = codes "0.50";
        ratio_total = codes "1.00";
      }
      ∷ record {
        period = pos 3;
        bank_capital_purchased = codes "500.00";
        remaining_bank_capital = codes "0.00";
        partner_capital = codes "1000.00";
        bank_ownership_ratio = codes "0.00";
        partner_ownership_ratio = codes "1.00";
        ratio_total = codes "1.00";
      }
      ∷ [];
  final_bank_capital = codes "0.00";
  final_partner_capital = codes "1000.00";
  fully_acquired = true;
}

build_schedule : build_moutanaqissa_schedule fixed schedule ≡ ok scheduled
unfolding opened build_moutanaqissa_schedule purchase_steps purchase_step next_period
build_schedule = refl

bank_spelled : Unsigned 6 (codes "600") 600000000
unfolding running
bank_spelled = (codes "600", [], refl, omega arith, refl)

partner_spelled : Unsigned 6 (codes "400") 400000000
unfolding running
partner_spelled = (codes "400", [], refl, omega arith, refl)

bought : Bought 6 schedule.purchases 600000000
unfolding running
bought = (
  100000000,
  500000000,
  (codes "100", [], refl, omega arith, refl),
  (500000000, 0, (codes "500", [], refl, omega arith, refl), refl, refl),
  refl,
)

build_moutanaqissa_schedule-Scheduled_example :
    Scheduled fixed (fixed-ExactSums 30) schedule 600000000 400000000 600000000 scheduled
build_moutanaqissa_schedule-Scheduled_example =
    build_moutanaqissa_schedule-Scheduled fixed (fixed-ExactSums 30) schedule scheduled 600000000
      400000000 600000000 bank_spelled partner_spelled bought (omega arith) build_schedule

-- A capital of 0 is accepted as positive.
zero_accepted : positive fixed (codes "0") ≡ ok (fixed.of_text (codes "0"))
unfolding opened
zero_accepted = refl
