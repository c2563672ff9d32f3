-- ===== src/Engine/Wakala/Tests.antt =====
-- A profit of 120 against 100 expected, a fee of 15 with 5 waived, and half of the surplus.
use pms_backend.Base.{◌≡◌, refl, true, none, some}
use pms_backend.Base.Int.{◌+ℤ◌, ◌-ℤ◌, ◌*ℤ◌, negate}
use pms_backend.Fault.{ok}
use pms_backend.Number.{num, integer_within}
use pms_backend.Text.{codes, is_blank, trim}
use pms_backend.Decimal.{running}
use pms_backend.Money.{apply_sign}
use pms_backend.Engine.{matched_units, units_to_decimal, non_negative, ratio}
use pms_backend.Engine.Fixed.{fixed, floor_div, half_even, text_value}
use pms_backend.Engine.Wakala.{
  WakalaAllocationInput, WakalaAllocationResult, WakalaUnits, bank_performance_incentive,
  at_or_above_expectation, nobody, minimum, waiver_units, is_undocumented, surplus_of, settled_with,
  rounded_product, incentive_of, settle, allocate_wakala_profit,
}
use pms_backend.Engine.Wakala.Settled.{Reads, Settled, allocate_wakala_profit-Settled}

abbrev input : WakalaAllocationInput
input = record {
  mandate_id = codes "M-1";
  realized_profit = codes "120";
  indicative_expected_profit = codes "100";
  contractual_fee = codes "15";
  fee_waiver = some (record { amount = codes "5"; rationale = codes "goodwill"; approved = true });
  surplus_policy = bank_performance_incentive;
  performance_incentive_rate = codes "0.5";
  bank_fault_established = none;
  loss_cause = none;
  currency_scale = some (num 1);
}

abbrev outcome : WakalaAllocationResult
outcome = record {
  mandate_id = codes "M-1";
  performance = at_or_above_expectation;
  realized_profit = codes "120.0";
  indicative_expected_profit = codes "100.0";
  contractual_fee = codes "15.0";
  waived_fee = codes "5.0";
  charged_fee = codes "10.0";
  performance_incentive = codes "5.0";
  mandant_result = codes "105.0";
  bank_total_remuneration = codes "15.0";
  loss_attribution = nobody;
  conservation_difference = codes "0.0";
}

allocate_input : allocate_wakala_profit fixed input ≡ ok outcome
unfolding allocate_wakala_profit settle settled_with incentive_of rounded_product surplus_of minimum
    waiver_units is_undocumented fixed floor_div half_even text_value matched_units apply_sign
    units_to_decimal non_negative ratio running integer_within trim is_blank ◌+ℤ◌ ◌-ℤ◌ ◌*ℤ◌ negate
allocate_input = refl

allocate_wakala_profit-Settled_example :
    (u : WakalaUnits) × (rate : fixed.Value) × (ratio fixed (codes "0.5") ≡ ok rate)
    × Reads fixed input u
    × Settled fixed input u rate outcome
allocate_wakala_profit-Settled_example =
    allocate_wakala_profit-Settled fixed input outcome allocate_input
