-- ===== src/Engine/Wakala.antt =====
-- libs/engine/src/wakala-allocation.ts: the fee and the incentive of an agent (Wakil).
pub mod Settled
mod Tests
use pms_backend.Base.{ℕ, Bool, true, false, ◌&&◌, ◌||◌, not, Option, none, some, if◌then◌else◌}
use pms_backend.Base.Int.{ℤ, pos, ltb_ℤ, ◌+ℤ◌, ◌-ℤ◌}
use pms_backend.Fault.{
  Result, ok, err, ◌>>=◌, ◌>>◌, throw_if, mandate_required, waiver_exceeds, waiver_undocumented,
  wakala_conservation, engine_not_canonical, ratio_above_one,
}
use pms_backend.Number.{Number}
use pms_backend.Text.{Text, is_blank}
use pms_backend.Loss.{LossCause, is_bank_liability_cause, is_zero}
use pms_backend.Engine.{
  Decimals, currency_scale, signed_units, unsigned_units, units_to_decimal, ratio,
}

pub data WakalaSurplusPolicy : Type 0 where
  bank_performance_incentive return_to_mandant : WakalaSurplusPolicy

pub record WakalaFeeWaiver : Type 0 where
  pub amount : Text
  pub rationale : Text
  pub approved : Bool

pub record WakalaAllocationInput : Type 0 where
  pub mandate_id : Text
  pub realized_profit : Text
  pub indicative_expected_profit : Text
  pub contractual_fee : Text
  pub fee_waiver : Option WakalaFeeWaiver
  pub surplus_policy : WakalaSurplusPolicy
  pub performance_incentive_rate : Text
  pub bank_fault_established : Option Bool
  pub loss_cause : Option LossCause
  pub currency_scale : Option Number

pub data Performance : Type 0 where
  loss underperformance at_or_above_expectation : Performance

pub data LossAttribution : Type 0 where
  nobody mandant bank : LossAttribution

pub record WakalaAllocationResult : Type 0 where
  pub mandate_id : Text
  pub performance : Performance
  pub realized_profit : Text
  pub indicative_expected_profit : Text
  pub contractual_fee : Text
  pub waived_fee : Text
  pub charged_fee : Text
  pub performance_incentive : Text
  pub mandant_result : Text
  pub bank_total_remuneration : Text
  pub loss_attribution : LossAttribution
  pub conservation_difference : Text

-- `minimum`
unfoldable pub minimum : ℤ → ℤ → ℤ
minimum left right = if ltb_ℤ left right then left else right

-- `waiver`, before its checks.
unfoldable pub waiver_units : Option WakalaFeeWaiver → ℕ → Result ℤ
waiver_units none scale = ok (pos 0)
waiver_units (some waiver) scale = unsigned_units waiver.amount scale

-- `!input.feeWaiver?.approved || !input.feeWaiver.rationale.trim()`
unfoldable pub is_undocumented : Option WakalaFeeWaiver → Bool
is_undocumented none = true
is_undocumented (some waiver) = not waiver.approved || is_blank waiver.rationale

-- `attributedToBank`
unfoldable pub attributed_to_bank : Option LossCause → Option Bool → Bool
attributed_to_bank (some cause) fault = is_bank_liability_cause cause
attributed_to_bank none (some true) = true
attributed_to_bank none _ = false

-- The amounts that are read, in units of the currency.
pub record WakalaUnits : Type 0 where
  pub scale : ℕ
  pub realized : ℤ
  pub expected : ℤ
  pub contractual_fee : ℤ
  pub waiver : ℤ

-- The result of a loss.
unfoldable pub loss_result : Text → WakalaUnits → Bool → WakalaAllocationResult
loss_result mandate_id u to_bank = record {
  mandate_id = mandate_id;
  performance = loss;
  realized_profit = units_to_decimal u.realized u.scale;
  indicative_expected_profit = units_to_decimal u.expected u.scale;
  contractual_fee = units_to_decimal u.contractual_fee u.scale;
  waived_fee = units_to_decimal u.contractual_fee u.scale;
  charged_fee = units_to_decimal (pos 0) u.scale;
  performance_incentive = units_to_decimal (pos 0) u.scale;
  mandant_result = units_to_decimal (if to_bank then pos 0 else u.realized) u.scale;
  bank_total_remuneration = units_to_decimal (if to_bank then u.realized else pos 0) u.scale;
  loss_attribution = if to_bank then bank else mandant;
  conservation_difference = units_to_decimal (pos 0) u.scale;
}

-- `afterFee > expected ? afterFee - expected : 0n`
unfoldable pub surplus_of : ℤ → ℤ → ℤ
surplus_of after_fee expected = if ltb_ℤ expected after_fee then after_fee -ℤ expected else pos 0

-- The result of a profit.
unfoldable pub profit_result : Text → WakalaUnits → ℤ → ℤ → ℤ → WakalaAllocationResult
profit_result mandate_id u charged_fee incentive difference = record {
  mandate_id = mandate_id;
  performance = if ltb_ℤ u.realized u.expected then underperformance else at_or_above_expectation;
  realized_profit = units_to_decimal u.realized u.scale;
  indicative_expected_profit = units_to_decimal u.expected u.scale;
  contractual_fee = units_to_decimal u.contractual_fee u.scale;
  waived_fee = units_to_decimal u.waiver u.scale;
  charged_fee = units_to_decimal charged_fee u.scale;
  performance_incentive = units_to_decimal incentive u.scale;
  mandant_result = units_to_decimal (u.realized -ℤ charged_fee -ℤ incentive) u.scale;
  bank_total_remuneration = units_to_decimal (charged_fee +ℤ incentive) u.scale;
  loss_attribution = nobody;
  conservation_difference = units_to_decimal difference u.scale;
}

-- The end of `allocateWakalaProfit`, behind the incentive.
unfoldable pub settled_with : Text → WakalaUnits → ℤ → ℤ → Result WakalaAllocationResult
unfolding profit_result
settled_with mandate_id u charged_fee incentive =
    let after_fee = u.realized -ℤ charged_fee in
    let mandant_result = after_fee -ℤ incentive in
    let bank_total = charged_fee +ℤ incentive in
    let difference = u.realized -ℤ mandant_result -ℤ bank_total in
    do
      throw_if (not (is_zero difference)) wakala_conservation
      ok (profit_result mandate_id u charged_fee incentive difference)

module _ (d : Decimals) where
  open d use {Value, of_units, times, rounded_units}

  -- `roundedProduct`
  unfoldable pub rounded_product : ℤ → Value → Result ℤ
  rounded_product units multiplier = rounded_units (times (of_units units) multiplier)

  unfoldable pub incentive_of : WakalaSurplusPolicy → ℤ → Value → Result ℤ
  unfolding rounded_product
  incentive_of bank_performance_incentive surplus rate = rounded_product surplus rate
  incentive_of return_to_mandant surplus rate = ok (pos 0)

  -- What follows the checks of the input.
  unfoldable pub settle :
      WakalaAllocationInput → WakalaUnits → Value → Result WakalaAllocationResult
  settle input u rate =
      let charged_fee = minimum (u.contractual_fee -ℤ u.waiver) u.realized in
      let after_fee = u.realized -ℤ charged_fee in
      if ltb_ℤ u.realized (pos 0)
      then ok (
          loss_result input.mandate_id u
            (attributed_to_bank input.loss_cause input.bank_fault_established))
      else (do
        incentive ← incentive_of input.surplus_policy (surplus_of after_fee u.expected) rate
        settled_with input.mandate_id u charged_fee incentive)

  -- `allocateWakalaProfit`
  unfoldable pub allocate_wakala_profit : WakalaAllocationInput → Result WakalaAllocationResult
  allocate_wakala_profit input = do
    throw_if (is_blank input.mandate_id) mandate_required
    scale ← currency_scale input.currency_scale
    realized ← signed_units input.realized_profit scale
    expected ← unsigned_units input.indicative_expected_profit scale
    contractual_fee ← unsigned_units input.contractual_fee scale
    rate ← ratio d input.performance_incentive_rate
    waiver ← waiver_units input.fee_waiver scale
    throw_if (ltb_ℤ contractual_fee waiver) waiver_exceeds
    throw_if (ltb_ℤ (pos 0) waiver && is_undocumented input.fee_waiver) waiver_undocumented
    settle input
        (record {
          scale = scale;
          realized = realized;
          expected = expected;
          contractual_fee = contractual_fee;
          waiver = waiver;
        })
        rate
