-- ===== src/Engine/Distributable.antt =====
-- libs/engine/src/distributable-pool-profit.ts: the profit of a pool down to the investors' share.
pub mod Waterfall
use pms_backend.Base.{ℕ, Bool, true, false, not, Option, none, some}
use pms_backend.Base.Int.{ℤ, pos}
use pms_backend.Fault.{
  Result, ok, err, ◌>>=◌, ◌>>◌, throw_if, pool_required, engine_negative, engine_not_positive,
  gross_negative, purification_exceeds, allocations_exceed, waterfall_conservation,
}
use pms_backend.Number.{Number}
use pms_backend.Text.{Text, is_blank}
use pms_backend.Engine.{Decimals, checked_output_scale, signed}

pub record DistributablePoolProfitInput : Type 0 where
  pub pool_id : Text
  pub revenue : Text
  pub approved_charges : Text
  pub losses : Text
  pub non_compliant_income : Text
  pub adjustments : Text
  pub bank_economic_share : Text
  pub moudarib_remuneration : Text
  pub per_allocation : Text
  pub irr_allocation : Text
  pub pool_participation_base : Text
  pub partial_backing_base : Option Text
  pub output_scale : Option Number

pub record DistributablePoolProfitResult : Type 0 where
  pub pool_id : Text
  pub gross_result : Text
  pub purified_amount : Text
  pub net_distributable_profit : Text
  pub bank_economic_share : Text
  pub moudarib_remuneration : Text
  pub bank_total_share : Text
  pub investor_share : Text
  pub per_allocation : Text
  pub irr_allocation : Text
  pub pool_return_rate : Text
  pub partial_backing_return_rate : Option Text
  pub conservation_difference : Text

module _ (d : Decimals) where
  open d use {Value, plus, minus, divided_by, is_zero, is_negative, formatted}

  -- `nonNegativeAmount`
  unfoldable pub non_negative_amount : Text → Result Value
  non_negative_amount value = do
    parsed ← signed d value
    throw_if (is_negative parsed) engine_negative
    ok parsed

  -- `positiveAmount`
  unfoldable pub positive_amount : Text → Result Value
  unfolding non_negative_amount
  positive_amount value = do
    parsed ← non_negative_amount value
    throw_if (is_zero parsed) engine_not_positive
    ok parsed

  -- The amounts of the input.
  pub record Amounts : Type 0 where
    pub revenue : Value
    pub charges : Value
    pub losses : Value
    pub purification : Value
    pub adjustments : Value
    pub bank_economic : Value
    pub moudarib : Value
    pub per : Value
    pub irr : Value
    pub base : Value

  unfoldable pub read_amounts : DistributablePoolProfitInput → Result Amounts
  unfolding non_negative_amount positive_amount
  read_amounts input = do
    revenue ← signed d input.revenue
    charges ← non_negative_amount input.approved_charges
    losses ← non_negative_amount input.losses
    purification ← non_negative_amount input.non_compliant_income
    adjustments ← signed d input.adjustments
    bank_economic ← non_negative_amount input.bank_economic_share
    moudarib ← non_negative_amount input.moudarib_remuneration
    per ← non_negative_amount input.per_allocation
    irr ← non_negative_amount input.irr_allocation
    base ← positive_amount input.pool_participation_base
    ok (record {
      revenue = revenue;
      charges = charges;
      losses = losses;
      purification = purification;
      adjustments = adjustments;
      bank_economic = bank_economic;
      moudarib = moudarib;
      per = per;
      irr = irr;
      base = base;
    })

  -- The steps of the waterfall.
  unfoldable pub gross_of : Amounts → Value
  gross_of a = minus (minus (plus a.revenue a.adjustments) a.charges) a.losses

  unfoldable pub net_of : Amounts → Value
  unfolding gross_of
  net_of a = minus (gross_of a) a.purification

  unfoldable pub investor_of : Amounts → Value
  unfolding net_of
  investor_of a = minus (net_of a) (plus (plus (plus a.bank_economic a.moudarib) a.per) a.irr)

  unfoldable pub conserved_of : Amounts → Value
  unfolding investor_of
  conserved_of a =
      let bank_total = plus a.bank_economic a.moudarib in
      plus (plus (plus (plus bank_total (investor_of a)) a.per) a.irr) a.purification

  -- `partialBackingRate`
  unfoldable pub partial_rate : Value → Option Text → Result (Option Value)
  unfolding positive_amount
  partial_rate gross none = ok none
  partial_rate gross (some base) = do
    parsed ← positive_amount base
    ok (some (divided_by gross parsed))

  unfoldable pub formatted_rate : ℕ → Option Value → Option Text
  formatted_rate scale none = none
  formatted_rate scale (some rate) = some (formatted rate scale)

  -- What is returned.
  unfoldable pub distributed : Text → ℕ → Amounts → Option Value → DistributablePoolProfitResult
  unfolding gross_of net_of investor_of conserved_of formatted_rate
  distributed pool_id scale a rate = record {
    pool_id = pool_id;
    gross_result = formatted (gross_of a) scale;
    purified_amount = formatted a.purification scale;
    net_distributable_profit = formatted (net_of a) scale;
    bank_economic_share = formatted a.bank_economic scale;
    moudarib_remuneration = formatted a.moudarib scale;
    bank_total_share = formatted (plus a.bank_economic a.moudarib) scale;
    investor_share = formatted (investor_of a) scale;
    per_allocation = formatted a.per scale;
    irr_allocation = formatted a.irr scale;
    pool_return_rate = formatted (divided_by (gross_of a) a.base) scale;
    partial_backing_return_rate = formatted_rate scale rate;
    conservation_difference = formatted (minus (gross_of a) (conserved_of a)) scale;
  }

  -- The checks of the waterfall.
  unfoldable pub waterfall :
      DistributablePoolProfitInput → ℕ → Amounts → Result DistributablePoolProfitResult
  unfolding gross_of net_of investor_of conserved_of partial_rate distributed
  waterfall input scale a = do
    throw_if (is_negative (gross_of a)) gross_negative
    throw_if (is_negative (net_of a)) purification_exceeds
    throw_if (is_negative (investor_of a)) allocations_exceed
    throw_if (not (is_zero (minus (gross_of a) (conserved_of a)))) waterfall_conservation
    rate ← partial_rate (gross_of a) input.partial_backing_base
    ok (distributed input.pool_id scale a rate)

  -- `calculateDistributablePoolProfit`
  unfoldable pub calculate_distributable_pool_profit :
      DistributablePoolProfitInput → Result DistributablePoolProfitResult
  calculate_distributable_pool_profit input = do
    throw_if (is_blank input.pool_id) pool_required
    scale ← checked_output_scale input.output_scale
    amounts ← read_amounts input
    waterfall input scale amounts
