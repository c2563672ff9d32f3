-- ===== src/Engine/Musharaka.antt =====
-- libs/engine/src/musharaka-allocation.ts: the results of a partnership, and the schedule of a
-- diminishing one (Moutanaqissa).
pub mod Split
pub mod Schedule
mod Tests
use pms_backend.Base.{
  ℕ, Bool, true, false, ◌&&◌, ◌||◌, not, Option, none, some, List, [], ◌∷◌, if◌then◌else◌,
}
use pms_backend.Base.Int.{ℤ, pos, negsuc, negate, ltb_ℤ, ◌+ℤ◌, ◌-ℤ◌}
use pms_backend.Fault.{
  Result, ok, err, ◌>>=◌, ◌>>◌, throw_if, ratios_total, passive_bank, passive_partner,
  musharaka_conservation, period_order, purchase_exceeds, ownership_total, not_acquired,
}
use pms_backend.Number.{Number, int, non_integer}
use pms_backend.Text.{Text}
use pms_backend.Loss.{LossCause, is_bank_liability_cause, is_zero}
use pms_backend.Engine.{
  Decimals, currency_scale, checked_output_scale, signed_units, units_to_decimal, positive, ratio,
}

pub data MusharakaPassivePartner : Type 0 where
  bank partner neither : MusharakaPassivePartner

pub record MusharakaAllocationInput : Type 0 where
  pub result : Text
  pub bank_capital : Text
  pub partner_capital : Text
  pub bank_profit_ratio : Text
  pub partner_profit_ratio : Text
  pub passive_partner : MusharakaPassivePartner
  pub loss_cause : Option LossCause
  pub currency_scale : Option Number

pub data ResultType : Type 0 where
  profit loss zero_result : ResultType

pub data AppliedRule : Type 0 where
  negotiated_profit_ratio capital_loss_ratio causal_bank_liability no_rule : AppliedRule

pub record MusharakaAllocationResult : Type 0 where
  pub result_type : ResultType
  pub bank_allocation : Text
  pub partner_allocation : Text
  pub bank_capital_ratio : Text
  pub partner_capital_ratio : Text
  pub applied_rule : AppliedRule
  pub conservation_difference : Text

pub record MoutanaqissaPurchase : Type 0 where
  pub period : Number
  pub bank_capital_purchased : Text

pub record MoutanaqissaScheduleInput : Type 0 where
  pub bank_capital : Text
  pub partner_capital : Text
  pub purchases : List MoutanaqissaPurchase
  pub maturity_reached : Bool
  pub output_scale : Option Number

pub record MoutanaqissaPeriod : Type 0 where
  pub period : ℤ
  pub bank_capital_purchased : Text
  pub remaining_bank_capital : Text
  pub partner_capital : Text
  pub bank_ownership_ratio : Text
  pub partner_ownership_ratio : Text
  pub ratio_total : Text

pub record MoutanaqissaScheduleResult : Type 0 where
  pub periods : List MoutanaqissaPeriod
  pub final_bank_capital : Text
  pub final_partner_capital : Text
  pub fully_acquired : Bool

-- `total > 0n ? 'PROFIT' : total < 0n ? 'LOSS' : 'ZERO'`
unfoldable pub result_type_of : ℤ → ResultType
result_type_of total =
    if ltb_ℤ (pos 0) total then profit else if ltb_ℤ total (pos 0) then loss else zero_result

-- The tests of `passivePartner`.
abbrev pub is_bank : MusharakaPassivePartner → Bool
is_bank bank = true
is_bank _ = false

abbrev pub is_partner : MusharakaPassivePartner → Bool
is_partner partner = true
is_partner _ = false

-- `input.lossCause !== undefined && isBankLiabilityCause(input.lossCause)`
unfoldable pub causal_bank_liability_of : Option LossCause → Bool
causal_bank_liability_of none = false
causal_bank_liability_of (some cause) = is_bank_liability_cause cause

-- `Number.isInteger(purchase.period) && purchase.period > previousPeriod`, as the period.
unfoldable pub next_period : ℤ → Number → Result ℤ
next_period previous non_integer = err period_order
next_period previous (int p) = if ltb_ℤ previous p then ok p else err period_order

module _ (d : Decimals) where
  open d use {
    Value, of_units, plus, minus, times, divided_by, equals, greater_than, at_least, floor_units,
    formatted,
  }

  -- The last part of `splitUnits`, behind the two floors.
  unfoldable pub with_residual : ℤ → Value → Value → ℤ → ℤ → ℤ × ℤ
  with_residual total exact_first exact_second first second =
      let residual = total -ℤ first -ℤ second in
      if ltb_ℤ (pos 0) residual
      then (if at_least (minus exact_first (of_units first)) (minus exact_second (of_units second))
          then (first +ℤ residual, second)
          else (first, second +ℤ residual))
      else (first, second)

  -- `splitUnits`
  unfoldable pub split_units : ℤ → Value → Value → Result (ℤ × ℤ)
  split_units total first_ratio second_ratio =
      let exact_first = times (of_units total) first_ratio in
      let exact_second = times (of_units total) second_ratio in
      do
        first ← floor_units exact_first
        second ← floor_units exact_second
        ok (with_residual total exact_first exact_second first second)

  -- `allocationResult`
  unfoldable pub allocation_result :
      ℤ → ℤ → ℤ → ℕ → Value → Value → AppliedRule → Result MusharakaAllocationResult
  allocation_result total bank_units partner_units scale bank_ratio partner_ratio rule =
      let difference = total -ℤ bank_units -ℤ partner_units in
      do
        throw_if (not (is_zero difference)) musharaka_conservation
        ok (record {
          result_type = result_type_of total;
          bank_allocation = units_to_decimal bank_units scale;
          partner_allocation = units_to_decimal partner_units scale;
          bank_capital_ratio = formatted bank_ratio 12;
          partner_capital_ratio = formatted partner_ratio 12;
          applied_rule = rule;
          conservation_difference = units_to_decimal difference scale;
        })

  -- The end of `allocateMusharakaResult`, from `if (resultUnits === 0n)` on: a profit goes by the
  -- profit ratios, a loss by the capital ratios or to the bank.
  unfoldable pub allocate_units :
      ℤ → ℕ → Option LossCause → Value → Value → Value → Value → Result MusharakaAllocationResult
  allocate_units units scale cause bank_capital partner_capital bank_profit partner_profit =
      if is_zero units
      then allocation_result (pos 0) (pos 0) (pos 0) scale bank_capital partner_capital no_rule
      else if ltb_ℤ (pos 0) units
      then (do
        (bank_units, partner_units) ← split_units units bank_profit partner_profit
        allocation_result units bank_units partner_units scale bank_capital partner_capital
            negotiated_profit_ratio)
      else if causal_bank_liability_of cause
      then allocation_result units units (pos 0) scale bank_capital partner_capital
          causal_bank_liability
      else (do
        (bank_loss, partner_loss) ← split_units (negate units) bank_capital partner_capital
        allocation_result units (negate bank_loss) (negate partner_loss) scale bank_capital
            partner_capital capital_loss_ratio)

  -- `allocateMusharakaResult`
  unfoldable pub allocate_musharaka_result :
      MusharakaAllocationInput → Result MusharakaAllocationResult
  allocate_musharaka_result input = do
    scale ← currency_scale input.currency_scale
    units ← signed_units input.result scale
    bank_capital ← positive d input.bank_capital
    partner_capital ← positive d input.partner_capital
    let total_capital = plus bank_capital partner_capital
    let bank_capital_ratio = divided_by bank_capital total_capital
    let partner_capital_ratio = divided_by partner_capital total_capital
    bank_profit ← ratio d input.bank_profit_ratio
    partner_profit ← ratio d input.partner_profit_ratio
    throw_if (not (equals (plus bank_profit partner_profit) (of_units (pos 1)))) ratios_total
    throw_if (is_bank input.passive_partner && greater_than bank_profit bank_capital_ratio)
        passive_bank
    throw_if (is_partner input.passive_partner && greater_than partner_profit partner_capital_ratio)
        passive_partner
    allocate_units units scale input.loss_cause bank_capital_ratio partner_capital_ratio bank_profit
        partner_profit

  -- The variables of `buildMoutanaqissaSchedule` that the closure changes.
  pub record Holding : Type 0 where
    pub bank_capital : Value
    pub partner_capital : Value
    pub previous_period : ℤ

  -- One call of the closure.
  unfoldable pub purchase_step :
      Value → ℕ → Holding → MoutanaqissaPurchase → Result (MoutanaqissaPeriod × Holding)
  unfolding next_period
  purchase_step initial_total scale holding purchase = do
    period ← next_period holding.previous_period purchase.period
    purchased ← positive d purchase.bank_capital_purchased
    throw_if (greater_than purchased holding.bank_capital) purchase_exceeds
    let bank_capital = minus holding.bank_capital purchased
    let partner_capital = plus holding.partner_capital purchased
    let bank_ratio = divided_by bank_capital initial_total
    let partner_ratio = divided_by partner_capital initial_total
    let total = plus bank_ratio partner_ratio
    throw_if (not (equals total (of_units (pos 1)))) ownership_total
    ok (
      record {
        period = period;
        bank_capital_purchased = formatted purchased scale;
        remaining_bank_capital = formatted bank_capital scale;
        partner_capital = formatted partner_capital scale;
        bank_ownership_ratio = formatted bank_ratio scale;
        partner_ownership_ratio = formatted partner_ratio scale;
        ratio_total = formatted total scale;
      },
      record {
        bank_capital = bank_capital;
        partner_capital = partner_capital;
        previous_period = period;
      },
    )

  -- `input.purchases.map(...)`
  unfoldable pub purchase_steps :
      Value → ℕ → Holding → List MoutanaqissaPurchase → Result (List MoutanaqissaPeriod × Holding)
  unfolding purchase_step
  purchase_steps total scale holding [] = ok ([], holding)
  purchase_steps total scale holding (purchase ∷ purchases) = do
    (period, next) ← purchase_step total scale holding purchase
    (periods, last) ← purchase_steps total scale next purchases
    ok (period ∷ periods, last)

  -- `buildMoutanaqissaSchedule`
  unfoldable pub build_moutanaqissa_schedule :
      MoutanaqissaScheduleInput → Result MoutanaqissaScheduleResult
  build_moutanaqissa_schedule input = do
    scale ← checked_output_scale input.output_scale
    bank_capital ← positive d input.bank_capital
    partner_capital ← positive d input.partner_capital
    (periods, last) ←
        purchase_steps (plus bank_capital partner_capital) scale
          (record {
            bank_capital = bank_capital;
            partner_capital = partner_capital;
            previous_period = pos 0;
          })
          input.purchases
    throw_if (input.maturity_reached && not (d.is_zero last.bank_capital)) not_acquired
    ok (record {
      periods = periods;
      final_bank_capital = formatted last.bank_capital scale;
      final_partner_capital = formatted last.partner_capital scale;
      fully_acquired = d.is_zero last.bank_capital;
    })
