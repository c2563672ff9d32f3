-- ===== src/Engine/Target.antt =====
-- libs/engine/src/profit-target-solver.ts: the lever that would reach a target rate.
pub mod Solved
use pms_backend.Base.{
  ℕ, Bool, true, false, ◌&&◌, ◌||◌, not, Option, none, some, List, [], ◌∷◌, if◌then◌else◌,
}
use pms_backend.Base.Int.{ℤ, pos}
use pms_backend.Fault.{Result, ok, err, ◌>>=◌, ◌>>◌, throw_if, adjustment_bounds}
use pms_backend.Number.{Number}
use pms_backend.Text.{Text}
use pms_backend.Engine.{Decimals, checked_output_scale, non_negative, signed, positive, ratio}

pub data ProfitTargetLever : Type 0 where
  distribution_key tanazul per irr : ProfitTargetLever

pub data SolverStatus : Type 0 where
  applicable next_period_or_tanazul governance_required out_of_range : SolverStatus

-- The entries of `governance` and of `alternatives`.
pub data Governance : Type 0 where
  contractual_key_cannot_increase_during_current_period document_tanazul report_to_sharia_committee
        alco_approval_required sharia_committee_approval_required :
      Governance

pub data Alternative : Type 0 where
  publish_key_for_next_period use_documented_tanazul : Alternative

pub record ProfitTargetSolverInput : Type 0 where
  pub backing_base : Text
  pub target_net_rate : Text
  pub current_investor_profit : Text
  pub distributable_profit_before_share : Text
  pub current_investor_key : Text
  pub available_bank_share_for_tanazul : Text
  pub per_minimum_adjustment : Text
  pub per_maximum_adjustment : Text
  pub irr_minimum_adjustment : Text
  pub irr_maximum_adjustment : Text
  pub lever : ProfitTargetLever
  pub output_scale : Option Number

pub record ProfitTargetSolverResult : Type 0 where
  pub lever : ProfitTargetLever
  pub status : SolverStatus
  pub required_value : Option Text
  pub required_profit_adjustment : Text
  pub target_investor_profit : Text
  pub achievable_net_rate_minimum : Text
  pub achievable_net_rate_maximum : Text
  pub governance : List Governance
  pub alternatives : List Alternative

-- `lever === 'PER' ? per : irr`, behind the branches of the two other levers.
abbrev pub by_lever {ℓ} : {T : Type ℓ} → ProfitTargetLever → T → T → T
by_lever per on_per on_irr = on_per
by_lever _ on_per on_irr = on_irr

module _ (d : Decimals) where
  open d use {
    Value, of_units, plus, minus, times, divided_by, greater_than, at_least, at_most, highest,
    is_negative, formatted,
  }

  -- The values that are read, and what follows from them.
  pub record Terms : Type 0 where
    pub scale : ℕ
    pub base : Value
    pub current_profit : Value
    pub distributable : Value
    pub current_key : Value
    pub bank_share : Value
    pub target_profit : Value

  unfoldable pub adjustment_of : Terms → Value
  adjustment_of t = minus t.target_profit t.current_profit

  unfoldable pub formatted_value : ℕ → Option Value → Option Text
  formatted_value scale none = none
  formatted_value scale (some value) = some (formatted value scale)

  -- `response`
  unfoldable pub response :
      ProfitTargetLever
      → SolverStatus
      → Option Value
      → Terms
      → Value
      → Value
      → List Governance
      → List Alternative
      → ProfitTargetSolverResult
  unfolding adjustment_of formatted_value
  response lever status required t minimum_profit maximum_profit governance alternatives = record {
    lever = lever;
    status = status;
    required_value = formatted_value t.scale required;
    required_profit_adjustment = formatted (adjustment_of t) t.scale;
    target_investor_profit = formatted t.target_profit t.scale;
    achievable_net_rate_minimum =
        formatted (divided_by (highest minimum_profit (of_units (pos 0))) t.base) t.scale;
    achievable_net_rate_maximum =
        formatted (divided_by (highest maximum_profit (of_units (pos 0))) t.base) t.scale;
    governance = governance;
    alternatives = alternatives;
  }

  -- The branch of `DISTRIBUTION_KEY`.
  unfoldable pub solve_key : Terms → ProfitTargetSolverResult
  solve_key t =
      let required = divided_by t.target_profit t.distributable in
      let zero_profit = of_units (pos 0) in
      if is_negative required || greater_than required (of_units (pos 1))
      then response distribution_key out_of_range none t zero_profit t.distributable [] []
      else if greater_than required t.current_key
      then response distribution_key next_period_or_tanazul (some required) t zero_profit
          t.distributable (contractual_key_cannot_increase_during_current_period ∷ [])
          (publish_key_for_next_period ∷ use_documented_tanazul ∷ [])
      else response distribution_key applicable (some required) t zero_profit t.distributable [] []

  -- `reachable`: the adjustment is between two bounds.
  unfoldable pub is_reachable : Value → Value → Value → Bool
  is_reachable minimum maximum adjustment =
      at_least adjustment minimum && at_most adjustment maximum

  -- The branch of `TANAZUL`.
  unfoldable pub solve_tanazul : Terms → ProfitTargetSolverResult
  solve_tanazul t =
      let reachable = is_reachable (of_units (pos 0)) t.bank_share (adjustment_of t) in
      response tanazul (if reachable then applicable else out_of_range)
        (if reachable then some (adjustment_of t) else none) t
        (plus t.current_profit (of_units (pos 0))) (plus t.current_profit t.bank_share)
        (document_tanazul ∷ report_to_sharia_committee ∷ []) []

  -- The branch of `PER` and `IRR`.
  unfoldable pub solve_reserve :
      ProfitTargetSolverInput → ProfitTargetLever → Terms → Result ProfitTargetSolverResult
  solve_reserve input lever t = do
    minimum ← signed d (by_lever lever input.per_minimum_adjustment input.irr_minimum_adjustment)
    maximum ← signed d (by_lever lever input.per_maximum_adjustment input.irr_maximum_adjustment)
    throw_if (greater_than minimum maximum) adjustment_bounds
    let reachable = is_reachable minimum maximum (adjustment_of t)
    ok (
        response lever (if reachable then governance_required else out_of_range)
          (if reachable then some (adjustment_of t) else none) t (plus t.current_profit minimum)
          (plus t.current_profit maximum)
          (alco_approval_required ∷ sharia_committee_approval_required ∷ []) [])

  unfoldable pub solve : ProfitTargetSolverInput → Terms → Result ProfitTargetSolverResult
  solve input t = elim input.lever [
    | distribution_key ↦ ok (solve_key t)
    | tanazul ↦ ok (solve_tanazul t)
    | per ↦ solve_reserve input per t
    | irr ↦ solve_reserve input irr t
  ]

  -- `solveProfitTarget`
  unfoldable pub solve_profit_target : ProfitTargetSolverInput → Result ProfitTargetSolverResult
  solve_profit_target input = do
    scale ← checked_output_scale input.output_scale
    base ← positive d input.backing_base
    target_rate ← non_negative d input.target_net_rate
    current_profit ← non_negative d input.current_investor_profit
    distributable ← positive d input.distributable_profit_before_share
    current_key ← ratio d input.current_investor_key
    bank_share ← non_negative d input.available_bank_share_for_tanazul
    solve input (record {
      scale = scale;
      base = base;
      current_profit = current_profit;
      distributable = distributable;
      current_key = current_key;
      bank_share = bank_share;
      target_profit = times base target_rate;
    })
