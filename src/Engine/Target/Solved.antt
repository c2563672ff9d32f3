-- ===== src/Engine/Target/Solved.antt =====
-- What `solveProfitTarget` answers for each lever.
use pms_backend.Base.{
  ◌≡◌, ◌↔◌, ◌≢◌, ◌⊎◌, List, refl, subst, Bool, true, false, ◌&&◌, ◌||◌, none, some, [], ◌∷◌, arith,
  if◌then◌else◌,
}
use pms_backend.Base.Int.{pos}
use pms_backend.Fault.{ok, throw_if, >>=_returns, ok_injective, adjustment_bounds}
use pms_backend.Text.{Text}
use pms_backend.Money.Amounts.{not_thrown}
use pms_backend.Engine.{Decimals, checked_output_scale, non_negative, signed, positive, ratio}
use pms_backend.Engine.Target.{
  ProfitTargetLever, SolverStatus, Governance, distribution_key, tanazul, per, irr, applicable,
  next_period_or_tanazul, governance_required, out_of_range, alco_approval_required,
  sharia_committee_approval_required, document_tanazul, report_to_sharia_committee,
  ProfitTargetSolverInput, ProfitTargetSolverResult, by_lever, Terms, adjustment_of, response,
  solve_key, is_reachable, solve_tanazul, solve_reserve, solve, solve_profit_target,
  formatted_value,
}

both : (a b : Bool) → (a && b) ≡ true → (a ≡ true) × (b ≡ true)
both a b h = ground arith

no_greater : (a b : Bool) → (a || b) ≡ false → b ≡ false
no_greater a b h = ground arith

-- A value is proposed exactly if the target is in range.
abbrev pub Valued : ProfitTargetSolverResult → Type 0
Valued r = (r.status ≡ out_of_range) ↔ (r.required_value ≡ none)

module _ (d : Decimals) where
  open d use {Value, of_units, minus, times, divided_by, greater_than, at_least, at_most, formatted}

  -- What the investors' profit lacks of the target stands between two bounds.
  abbrev pub InBounds : Terms d → Value → Value → Type 0
  InBounds t low high =
      let adjustment = minus t.target_profit t.current_profit in
      (at_least adjustment low ≡ true) × (at_most adjustment high ≡ true)

  -- The adjustment is proposed with a status exactly if it stands between the bounds; it is out of
  -- range otherwise.
  abbrev pub Proposed : SolverStatus → Terms d → Value → Value → ProfitTargetSolverResult → Type 0
  Proposed status t low high r =
      ((r.status ≡ status) ↔ InBounds t low high)
      × ((r.status ≡ status) ⊎ (r.status ≡ out_of_range))
      × (InBounds t low high
          → r.required_value ≡ some (formatted (minus t.target_profit t.current_profit) t.scale))

  -- A key that a contract can have: from 0 to 1.
  abbrev pub IsKey : Value → Type 0
  IsKey key = (d.is_negative key ≡ false) × (greater_than key (of_units (pos 1)) ≡ false)

  -- What an answer says of the reserve with a given reading of its two bounds.
  abbrev pub ByReserve : Text → Text → Terms d → ProfitTargetSolverResult → Type 0
  ByReserve minimum maximum t r =
      (r.governance ≡ alco_approval_required ∷ sharia_committee_approval_required ∷ [])
      × (low : Value) × (high : Value) × (signed d minimum ≡ ok low)
      × (signed d maximum ≡ ok high)
      × (greater_than low high ≡ false)
      × Proposed governance_required t low high r

  -- The answer for a lever: which status, exactly when, and with which value.
  abbrev pub Answers :
      ProfitTargetSolverInput → ProfitTargetLever → Terms d → ProfitTargetSolverResult → Type 0
  Answers input distribution_key t r =
      let required = divided_by t.target_profit t.distributable in
      ((r.status ≡ applicable) ↔ (IsKey required × (greater_than required t.current_key ≡ false)))
      × ((r.status ≡ next_period_or_tanazul)
          ↔ (IsKey required × (greater_than required t.current_key ≡ true)))
      × (r.status ≢ governance_required)
      × (IsKey required → r.required_value ≡ some (formatted required t.scale))
  Answers input tanazul t r =
      Proposed applicable t (of_units (pos 0)) t.bank_share r
      × (r.governance ≡ document_tanazul ∷ report_to_sharia_committee ∷ [])
  Answers input per t r = ByReserve input.per_minimum_adjustment input.per_maximum_adjustment t r
  Answers input irr t r = ByReserve input.irr_minimum_adjustment input.irr_maximum_adjustment t r

  solve_key-Answers :
      (input : ProfitTargetSolverInput) (t : Terms d)
      → Answers input distribution_key t (solve_key d t) × Valued (solve_key d t)
  unfolding solve_key response formatted_value
  solve_key-Answers input t = ground arith

  response-Proposed :
      (lever : ProfitTargetLever) (status : SolverStatus) (t : Terms d) (low high : Value)
      (minimum_profit maximum_profit : Value) (governance : List Governance)
      → status ≢ out_of_range
      → let reachable = is_reachable d low high (adjustment_of d t) in
        let r =
          response d lever
            (if reachable then status else out_of_range)
            (if reachable then some (adjustment_of d t) else none)
            t
            minimum_profit
            maximum_profit
            governance
            [] in
        Proposed status t low high r × Valued r
  unfolding adjustment_of response is_reachable formatted_value
  response-Proposed lever status t low high minimum_profit maximum_profit governance other =
      ground arith

  solve_tanazul-Answers :
      (input : ProfitTargetSolverInput) (t : Terms d)
      → Answers input tanazul t (solve_tanazul d t) × Valued (solve_tanazul d t)
  unfolding solve_tanazul response
  solve_tanazul-Answers input t =
      let (proposed, valued) =
        response-Proposed tanazul applicable t (of_units (pos 0)) t.bank_share
          (d.plus t.current_profit (of_units (pos 0))) (d.plus t.current_profit t.bank_share)
          (document_tanazul ∷ report_to_sharia_committee ∷ []) (λ h. absurd (cc h)) in
      ((proposed, refl), valued)

  lever_key : (t : Terms d) → (solve_key d t).lever ≡ distribution_key
  unfolding solve_key response
  lever_key t = ground arith

  lever_tanazul : (t : Terms d) → (solve_tanazul d t).lever ≡ tanazul
  unfolding solve_tanazul response
  lever_tanazul t = refl

  solve_reserve-Answers :
      (input : ProfitTargetSolverInput) (lever : ProfitTargetLever) (t : Terms d)
      (r : ProfitTargetSolverResult)
      → solve_reserve d input lever t ≡ ok r
      → ByReserve
          (by_lever lever input.per_minimum_adjustment input.irr_minimum_adjustment)
          (by_lever lever input.per_maximum_adjustment input.irr_maximum_adjustment)
          t
          r
        × Valued r
        × (r.lever ≡ lever)
  unfolding solve_reserve response
  solve_reserve-Answers input lever t r h =
      let minimum = by_lever lever input.per_minimum_adjustment input.irr_minimum_adjustment in
      let maximum = by_lever lever input.per_maximum_adjustment input.irr_maximum_adjustment in
      let (low, el, h1) = >>=_returns (signed d minimum) _ h in
      let (high, eh, h2) = >>=_returns (signed d maximum) _ h1 in
      let (_, bounds, h3) = >>=_returns (throw_if (greater_than low high) adjustment_bounds) _ h2 in
      let (proposed, valued) =
        response-Proposed lever governance_required t low high (d.plus t.current_profit low)
          (d.plus t.current_profit high)
          (alco_approval_required ∷ sharia_committee_approval_required ∷ []) (λ e. absurd (cc e)) in
      subst (λ q. ByReserve minimum maximum t q × Valued q × (q.lever ≡ lever)) (ok_injective h3)
        ((refl, low, high, el, eh, not_thrown _ adjustment_bounds bounds, proposed), valued, refl)

  abbrev Solution :
      ProfitTargetSolverInput → ProfitTargetLever → Terms d → ProfitTargetSolverResult → Type 0
  Solution input lever t r = Answers input lever t r × Valued r × (r.lever ≡ lever)

  solve-Solution :
      (input : ProfitTargetSolverInput) (lever : ProfitTargetLever) (t : Terms d)
      (r : ProfitTargetSolverResult)
      → (elim lever [
        | distribution_key ↦ ok (solve_key d t)
        | tanazul ↦ ok (solve_tanazul d t)
        | per ↦ solve_reserve d input per t
        | irr ↦ solve_reserve d input irr t
      ])
        ≡ ok r
      → Solution input lever t r
  solve-Solution input distribution_key t r h =
      let (answers, valued) = solve_key-Answers input t in
      subst (Solution input distribution_key t) (ok_injective h) (answers, valued, lever_key t)
  solve-Solution input tanazul t r h =
      let (answers, valued) = solve_tanazul-Answers input t in
      subst (Solution input tanazul t) (ok_injective h) (answers, valued, lever_tanazul t)
  solve-Solution input per t r h = solve_reserve-Answers input per t r h
  solve-Solution input irr t r h = solve_reserve-Answers input irr t r h

  -- The terms are what the texts of the input spell.
  pub record TermsRead (input : ProfitTargetSolverInput) (t : Terms d) : Type 0 where
    pub scale_read : checked_output_scale input.output_scale ≡ ok t.scale
    pub base_read : positive d input.backing_base ≡ ok t.base
    pub profit_read : non_negative d input.current_investor_profit ≡ ok t.current_profit
    pub distributable_read : positive d input.distributable_profit_before_share ≡ ok t.distributable
    pub key_read : ratio d input.current_investor_key ≡ ok t.current_key
    pub bank_share_read : non_negative d input.available_bank_share_for_tanazul ≡ ok t.bank_share

  -- A target that is solved is answered for the lever that was asked. A distribution key is applicable
  -- exactly if it is from 0 to 1 and not above the current one, waits for the next period exactly if
  -- it is from 0 to 1 and above the current one, and is out of range otherwise. A waiver (Tanazul) is
  -- applicable exactly if it is between 0 and the bank's share; an adjustment of a reserve asks for
  -- both approvals exactly if it is within its bounds; both are out of range otherwise. The value that
  -- would reach the target is printed exactly if it is in range.
  pub solve_profit_target-Answers :
      (input : ProfitTargetSolverInput) (r : ProfitTargetSolverResult)
      → solve_profit_target d input ≡ ok r
      → (t : Terms d) × (rate : Value) × (non_negative d input.target_net_rate ≡ ok rate)
        × (t.target_profit ≡ times t.base rate)
        × TermsRead input t
        × Answers input input.lever t r
        × Valued r
        × (r.lever ≡ input.lever)
  unfolding solve_profit_target solve
  solve_profit_target-Answers input r h =
      let (scale, es, h1) = >>=_returns (checked_output_scale input.output_scale) _ h in
      let (base, eb, h2) = >>=_returns (positive d input.backing_base) _ h1 in
      let (rate, er, h3) = >>=_returns (non_negative d input.target_net_rate) _ h2 in
      let (profit, ep, h4) = >>=_returns (non_negative d input.current_investor_profit) _ h3 in
      let (distributable, ed, h5) =
        >>=_returns (positive d input.distributable_profit_before_share) _ h4 in
      let (key, ek, h6) = >>=_returns (ratio d input.current_investor_key) _ h5 in
      let (bank_share, ew, h7) =
        >>=_returns (non_negative d input.available_bank_share_for_tanazul) _ h6 in
      let t : Terms d = record {
        scale = scale;
        base = base;
        current_profit = profit;
        distributable = distributable;
        current_key = key;
        bank_share = bank_share;
        target_profit = times base rate;
      } in
      let (answers, valued, lever) = solve-Solution input input.lever t r h7 in
      (
        t,
        rate,
        er,
        refl,
        record {
          scale_read = es;
          base_read = eb;
          profit_read = ep;
          distributable_read = ed;
          key_read = ek;
          bank_share_read = ew;
        },
        answers,
        valued,
        lever,
      )
