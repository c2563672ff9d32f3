-- ===== src/Fault.antt =====
-- Errors as values. Each constructor is one `throw` of the source, named for its message; the
-- comment gives the JavaScript class and the message.
use pms_backend.Base.{ℕ, List, Bool, true, false, ◌≡◌, refl, ◌⊎◌, inl, inr}

pub data Fault : Type 0 where
  -- src/shared-kernel/money.ts
  money_currency money_scale money_not_canonical money_exceeds_scale money_incompatible : Fault
  -- proportional-allocation.ts
  no_weight duplicate_participant weight_not_canonical weight_exceeds_scale negative_weight
        zero_total_weight :
      Fault
  -- loss-classification.ts
  loss_scale loss_not_positive loss_not_canonical loss_exceeds_scale loss_conservation : Fault
  -- balanced-journal.ts, reconciliation.ts and accounting-lifecycle.ts
  too_few_lines ledger_account_code one_positive_side allocation_currency exact_scale : Fault
  journal_not_balanced : List ℕ → Fault
  source_required entity_required acknowledgement_transition : Fault
  -- reserve-movement.ts
  reserve_negative funding_not_positive release_not_negative pool_required opening_shares
        movement_shares shares_negative minimum_above_maximum approval_missing :
      Fault
  -- closing-workflow.ts
  cannot_advance unknown_step skipped_step quality_missing anomaly_refused correction_refused :
      Fault
  invalid_count closing_conflict closing_missing : Fault
  -- advance-closing-workflow.ts
  closing_not_uuid closing_actor_required idempotency_key_invalid : Fault
  -- batch-state.ts, exception-case.ts, sharia-review.ts
  batch_transition exception_transition exception_evidence risk_reference : Fault
  sharia_state reviewer_is_maker opinion_too_short approver_not_distinct justification_too_short
        evidence_not_uuid :
      Fault
  -- authorization.ts
  invalid_date : Fault
  -- dcr.ts and stress-scenario.ts
  capital_negative exposure_not_positive threshold_not_decimal threshold_scale : Fault
  stress_negative shock_count stress_bucket shock_range stressed_negative : Fault
  stress_run_not_uuid stress_source_invalid : Fault
  -- investment-account.ts
  account_state account_not_uuid customer_not_token product_code_invalid account_currency
        business_date closed_on_missing account_before_opening :
      Fault
  -- libs/engine/src: the shared readers of amounts and ratios
  engine_scale output_scale engine_not_canonical engine_exceeds_scale not_whole engine_negative
        engine_not_positive ratio_above_one :
      Fault
  -- musharaka-allocation.ts
  ratios_total passive_bank passive_partner musharaka_conservation : Fault
  period_order purchase_exceeds ownership_total not_acquired : Fault
  -- wakala-allocation.ts
  mandate_required waiver_exceeds waiver_undocumented wakala_conservation : Fault
  -- moudaraba-allocation.ts
  participants_required duplicate_id nisba_total irr_exceeds_share weights_required zero_weights
        keys_required keys_total missing_key unused_key moudaraba_conservation profit_conservation :
      Fault
  -- distributable-pool-profit.ts
  gross_negative purification_exceeds allocations_exceed waterfall_conservation : Fault
  -- weighted-participation-base.ts and profit-target-solver.ts
  account_required date_format date_invalid period_reversed observation_count observation_date
        participation_units_required adjustment_bounds :
      Fault
  -- outbox-relay.ts and audit-chain.ts
  batch_limit audit_hash_invalid audit_non_finite audit_unsupported audit_signature_empty : Fault

-- What a call gives back: a value, or the error that it throws.
pub data Result {ℓ} (T : Type ℓ) : Type ℓ where
  err : Fault → Result T
  ok : T → Result T

-- `if (test) throw fault`
abbrev pub throw_if : Bool → Fault → Result (Unit {0})
throw_if false fault = ok tt
throw_if true fault = err fault

-- A throw skips the rest of the block.
module _ {ℓ κ} {T : Type ℓ} {U : Type κ} where
  infixl 5 ◌>>=◌
  abbrev pub ◌>>=◌ : Result T → (T → Result U) → Result U
  err fault >>= rest = err fault
  ok value >>= rest = rest value

  -- A block that returns has returned at its first step.
  pub >>=_returns :
      (step : Result T) (rest : T → Result U) {u : U}
      → (step >>= rest) ≡ ok u
      → (value : T) × (step ≡ ok value) × (rest value ≡ ok u)
  >>=_returns (err fault) rest h = cc
  >>=_returns (ok value) rest h = (value, refl, h)

infixl 5 ◌>>◌
abbrev pub ◌>>◌ {κ} : {U : Type κ} → Result (Unit {0}) → Result U → Result U
check >> rest = check >>= λ _. rest

pub Result-cases {ℓ} :
    {T : Type ℓ} (r : Result T)
    → ((value : T) × (r ≡ ok value)) ⊎ ((fault : Fault) × (r ≡ err fault))
Result-cases (err fault) = inr (fault, refl)
Result-cases (ok value) = inl (value, refl)

-- A returned value is determined by the return.
pub ok_injective {ℓ} : {T : Type ℓ} {x y : T} → ok x ≡ ok y → x ≡ y
ok_injective h = cc
