-- ===== src/Closing.antt =====
-- src/modules/closing-workflow/domain/closing-workflow.ts: the nineteen steps of a monthly closing.
pub mod Controls
pub mod Runs
pub mod Repository
pub mod Execute
pub mod Replay
pub mod Consistency
mod Tests
use pms_backend.Base.{
  ℕ, ◌+◌, Bool, true, false, ◌&&◌, ◌||◌, not, Option, none, some, List, [], ◌∷◌, leb, ◌==◌,
  if◌then◌else◌, zero, suc, length, some_of,
}
use pms_backend.Fault.{
  Result, ok, err, ◌>>=◌, ◌>>◌, throw_if, cannot_advance, unknown_step, skipped_step,
  quality_missing, anomaly_refused, correction_refused,
}
use pms_backend.Text.{Text, includes, is_blank}

pub data ClosingStep : Type 0 where
  period_opening scope_freeze data_import quality_controls reconciliations asset_validation :
      ClosingStep
  provisional_calculation exception_handling reserve_dcr_simulations finance_validation :
      ClosingStep
  risk_alm_validation sharia_compliance_control delegated_approval run_locking : ClosingStep
  journal_generation core_banking_credit post_payment_reconciliation statement_production :
      ClosingStep
  evidence_archiving : ClosingStep

-- `CLOSING_STEPS`
abbrev pub closing_steps : List ClosingStep
closing_steps =
    period_opening ∷ scope_freeze ∷ data_import ∷ quality_controls ∷ reconciliations
    ∷ asset_validation ∷ provisional_calculation ∷ exception_handling ∷ reserve_dcr_simulations
    ∷ finance_validation ∷ risk_alm_validation ∷ sharia_compliance_control ∷ delegated_approval
    ∷ run_locking ∷ journal_generation ∷ core_banking_credit ∷ post_payment_reconciliation
    ∷ statement_production ∷ evidence_archiving ∷ []

pub data ClosingWorkflowStatus : Type 0 where
  draft fed anomaly reconciled calculated in_validation approved accounted paid closed cancelled :
      ClosingWorkflowStatus
  corrected_by_supplementary_run : ClosingWorkflowStatus

-- `cancelled` is false where the field is absent.
pub record ClosingWorkflowState : Type 0 where
  pub current_step : ClosingStep
  pub status : ClosingWorkflowStatus
  pub is_cancelled : Bool

pub record ClosingQualityEvidence : Type 0 where
  pub quality_controls_green : Bool
  pub blocking_anomaly_ids : List Text
  pub accepted_risk_references : List Text

pub record ClosingTransitionResult : Type 0 where
  pub current_step : ClosingStep
  pub status : ClosingWorkflowStatus
  pub step_number : ℕ
  pub previous_step : ClosingStep

-- `STATUS_BY_STEP`
abbrev pub status_by_step : List ClosingWorkflowStatus
status_by_step =
    draft ∷ draft ∷ fed ∷ fed ∷ reconciled ∷ reconciled ∷ calculated ∷ calculated ∷ calculated
    ∷ in_validation ∷ in_validation ∷ in_validation ∷ approved ∷ approved ∷ accounted ∷ paid ∷ paid
    ∷ paid ∷ closed ∷ []

-- A number for each name: two names are the same text when their numbers are equal.
abbrev pub step_name : ClosingStep → ℕ
step_name period_opening = 0
step_name scope_freeze = 1
step_name data_import = 2
step_name quality_controls = 3
step_name reconciliations = 4
step_name asset_validation = 5
step_name provisional_calculation = 6
step_name exception_handling = 7
step_name reserve_dcr_simulations = 8
step_name finance_validation = 9
step_name risk_alm_validation = 10
step_name sharia_compliance_control = 11
step_name delegated_approval = 12
step_name run_locking = 13
step_name journal_generation = 14
step_name core_banking_credit = 15
step_name post_payment_reconciliation = 16
step_name statement_production = 17
step_name evidence_archiving = 18

-- `steps.indexOf(step)`, with `none` for -1.
unfoldable pub index_from : ℕ → List ClosingStep → ClosingStep → Option ℕ
index_from i [] step = none
index_from i (s ∷ steps) step =
    let later = index_from (i + 1) steps step in
    if step_name s == step_name step then some i else later

unfoldable pub index_of : ClosingStep → Option ℕ
unfolding index_from
index_of = index_from 0 closing_steps

-- `STATUS_BY_STEP[target]`: the caller's index is in range.
abbrev pub status_at : List ClosingWorkflowStatus → ℕ → ClosingWorkflowStatus
status_at [] n = draft
status_at (s ∷ ss) zero = s
status_at (s ∷ ss) (suc n) = status_at ss n

abbrev pub is_closed : ClosingWorkflowStatus → Bool
is_closed closed = true
is_closed _ = false

abbrev pub is_finished : ClosingWorkflowStatus → Bool
is_finished closed = true
is_finished cancelled = true
is_finished _ = false

-- `assertQualityEvidence`
unfoldable pub assert_quality_evidence : ClosingQualityEvidence → Result (Unit {0})
assert_quality_evidence e =
    if e.quality_controls_green
    then ok tt
    else if length e.blocking_anomaly_ids == 0
    then ok tt
    else throw_if
        (some_of (λ id. is_blank id || not (includes e.accepted_risk_references id))
          e.blocking_anomaly_ids)
        quality_missing

-- `CLOSING_STEPS.indexOf(step)`, with the refusal of -1.
unfoldable pub known : Option ℕ → Result ℕ
known none = err unknown_step
known (some i) = ok i

abbrev pub known_index : ClosingStep → Result ℕ
known_index step = known (index_of step)

-- `advanceClosingWorkflow`
unfoldable pub advance_closing_workflow :
    ClosingWorkflowState → ClosingStep → ClosingQualityEvidence → Result ClosingTransitionResult
unfolding assert_quality_evidence known
advance_closing_workflow state target_step evidence = do
  throw_if (state.is_cancelled || is_finished state.status) cannot_advance
  current ← known_index state.current_step
  target ← known_index target_step
  throw_if (not (target == current + 1)) skipped_step
  gate ← known_index provisional_calculation
  if leb gate target then assert_quality_evidence evidence else ok tt
  ok (record {
    current_step = target_step;
    status = status_at status_by_step target;
    step_number = target + 1;
    previous_step = state.current_step;
  })

-- `markClosingAnomaly`
unfoldable pub mark_closing_anomaly : ClosingWorkflowState → Result ClosingWorkflowState
mark_closing_anomaly state =
    if is_finished state.status then err anomaly_refused else ok (record state { status = anomaly })

-- `markSupplementaryCorrection`
unfoldable pub mark_supplementary_correction : ClosingWorkflowState → Result ClosingWorkflowState
mark_supplementary_correction state =
    if is_closed state.status
    then ok (record state { status = corrected_by_supplementary_run })
    else err correction_refused
