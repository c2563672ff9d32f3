-- ===== src/Closing/Repository.antt =====
-- src/infrastructure/persistence/postgres-closing-workflow.repository.ts: the transaction around an
-- advance. The advisory lock and `FOR UPDATE` make the transactions of one closing run one after
-- another: an advance is one step on the two tables. A throw rolls the transaction back, so that an
-- error leaves the tables as they were.
use pms_backend.Base.{
  Bool, true, false, ◌&&◌, ◌||◌, not, Option, none, some, List, [], ◌∷◌, ◌++◌, ◌==◌, if◌then◌else◌,
}
use pms_backend.Fault.{Result, ok, err, ◌>>=◌, ◌>>◌, throw_if, closing_conflict, closing_missing}
use pms_backend.Text.{Text, text_eq}
use pms_backend.Closing.{
  ClosingStep, ClosingWorkflowStatus, ClosingQualityEvidence, ClosingTransitionResult, step_name,
  advance_closing_workflow,
}

-- `AdvanceClosingCommand`
pub record AdvanceClosingCommand : Type 0 where
  pub closing_id : Text
  pub target_step : ClosingStep
  pub actor_id : Text
  pub evidence : ClosingQualityEvidence
  pub idempotency_key : Text

-- A row of `workflow.closing_step_event`.
pub record ClosingStepEvent : Type 0 where
  pub closing_id : Text
  pub transition : ClosingTransitionResult
  pub actor_id : Text
  pub evidence : ClosingQualityEvidence
  pub idempotency_key : Text

-- The columns of `workflow.closing_period` that an advance reads or writes.
pub record ClosingPeriod : Type 0 where
  pub closing_id : Text
  pub current_step : ClosingStep
  pub workflow_status : ClosingWorkflowStatus

pub record Tables : Type 0 where
  pub periods : List ClosingPeriod
  pub events : List ClosingStepEvent

-- `evidence = $4::jsonb`: the two values have equal fields.
unfoldable pub texts_eq : List Text → List Text → Bool
texts_eq [] [] = true
texts_eq (a ∷ as') (b ∷ bs) = text_eq a b && texts_eq as' bs
texts_eq _ _ = false

unfoldable pub evidence_eq : ClosingQualityEvidence → ClosingQualityEvidence → Bool
unfolding texts_eq
evidence_eq e f =
    (if e.quality_controls_green then f.quality_controls_green else not f.quality_controls_green)
    && texts_eq e.blocking_anomaly_ids f.blocking_anomaly_ids
    && texts_eq e.accepted_risk_references f.accepted_risk_references

-- `WHERE closing_id = $1::uuid AND idempotency_key = $2`. A row holds the text of its UUID in lower
-- case, and `id` is what the cast makes of the text of the command (`with_uuid` in Execute).
unfoldable pub find_event : Text → Text → List ClosingStepEvent → Option ClosingStepEvent
find_event id key [] = none
find_event id key (e ∷ es) =
    if text_eq e.closing_id id && text_eq e.idempotency_key key
    then some e
    else find_event id key es

-- `WHERE closing_id = $1::uuid`, likewise.
unfoldable pub find_period : Text → List ClosingPeriod → Option ClosingPeriod
find_period id [] = none
find_period id (p ∷ ps) = if text_eq p.closing_id id then some p else find_period id ps

-- The rows that the `UPDATE` writes.
unfoldable pub update_period :
    Text → ClosingTransitionResult → List ClosingPeriod → List ClosingPeriod
update_period id r [] = []
update_period id r (p ∷ ps) =
    if text_eq p.closing_id id
    then record p { current_step = r.current_step; workflow_status = r.status }
      ∷ update_period id r ps
    else p ∷ update_period id r ps

-- The branch of a row that the key already has.
unfoldable pub replay : AdvanceClosingCommand → ClosingStepEvent → Result ClosingTransitionResult
unfolding evidence_eq
replay command event = do
  throw_if
      (not (step_name event.transition.current_step == step_name command.target_step)
        || not (text_eq event.actor_id command.actor_id)
        || not (evidence_eq event.evidence command.evidence))
      closing_conflict
  ok event.transition

abbrev pub required_period : Option ClosingPeriod → Result ClosingPeriod
required_period none = err closing_missing
required_period (some p) = ok p

-- The branch of a new key.
unfoldable pub apply_command :
    AdvanceClosingCommand → Tables → Result (Tables × ClosingTransitionResult)
unfolding find_period update_period
apply_command command tables = do
  row ← required_period (find_period command.closing_id tables.periods)
  result ←
      advance_closing_workflow
        (record {
          current_step = row.current_step;
          status = row.workflow_status;
          is_cancelled = false;
        })
        command.target_step command.evidence
  ok (
    record {
      periods = update_period command.closing_id result tables.periods;
      events =
          tables.events
          ++ (record {
            closing_id = command.closing_id;
            transition = result;
            actor_id = command.actor_id;
            evidence = command.evidence;
            idempotency_key = command.idempotency_key;
          }
              ∷ []);
    },
    result,
  )

unfoldable pub answer :
    AdvanceClosingCommand
    → Tables
    → Option ClosingStepEvent
    → Result (Tables × ClosingTransitionResult)
unfolding replay apply_command
answer command tables none = apply_command command tables
answer command tables (some event) = do result ← replay command event; ok (tables, result)

-- `advanceAtomically`
unfoldable pub advance_atomically :
    AdvanceClosingCommand → Tables → Result (Tables × ClosingTransitionResult)
unfolding find_event answer
advance_atomically command tables =
    answer command tables (find_event command.closing_id command.idempotency_key tables.events)
