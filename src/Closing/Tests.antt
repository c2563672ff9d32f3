-- ===== src/Closing/Tests.antt =====
-- A closing at concrete inputs.
use pms_backend.Base.{
  Bool, subst, if◌then◌else◌, arith, ◌≡◌, refl, true, false, none, some, [], ◌∷◌, map, ℕ, ◌-◌, leb,
  ◌&&◌,
}
use pms_backend.Fault.{ok, err, skipped_step, closing_conflict, idempotency_key_invalid}
use pms_backend.Text.{Text, codes, text_eq, is_blank, includes, trim}
use pms_backend.Text.Uuid.{is_uuid, as_uuid}
use pms_backend.Closing.{
  period_opening, scope_freeze, data_import, draft, ClosingWorkflowState, ClosingQualityEvidence,
  ClosingTransitionResult, known, index_of, assert_quality_evidence, advance_closing_workflow,
}
use pms_backend.Closing.Runs.{
  Run, start, advanced, opened, state_after, Gated, Stands, run_invariant,
}
use pms_backend.Closing.Repository.{
  AdvanceClosingCommand, ClosingPeriod, Tables, find_event, find_period, update_period, answer,
  replay, apply_command, advance_atomically, evidence_eq, texts_eq,
}
use pms_backend.Closing.Execute.{execute, after_commands, Repeats}
use pms_backend.Closing.Replay.{execute-Repeats}
use pms_backend.Closing.Consistency.{Consistent, advance_atomically-Consistent}

unfoldable closing_run : Unit {0}
unfolding text_eq is_blank includes known index_of assert_quality_evidence advance_closing_workflow
    find_event find_period update_period evidence_eq texts_eq replay apply_command answer
    advance_atomically
closing_run = tt

abbrev green : ClosingQualityEvidence
green = record {
  quality_controls_green = true;
  blocking_anomaly_ids = [];
  accepted_risk_references = [];
}

abbrev to_freeze : ClosingTransitionResult
to_freeze = record {
  current_step = scope_freeze;
  status = draft;
  step_number = 2;
  previous_step = period_opening;
}

frozen : advance_closing_workflow opened scope_freeze green ≡ ok to_freeze
unfolding closing_run
frozen = refl

skip_refused : advance_closing_workflow opened data_import green ≡ err skipped_step
unfolding closing_run
skip_refused = refl

abbrev first_run : Run (green ∷ []) (state_after to_freeze)
first_run = advanced scope_freeze green to_freeze start frozen

run_invariant_example : Gated (green ∷ []) × Stands 1 (state_after to_freeze)
run_invariant_example = run_invariant first_run

abbrev command : AdvanceClosingCommand
command = record {
  closing_id = codes "c";
  target_step = scope_freeze;
  actor_id = codes "u";
  evidence = green;
  idempotency_key = codes "k";
}

abbrev row : ClosingPeriod
row = record { closing_id = codes "c"; current_step = period_opening; workflow_status = draft }

abbrev stands : ClosingPeriod → ClosingWorkflowState
stands p = record {
  current_step = p.current_step;
  status = p.workflow_status;
  is_cancelled = false;
}

abbrev before : Tables
before = record { periods = row ∷ []; events = [] }

abbrev after : Tables
after = record {
  periods =
      record { closing_id = codes "c"; current_step = scope_freeze; workflow_status = draft } ∷ [];
  events =
      record {
        closing_id = codes "c";
        transition = to_freeze;
        actor_id = codes "u";
        evidence = green;
        idempotency_key = codes "k";
      }
      ∷ [];
}

carried_out : advance_atomically command before ≡ ok (after, to_freeze)
unfolding closing_run
carried_out = refl

other_actor_refused :
    advance_atomically (record command { actor_id = codes "v" }) after ≡ err closing_conflict
unfolding closing_run
other_actor_refused = refl

only_row :
    (test : Bool) (p : ClosingPeriod)
    → (if test then some row else none) ≡ some p
    → opened ≡ stands p
only_row test p h = ground arith

before-Consistent : Consistent before
unfolding find_period
before-Consistent id p h = subst (Run []) (only_row (text_eq (codes "c") id) p h) start

advance_atomically-Consistent_example : Consistent after
advance_atomically-Consistent_example =
    advance_atomically-Consistent command before before-Consistent carried_out

-- A request over the check of its identifiers.
abbrev closing : Text
closing = codes "0b8f4c3e-1a2b-4c3d-9e4f-5a6b7c8d9e0f"

abbrev request : AdvanceClosingCommand
request = record {
  closing_id = closing;
  target_step = scope_freeze;
  actor_id = codes "u";
  evidence = green;
  idempotency_key = codes "freeze:2026-01-31";
}

abbrev spaced_request : AdvanceClosingCommand
spaced_request = record request {
  actor_id = codes " u";
  idempotency_key = codes "freeze:2026-01-31 ";
}

abbrev other_request : AdvanceClosingCommand
other_request = record request {
  target_step = data_import;
  idempotency_key = codes "import:2026-01-31";
}

abbrev requested : Tables
requested = record {
  periods =
      record { closing_id = closing; current_step = period_opening; workflow_status = draft } ∷ [];
  events = [];
}

abbrev answered : Tables
answered = record {
  periods =
      record { closing_id = closing; current_step = scope_freeze; workflow_status = draft } ∷ [];
  events =
      record {
        closing_id = closing;
        transition = to_freeze;
        actor_id = codes "u";
        evidence = green;
        idempotency_key = codes "freeze:2026-01-31";
      }
      ∷ [];
}

abbrev upper : ℕ → ℕ
upper c = if leb b'a' c && leb c b'z' then c - 32 else c

executed : execute request requested ≡ ok (answered, to_freeze)
unfolding execute closing_run is_uuid as_uuid trim
executed = refl

-- The identifier may come in capitals.
capitals_executed :
    execute (record request { closing_id = map upper request.closing_id }) requested
    ≡ ok (answered, to_freeze)
unfolding execute closing_run is_uuid as_uuid trim
capitals_executed = refl

short_key_refused :
    execute (record request { idempotency_key = codes "freeze" }) requested
    ≡ err idempotency_key_invalid
unfolding execute closing_run is_uuid as_uuid trim
short_key_refused = refl

request-Repeats : Repeats request spaced_request
unfolding trim
request-Repeats = record {
  same_closing = refl;
  same_step = refl;
  same_evidence = refl;
  same_actor = refl;
  same_key = refl;
}

execute-Repeats_example :
    execute spaced_request (after_commands (other_request ∷ []) answered)
    ≡ ok (after_commands (other_request ∷ []) answered, to_freeze)
execute-Repeats_example =
    execute-Repeats request requested executed (other_request ∷ []) spaced_request request-Repeats
