-- ===== src/Closing/Replay.antt =====
-- Commands that are sent again.
use pms_backend.Base.{
  ◌≡◌, refl, ap, sym, subst, ◌∙◌, true, false, ◌⊎◌, inl, inr, Option, none, some, List, [], ◌∷◌,
  ◌++◌, arith,
}
use pms_backend.Fault.{Result, ok, err, >>=_returns, ok_injective}
use pms_backend.Text.{Text, text_eq_refl, is_blank}
use pms_backend.Closing.{
  ClosingWorkflowState, ClosingQualityEvidence, ClosingTransitionResult, step_name,
  advance_closing_workflow,
}
use pms_backend.Closing.Runs.{advance_closing_workflow_iff}
use pms_backend.Closing.Execute.{
  checked_command, with_uuid, execute, tables_of, after_commands, Repeats,
}
use pms_backend.Closing.Repository.{
  AdvanceClosingCommand, ClosingStepEvent, ClosingPeriod, Tables, texts_eq, evidence_eq, find_event,
  find_period, update_period, replay, required_period, apply_command, answer, advance_atomically,
}

texts_eq_refl : (a : List Text) → texts_eq a a ≡ true
unfolding texts_eq
texts_eq_refl [] = refl
texts_eq_refl (x ∷ xs) = ground (arith, text_eq_refl x, texts_eq_refl xs)

evidence_eq_refl : (e : ClosingQualityEvidence) → evidence_eq e e ≡ true
unfolding evidence_eq
evidence_eq_refl e =
    ground (arith, texts_eq_refl e.blocking_anomaly_ids, texts_eq_refl e.accepted_risk_references)

abbrev pub recorded : AdvanceClosingCommand → ClosingTransitionResult → ClosingStepEvent
recorded command result = record {
  closing_id = command.closing_id;
  transition = result;
  actor_id = command.actor_id;
  evidence = command.evidence;
  idempotency_key = command.idempotency_key;
}

replay-recorded :
    (command : AdvanceClosingCommand) (result : ClosingTransitionResult)
    → result.current_step ≡ command.target_step
    → replay command (recorded command result) ≡ ok result
unfolding replay
replay-recorded command result h =
    ground (arith, ap step_name h, text_eq_refl command.actor_id, evidence_eq_refl command.evidence)

find_event_new :
    (command : AdvanceClosingCommand) (result : ClosingTransitionResult)
    (events : List ClosingStepEvent)
    → find_event command.closing_id command.idempotency_key events ≡ none
    → find_event command.closing_id command.idempotency_key
        (events ++ (recorded command result ∷ []))
      ≡ some (recorded command result)
unfolding find_event
find_event_new command result [] h =
    ground (arith, text_eq_refl command.closing_id, text_eq_refl command.idempotency_key)
find_event_new command result (e ∷ es) h = ground (arith, find_event_new command result es)

abbrev pub tables_after : AdvanceClosingCommand → Tables → ClosingTransitionResult → Tables
tables_after command tables r = record {
  periods = update_period command.closing_id r tables.periods;
  events = tables.events ++ (recorded command r ∷ []);
}

required_found :
    (row : Option ClosingPeriod) {p : ClosingPeriod} → required_period row ≡ ok p → row ≡ some p
required_found none h = cc
required_found (some p) h = ap some (ok_injective h)

abbrev pub state_of : ClosingPeriod → ClosingWorkflowState
state_of p = record {
  current_step = p.current_step;
  status = p.workflow_status;
  is_cancelled = false;
}

-- What a new key does.
pub apply_parts :
    (command : AdvanceClosingCommand) (tables : Tables) {after : Tables}
    {r : ClosingTransitionResult}
    → apply_command command tables ≡ ok (after, r)
    → (p : ClosingPeriod) × (find_period command.closing_id tables.periods ≡ some p)
      × (advance_closing_workflow (state_of p) command.target_step command.evidence ≡ ok r)
      × (after ≡ tables_after command tables r)
unfolding apply_command
apply_parts command tables {after} {r} h =
    let (p, found, h1) =
      >>=_returns (required_period (find_period command.closing_id tables.periods)) _ h in
    let (r', moved, h2) =
      >>=_returns (advance_closing_workflow (state_of p) command.target_step command.evidence) _
        h1 in
    let both = ok_injective h2 in
    let same_result : r' ≡ r = ap (λ (x : Tables × ClosingTransitionResult). x.1) both in
    (
      p,
      required_found (find_period command.closing_id tables.periods) found,
      moved ∙ ap ok same_result,
      sym (ap (λ (x : Tables × ClosingTransitionResult). x.0) both)
          ∙ ap (tables_after command tables) same_result,
    )

pub answer_cases :
    (command : AdvanceClosingCommand) (tables : Tables) (o : Option ClosingStepEvent)
    {after : Tables} {r : ClosingTransitionResult}
    → answer command tables o ≡ ok (after, r)
    → ((e : ClosingStepEvent) × (o ≡ some e) × (replay command e ≡ ok r) × (after ≡ tables))
      ⊎ ((o ≡ none) × (apply_command command tables ≡ ok (after, r)))
unfolding answer
answer_cases command tables none h = inr (refl, h)
answer_cases command tables (some e) {after} {r} h =
    let (r', replayed, same) = >>=_returns (replay command e) _ h in
    let both = ok_injective same in
    inl (
      e,
      refl,
      replayed ∙ ap ok (ap (λ (x : Tables × ClosingTransitionResult). x.1) both),
      sym (ap (λ (x : Tables × ClosingTransitionResult). x.0) both),
    )

answer_recorded :
    (command : AdvanceClosingCommand) (tables : Tables) (e : ClosingStepEvent)
    {r : ClosingTransitionResult}
    → replay command e ≡ ok r
    → answer command tables (some e) ≡ ok (tables, r)
unfolding answer
answer_recorded command tables e {r} h = rw (h) refl

-- What a carried-out command leaves in the log.
advance_atomically_logged :
    (command : AdvanceClosingCommand) (tables : Tables) {after : Tables}
    {r : ClosingTransitionResult}
    → advance_atomically command tables ≡ ok (after, r)
    → (e : ClosingStepEvent) × (find_event command.closing_id command.idempotency_key after.events
        ≡ some e)
      × (replay command e ≡ ok r)
unfolding advance_atomically
advance_atomically_logged command tables {after} {r} h =
    let found_in = λ (t : Tables). find_event command.closing_id command.idempotency_key t.events in
    elim (answer_cases command tables (found_in tables) h) [
      | inl (e, found, replayed, unchanged) ↦ (e, ap found_in unchanged ∙ found, replayed)
      | inr (new, applied) ↦
          let (p, found, moved, done) = apply_parts command tables applied in
          let (_, _, _, shape) =
            (advance_closing_workflow_iff (state_of p) command.target_step command.evidence r).0
              moved in
          (
            recorded command r,
            ap found_in done ∙ find_event_new command r tables.events new,
            replay-recorded command r (ap (λ (u : ClosingTransitionResult). u.current_step) shape),
          )
    ]

find_event-append :
    (id key : Text) (events more : List ClosingStepEvent) {e : ClosingStepEvent}
    → find_event id key events ≡ some e
    → find_event id key (events ++ more) ≡ some e
unfolding find_event
find_event-append id key [] more h = cc
find_event-append id key (f ∷ events) more {e} h =
    ground (arith, find_event-append id key events more {e = e})

-- The log keeps what it holds.
module _ (id key : Text) (e : ClosingStepEvent) where
  abbrev Logged : Tables → Type 0
  Logged tables = find_event id key tables.events ≡ some e

  advance_atomically-Logged :
      (command : AdvanceClosingCommand) (tables : Tables) {after : Tables}
      {r : ClosingTransitionResult}
      → advance_atomically command tables ≡ ok (after, r)
      → Logged tables
      → Logged after
  unfolding advance_atomically
  advance_atomically-Logged command tables {after} {r} h held =
      elim (answer_cases command tables
        (find_event command.closing_id command.idempotency_key tables.events) h) [
          | inl (_, _, _, unchanged) ↦ subst Logged (sym unchanged) held
          | inr (_, applied) ↦
              let (_, _, _, done) = apply_parts command tables applied in
              subst Logged (sym done)
                (find_event-append id key tables.events (recorded command r ∷ []) held)
        ]

  tables_of-Logged :
      (tables : Tables) (o : Result (Tables × ClosingTransitionResult))
      → ((after : Tables) (r : ClosingTransitionResult) → o ≡ ok (after, r) → Logged after)
      → Logged tables
      → Logged (tables_of tables o)
  tables_of-Logged tables (ok (after, r)) kept held = kept after r refl
  tables_of-Logged tables (err fault) kept held = held

  execute-Logged :
      (command : AdvanceClosingCommand) (tables : Tables)
      → Logged tables
      → Logged (tables_of tables (execute command tables))
  unfolding execute
  execute-Logged command tables held =
      tables_of-Logged tables (execute command tables)
        (λ after r h.
          let (checked, _, advanced) = >>=_returns (checked_command command) _ h in
          advance_atomically-Logged (with_uuid checked) tables advanced held)
        held

  after_commands-Logged :
      (commands : List AdvanceClosingCommand) (tables : Tables)
      → Logged tables
      → Logged (after_commands commands tables)
  unfolding after_commands
  after_commands-Logged [] tables held = held
  after_commands-Logged (c ∷ commands) tables held =
      after_commands-Logged commands (tables_of tables (execute c tables))
        (execute-Logged c tables held)

checked_command-Repeats :
    (command again : AdvanceClosingCommand)
    → Repeats command again
    → checked_command again ≡ checked_command command
unfolding checked_command is_blank
checked_command-Repeats command again same = ground arith

-- A request that was carried out, and is sent again after any other requests, carried out or
-- refused, with any space around its actor and its key, is answered with its first result and
-- changes nothing.
pub execute-Repeats :
    (command : AdvanceClosingCommand) (tables : Tables) {after : Tables}
    {r : ClosingTransitionResult}
    → execute command tables ≡ ok (after, r)
    → (others : List AdvanceClosingCommand) (again : AdvanceClosingCommand) → Repeats command again
    → execute again (after_commands others after) ≡ ok (after_commands others after, r)
unfolding execute advance_atomically
execute-Repeats command tables {after} {r} h others again same =
    let (checked, passed, advanced) = >>=_returns (checked_command command) _ h in
    let asked = with_uuid checked in
    let (e, logged, replayed) = advance_atomically_logged asked tables advanced in
    let later = after_commands others after in
    let still =
      after_commands-Logged asked.closing_id asked.idempotency_key e others after logged in
    rw (checked_command-Repeats command again same, passed, still)
      (answer_recorded asked later e replayed)
