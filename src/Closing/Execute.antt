-- ===== src/Closing/Execute.antt =====
-- src/modules/closing-workflow/application/advance-closing-workflow.ts: the checks of a command.
use pms_backend.Base.{ℕ, ◌≡◌, Bool, ◌&&◌, ◌||◌, not, List, [], ◌∷◌, leb, ◌==◌, length, every}
use pms_backend.Fault.{
  Result, ok, err, ◌>>=◌, ◌>>◌, throw_if, closing_not_uuid, closing_actor_required,
  idempotency_key_invalid,
}
use pms_backend.Text.{Text, is_lower, is_upper, is_digit, is_blank, trim}
use pms_backend.Text.Uuid.{is_uuid, as_uuid}
use pms_backend.Closing.{ClosingTransitionResult}
use pms_backend.Closing.Repository.{AdvanceClosingCommand, Tables, advance_atomically}

abbrev is_safe : ℕ → Bool
is_safe c =
    is_upper c || is_lower c || is_digit c || c == b'.' || c == b'_' || c == b':' || c == b'-'

-- `/^[A-Za-z0-9._:-]{16,128}$/`
unfoldable pub is_idempotency_key : Text → Bool
is_idempotency_key s = leb 16 (length s) && leb (length s) 128 && every is_safe s

-- The command that `execute` passes on.
unfoldable pub checked_command : AdvanceClosingCommand → Result AdvanceClosingCommand
unfolding is_idempotency_key
checked_command command = do
  throw_if (not (is_uuid command.closing_id)) closing_not_uuid
  throw_if (is_blank command.actor_id) closing_actor_required
  throw_if (not (is_idempotency_key (trim command.idempotency_key))) idempotency_key_invalid
  ok (record command {
    actor_id = trim command.actor_id;
    idempotency_key = trim command.idempotency_key;
  })

-- The identifier of the closing as the statements read it, `$1::uuid`.
abbrev pub with_uuid : AdvanceClosingCommand → AdvanceClosingCommand
with_uuid command = record command { closing_id = as_uuid command.closing_id }

-- `execute`
unfoldable pub execute : AdvanceClosingCommand → Tables → Result (Tables × ClosingTransitionResult)
unfolding checked_command
execute command tables = do
  checked ← checked_command command
  advance_atomically (with_uuid checked) tables

-- The tables behind a request: an error leaves them as they were.
abbrev pub tables_of : Tables → Result (Tables × ClosingTransitionResult) → Tables
tables_of tables (ok (after, result)) = after
tables_of tables (err fault) = tables

unfoldable pub after_commands : List AdvanceClosingCommand → Tables → Tables
unfolding execute
after_commands [] tables = tables
after_commands (c ∷ commands) tables = after_commands commands (tables_of tables (execute c tables))

-- The same request, but for the space around the actor and the key.
pub record Repeats (command again : AdvanceClosingCommand) : Type 0 where
  pub same_closing : again.closing_id ≡ command.closing_id
  pub same_step : again.target_step ≡ command.target_step
  pub same_evidence : again.evidence ≡ command.evidence
  pub same_actor : trim again.actor_id ≡ trim command.actor_id
  pub same_key : trim again.idempotency_key ≡ trim command.idempotency_key
