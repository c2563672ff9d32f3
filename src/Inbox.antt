-- ===== src/Inbox.antt =====
-- src/infrastructure/messaging/idempotent-consumer.ts over the table of
-- src/infrastructure/persistence/postgres-inbox.repository.ts. `clock_timestamp()` is a number of
-- microseconds, an argument. The table is a map by its primary key.
pub mod Runs
pub mod Once
pub mod Handling
mod Tests
use pms_backend.Base.{ℕ, ◌+◌, Bool, true, false, ◌&&◌, Option, none, some, ltb, if◌then◌else◌}
use pms_backend.Fault.{Fault, Result, ok, err}
use pms_backend.Text.{Text, text_eq}

-- The fields of `OutboxMessage` that the inbox reads.
pub record OutboxMessage : Type 0 where
  pub event_id : Text
  pub event_type : Text
  pub correlation_id : Text

-- A row of `integration.inbox_message`.
pub record InboxMessage : Type 0 where
  pub event_type : Text
  pub correlation_id : Text
  pub processing_started_at : ℕ
  pub processing_attempts : ℕ
  pub processed_at : Option ℕ
  pub result_checksum : Option Text

-- By `consumer_name` and `message_id`.
abbrev pub InboxTable : Type 0
InboxTable = Text → Text → Option InboxMessage

unfoldable pub is_at : Text → Text → Text → Text → Bool
is_at consumer id c k = text_eq consumer c && text_eq id k

-- The table with one entry written.
unfoldable pub put : Text → Text → Option InboxMessage → InboxTable → InboxTable
put consumer id row table c k = if is_at consumer id c k then row else table c k

-- `interval '5 minutes'`
abbrev pub lease : ℕ
lease = 300000000

-- The `WHERE` of the conflict: not processed, and started more than five minutes ago.
unfoldable pub is_expired : ℕ → InboxMessage → Bool
is_expired now row = elim row.processed_at [
  | some _ ↦ false
  | none ↦ ltb (row.processing_started_at + lease) now
]

-- The row that `begin` inserts.
unfoldable pub first_attempt : ℕ → OutboxMessage → InboxMessage
first_attempt now message = record {
  event_type = message.event_type;
  correlation_id = message.correlation_id;
  processing_started_at = now;
  processing_attempts = 1;
  processed_at = none;
  result_checksum = none;
}

-- The row after the `DO UPDATE` of `begin`.
unfoldable pub next_attempt : ℕ → InboxMessage → InboxMessage
next_attempt now row = record row {
  processing_started_at = now;
  processing_attempts = row.processing_attempts + 1;
}

-- `begin` on the row of the key: what it returns, and the row behind it.
unfoldable pub begin_row : ℕ → OutboxMessage → Option InboxMessage → Bool × Option InboxMessage
unfolding is_expired first_attempt next_attempt
begin_row now message none = (true, some (first_attempt now message))
begin_row now message (some row) =
    if is_expired now row then (true, some (next_attempt now row)) else (false, some row)

-- `begin`
unfoldable pub begin : ℕ → Text → OutboxMessage → InboxTable → Bool × InboxTable
unfolding begin_row
begin now consumer message table =
    let (acquired, row) = begin_row now message (table consumer message.event_id) in
    (acquired, put consumer message.event_id row table)

unfoldable pub completed : ℕ → Option Text → Option InboxMessage → Option InboxMessage
completed now checksum none = none
completed now checksum (some row) =
    some (record row { processed_at = some now; result_checksum = checksum })

-- `complete`
unfoldable pub complete : ℕ → Text → Text → Option Text → InboxTable → InboxTable
unfolding completed
complete now consumer id checksum table =
    put consumer id (completed now checksum (table consumer id)) table

-- `DELETE … WHERE processed_at IS NULL`
unfoldable pub kept : Option InboxMessage → Option InboxMessage
kept none = none
kept (some row) = elim row.processed_at [ none ↦ none | some _ ↦ some row ]

-- `abandon`
unfoldable pub abandon : Text → Text → InboxTable → InboxTable
unfolding kept
abandon consumer id table = put consumer id (kept (table consumer id)) table

pub data Handled : Type 0 where
  processed duplicate : Handled

-- `handle`, with what the effect gives: a checksum or an error. No statement fails; the effect ends
-- at the clock `later`.
unfoldable pub handle :
    ℕ → ℕ → Text → OutboxMessage → Result (Option Text) → InboxTable → Result Handled × InboxTable
handle now later consumer message effect table =
    let (acquired, started) = begin now consumer message table in
    if acquired
    then elim effect [
      | ok checksum ↦ (ok processed, complete later consumer message.event_id checksum started)
      | err fault ↦ (err fault, abandon consumer message.event_id started)
    ]
    else (ok duplicate, started)
