-- ===== src/Outbox.antt =====
-- src/infrastructure/persistence/postgres-outbox.repository.ts and the relay over it,
-- src/infrastructure/messaging/outbox-relay.ts. A time is a number of milliseconds; the statements
-- are functions on the table, each one a step of its own.
pub mod Leases
pub mod Held
pub mod Relay
mod Tests
use pms_backend.Base.{
  ℕ, zero, suc, ◌+◌, ◌*◌, ◌^◌, min, Bool, true, false, ◌&&◌, ◌||◌, not, Option, none, some, List,
  [], ◌∷◌, map, take, leb, ltb, ◌==◌, if◌then◌else◌,
}
use pms_backend.Base.Int.{pos, negsuc}
use pms_backend.Fault.{Result, ok, err, ◌>>=◌, ◌>>◌, throw_if, batch_limit}
use pms_backend.Number.{Number, int, non_integer}
use pms_backend.Text.{Text, codes, text_eq, includes}

-- The columns of `integration.outbox_event` that the statements read or write, and the type of the
-- event; the other columns only travel with the row.
pub record OutboxEvent : Type 0 where
  pub event_id : Text
  pub event_type : Text
  pub available_at : ℕ
  pub created_at : ℕ
  pub publish_attempts : ℕ
  pub published_at : Option ℕ
  pub locked_by : Option Text
  pub locked_until : Option ℕ
  pub last_error : Option Text

abbrev pub ids_of : List OutboxEvent → List Text
ids_of events = map (λ (e : OutboxEvent). e.event_id) events

abbrev pub is_unset : Option ℕ → Bool
is_unset none = true
is_unset (some _) = false

-- `locked_until IS NULL OR locked_until < $1`
abbrev pub lease_passed : Option ℕ → ℕ → Bool
lease_passed none now = true
lease_passed (some until) now = ltb until now

-- The `WHERE` of the candidates.
unfoldable pub is_pending : ℕ → OutboxEvent → Bool
is_pending now e =
    is_unset e.published_at && (leb e.available_at now && lease_passed e.locked_until now)

unfoldable pub pending : ℕ → List OutboxEvent → List OutboxEvent
pending now [] = []
pending now (e ∷ events) =
    let rest = pending now events in if is_pending now e then e ∷ rest else rest

-- `ORDER BY available_at, created_at`
unfoldable pub goes_first : OutboxEvent → OutboxEvent → Bool
goes_first a b =
    ltb a.available_at b.available_at
    || (a.available_at == b.available_at && ltb a.created_at b.created_at)

unfoldable pub insert_ordered : OutboxEvent → List OutboxEvent → List OutboxEvent
unfolding goes_first
insert_ordered e [] = e ∷ []
insert_ordered e (f ∷ events) =
    let rest = insert_ordered e events in if goes_first f e then f ∷ rest else e ∷ f ∷ events

unfoldable pub ordered : List OutboxEvent → List OutboxEvent
unfolding insert_ordered
ordered [] = []
ordered (e ∷ events) = insert_ordered e (ordered events)

-- The candidates: `LIMIT $2`. A claim is one step, so that no row is locked by another claim that is
-- under way, and `FOR UPDATE SKIP LOCKED` skips none.
unfoldable pub candidates : ℕ → ℕ → List OutboxEvent → List Text
unfolding pending ordered
candidates limit now events = ids_of (take limit (ordered (pending now events)))

-- The row that the `UPDATE` writes.
unfoldable pub locked : Text → ℕ → ℕ → OutboxEvent → OutboxEvent
locked worker lease now e = record e {
  locked_by = some worker;
  locked_until = some (now + lease * 1000);
}

unfoldable pub lock_all : Text → ℕ → ℕ → List Text → List OutboxEvent → List OutboxEvent
unfolding locked
lock_all worker lease now ids [] = []
lock_all worker lease now ids (e ∷ events) =
    let rest = lock_all worker lease now ids events in
    if includes ids e.event_id then locked worker lease now e ∷ rest else e ∷ rest

-- `RETURNING event.*`; SQL leaves their order open.
unfoldable pub returned : Text → ℕ → ℕ → List Text → List OutboxEvent → List OutboxEvent
unfolding locked
returned worker lease now ids [] = []
returned worker lease now ids (e ∷ events) =
    let rest = returned worker lease now ids events in
    if includes ids e.event_id then locked worker lease now e ∷ rest else rest

-- `claimPending`
unfoldable pub claim_pending :
    Text → ℕ → ℕ → ℕ → List OutboxEvent → List OutboxEvent × List OutboxEvent
unfolding candidates lock_all returned
claim_pending worker lease limit now events =
    let ids = candidates limit now events in
    (returned worker lease now ids events, lock_all worker lease now ids events)

-- `WHERE event_id = $1::uuid AND locked_by = $3`
abbrev pub is_owner : Option Text → Text → Bool
is_owner none worker = false
is_owner (some owner) worker = text_eq owner worker

unfoldable pub is_owned : Text → Text → OutboxEvent → Bool
is_owned worker id e = text_eq id e.event_id && is_owner e.locked_by worker

-- The rows that `markPublished` and `markFailed` write.
unfoldable pub published_row : ℕ → OutboxEvent → OutboxEvent
published_row at e = record e {
  published_at = some at;
  locked_by = none;
  locked_until = none;
  last_error = none;
}

unfoldable pub failed_row : ℕ → Text → OutboxEvent → OutboxEvent
failed_row next_attempt reason e = record e {
  available_at = next_attempt;
  publish_attempts = e.publish_attempts + 1;
  last_error = some reason;
  locked_by = none;
  locked_until = none;
}

-- `markPublished`
unfoldable pub mark_published : Text → Text → ℕ → List OutboxEvent → List OutboxEvent
unfolding is_owned published_row
mark_published worker id at events =
    map (λ e. if is_owned worker id e then published_row at e else e) events

-- `markFailed`
unfoldable pub mark_failed : Text → Text → ℕ → Text → List OutboxEvent → List OutboxEvent
unfolding is_owned failed_row
mark_failed worker id next_attempt reason events =
    map (λ e. if is_owned worker id e then failed_row next_attempt reason e else e) events

-- The statements that a worker runs, each with the time or the text that it is given.
pub data Statement : Type 0 where
  claim : Text → ℕ → ℕ → ℕ → Statement
  publication : Text → Text → ℕ → Statement
  failure : Text → Text → ℕ → Text → Statement

unfoldable pub run_statement : Statement → List OutboxEvent → List OutboxEvent
unfolding claim_pending mark_published mark_failed
run_statement (claim worker lease limit now) events =
    let (_, table) = claim_pending worker lease limit now events in table
run_statement (publication worker id at) events = mark_published worker id at events
run_statement (failure worker id next_attempt reason) events =
    mark_failed worker id next_attempt reason events

-- Statements in the order in which the database runs them.
unfoldable pub run_statements : List Statement → List OutboxEvent → List OutboxEvent
unfolding run_statement
run_statements [] events = events
run_statements (s ∷ statements) events = run_statements statements (run_statement s events)

-- What `publish` comes to: a confirmation, an `Error` with its message, or another thrown value.
pub data PublishOutcome : Type 0 where
  confirmed : PublishOutcome
  error : Text → PublishOutcome
  other_value : PublishOutcome

-- `safeErrorMessage`
unfoldable pub safe_error_message : PublishOutcome → Text
safe_error_message (error message) = take 500 message
safe_error_message _ = codes "Unknown publish error"

-- `retryAt`
unfoldable pub retry_at : ℕ → ℕ → OutboxEvent → ℕ
retry_at now base e = now + min (base * 2 ^ min e.publish_attempts 10) 3600 * 1000

pub record RelayResult : Type 0 where
  pub published : List Text
  pub failed : List Text

-- A relay: its worker, its lease and its retry base in seconds, and what the publisher answers.
pub record OutboxRelay : Type 0 where
  pub worker_id : Text
  pub lease_seconds : ℕ
  pub retry_base_seconds : ℕ
  pub publish : OutboxEvent → PublishOutcome

abbrev pub is_confirmed : PublishOutcome → Bool
is_confirmed confirmed = true
is_confirmed _ = false

-- The table after one round of the loop.
unfoldable pub relay_one : OutboxRelay → ℕ → OutboxEvent → List OutboxEvent → List OutboxEvent
unfolding mark_published mark_failed retry_at safe_error_message
relay_one relay now record_ events =
    if is_confirmed (relay.publish record_)
    then mark_published relay.worker_id record_.event_id now events
    else mark_failed relay.worker_id record_.event_id
        (retry_at now relay.retry_base_seconds record_) (safe_error_message (relay.publish record_))
        events

-- The loop of `runBatch`: `others` are the statements that other workers run before each round has
-- its answer.
unfoldable pub relay_all :
    OutboxRelay
    → ℕ
    → (ℕ → List Statement)
    → List OutboxEvent
    → List OutboxEvent
    → RelayResult × List OutboxEvent
unfolding relay_one run_statements
relay_all relay now others [] events = (record { published = []; failed = [] }, events)
relay_all relay now others (r ∷ records) events =
    let table = run_statements (others 0) events in
    let (rest, last) =
      relay_all relay now (λ k. others (suc k)) records (relay_one relay now r table) in
    (
      (if is_confirmed (relay.publish r)
          then record rest { published = r.event_id ∷ rest.published }
          else record rest { failed = r.event_id ∷ rest.failed }),
      last,
    )

-- `!Number.isInteger(limit) || limit < 1`
unfoldable pub batch_limit_of : Number → Result ℕ
batch_limit_of (int (pos (suc n))) = ok (suc n)
batch_limit_of _ = err batch_limit

-- `runBatch`
unfoldable pub run_batch :
    OutboxRelay
    → Number
    → ℕ
    → (ℕ → List Statement)
    → List OutboxEvent
    → Result (RelayResult × List OutboxEvent)
unfolding batch_limit_of
run_batch relay limit now others events = do
  n ← batch_limit_of limit
  let (records, claimed) = claim_pending relay.worker_id relay.lease_seconds n now events
  ok (relay_all relay now others records claimed)
