-- ===== src/Accounting.antt =====
-- src/modules/accounting/domain/accounting-lifecycle.ts: the events that accounting posts, and what
-- the ledger answers.
pub mod Acknowledgement
pub mod SourceKey
mod Tests
use pms_backend.Base.{ℕ, Bool, not, List, [], ◌∷◌, ◌++◌, ◌==◌, some_of}
use pms_backend.Fault.{
  Result, ok, err, ◌>>=◌, ◌>>◌, throw_if, source_required, entity_required,
  acknowledgement_transition,
}
use pms_backend.Number.{Number}
use pms_backend.Text.{Text, codes, is_blank}
use pms_backend.Journal.{JournalLineDraft, assert_balanced_journal}

pub data AccountingEventType : Type 0 where
  revenue profit_share per_movement irr_movement purification withholding_tax remainder correction :
      AccountingEventType

pub data AccountingAcknowledgementState : Type 0 where
  pending acknowledged rejected retried reversed : AccountingAcknowledgementState

abbrev pub event_type_text : AccountingEventType → Text
event_type_text revenue = codes "REVENUE"
event_type_text profit_share = codes "PROFIT_SHARE"
event_type_text per_movement = codes "PER_MOVEMENT"
event_type_text irr_movement = codes "IRR_MOVEMENT"
event_type_text purification = codes "PURIFICATION"
event_type_text withholding_tax = codes "WITHHOLDING_TAX"
event_type_text remainder = codes "REMAINDER"
event_type_text correction = codes "CORRECTION"

pub record AccountingSourceKey : Type 0 where
  pub run_id : Text
  pub pool_id : Text
  pub product_id : Text
  pub event_type : AccountingEventType
  pub event_id : Text

-- The template of the key.
abbrev pub joined_key : AccountingSourceKey → Text
joined_key s =
    s.run_id
    ++ b':'
      ∷ (s.pool_id
          ++ b':' ∷ (s.product_id ++ b':' ∷ (event_type_text s.event_type ++ b':' ∷ s.event_id)))

-- `accountingSourceKey`: the name of an event type is never blank.
unfoldable pub accounting_source_key : AccountingSourceKey → Result Text
accounting_source_key source = do
  throw_if (is_blank source.run_id) source_required
  throw_if (is_blank source.pool_id) source_required
  throw_if (is_blank source.product_id) source_required
  throw_if (is_blank source.event_id) source_required
  ok (joined_key source)

pub record AccountingEvent : Type 0 where
  pub source_key : Text
  pub source : AccountingSourceKey
  pub entity_id : Text
  pub lines : List JournalLineDraft

-- `prepareAccountingEvent`
unfoldable pub prepare_accounting_event :
    AccountingSourceKey → Text → List JournalLineDraft → Number → Result AccountingEvent
unfolding accounting_source_key
prepare_accounting_event source entity_id lines scale = do
  throw_if (is_blank entity_id) entity_required
  assert_balanced_journal lines scale
  source_key ← accounting_source_key source
  ok (record { source_key = source_key; source = source; entity_id = entity_id; lines = lines })

-- A number for each name: two names are the same text when their numbers are equal.
abbrev pub state_name : AccountingAcknowledgementState → ℕ
state_name pending = 0
state_name acknowledged = 1
state_name rejected = 2
state_name retried = 3
state_name reversed = 4

-- `allowed`
unfoldable pub allowed : AccountingAcknowledgementState → List AccountingAcknowledgementState
allowed pending = acknowledged ∷ rejected ∷ []
allowed acknowledged = []
allowed rejected = retried ∷ []
allowed retried = acknowledged ∷ rejected ∷ reversed ∷ []
allowed reversed = []

-- `nextAcknowledgementState`
unfoldable pub next_acknowledgement_state :
    AccountingAcknowledgementState
    → AccountingAcknowledgementState
    → Result AccountingAcknowledgementState
unfolding allowed
next_acknowledgement_state current action = do
  throw_if (not (some_of (λ s. state_name s == state_name action) (allowed current)))
      acknowledgement_transition
  ok action
