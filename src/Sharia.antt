-- ===== src/Sharia.antt =====
-- src/modules/compliance/domain/sharia-review.ts: the review of a case by the Sharia board.
pub mod Reviews
mod Tests
use pms_backend.Base.{ℕ, Bool, true, false, ◌||◌, not, Option, none, some, ltb, length}
use pms_backend.Fault.{
  Result, ok, err, ◌>>=◌, ◌>>◌, throw_if, sharia_state, reviewer_is_maker, opinion_too_short,
  approver_not_distinct, justification_too_short, evidence_not_uuid,
}
use pms_backend.Text.{Text, text_eq, trim, is_blank}
use pms_backend.Text.Uuid.{is_uuid}

pub data ShariaReviewState : Type 0 where
  submitted reviewed approved rejected : ShariaReviewState

pub record ShariaReviewSnapshot : Type 0 where
  pub state : ShariaReviewState
  pub maker_id : Text
  pub reviewer_id : Option Text
  pub approver_id : Option Text
  pub opinion : Option Text
  pub justification : Option Text
  pub evidence_document_id : Option Text

abbrev pub is_submitted : ShariaReviewState → Bool
is_submitted submitted = true
is_submitted _ = false

abbrev pub is_reviewed : ShariaReviewState → Bool
is_reviewed reviewed = true
is_reviewed _ = false

-- `id === current.reviewerId`
abbrev pub is_present_id : Option Text → Text → Bool
is_present_id none id = false
is_present_id (some present) id = text_eq id present

-- `'APPROVED' | 'REJECTED'`
pub data Decision : Type 0 where
  approve reject : Decision

abbrev pub decided : Decision → ShariaReviewState
decided approve = approved
decided reject = rejected

-- `reviewShariaCase`
unfoldable pub review_sharia_case : ShariaReviewSnapshot → Text → Text → Result ShariaReviewSnapshot
review_sharia_case current reviewer opinion = do
  throw_if (not (is_submitted current.state)) sharia_state
  throw_if (is_blank reviewer || text_eq reviewer current.maker_id) reviewer_is_maker
  throw_if (ltb (length (trim opinion)) 10) opinion_too_short
  ok (record current {
    state = reviewed;
    reviewer_id = some reviewer;
    opinion = some (trim opinion);
  })

-- `decideShariaCase`
unfoldable pub decide_sharia_case :
    ShariaReviewSnapshot → Text → Decision → Text → Text → Result ShariaReviewSnapshot
decide_sharia_case current approver decision justification evidence_document = do
  throw_if (not (is_reviewed current.state)) sharia_state
  throw_if
      (is_blank approver
        || text_eq approver current.maker_id
        || is_present_id current.reviewer_id approver)
      approver_not_distinct
  throw_if (ltb (length (trim justification)) 10) justification_too_short
  throw_if (not (is_uuid evidence_document)) evidence_not_uuid
  ok (record current {
    state = decided decision;
    approver_id = some approver;
    justification = some (trim justification);
    evidence_document_id = some evidence_document;
  })
