-- ===== src/Sharia/Tests.antt =====
-- A review at concrete inputs.
use pms_backend.Base.{◌≡◌, refl, some}
use pms_backend.Fault.{ok, err, approver_not_distinct}
use pms_backend.Text.{Text, codes, text_eq, trim, is_blank}
use pms_backend.Text.Uuid.{is_uuid}
use pms_backend.Sharia.{
  reviewed, approved, approve, ShariaReviewSnapshot, review_sharia_case, decide_sharia_case,
}
use pms_backend.Sharia.Reviews.{
  Reachable, start, after_review, after_decision, submission, FourEyes, reachable-FourEyes,
}

unfoldable reviewing : Unit {0}
unfolding text_eq trim is_blank is_uuid review_sharia_case decide_sharia_case
reviewing = tt

abbrev seen : ShariaReviewSnapshot
seen = record (submission (codes "m")) {
  state = reviewed;
  reviewer_id = some (codes "r");
  opinion = some (codes "compliant contract");
}

abbrev document : Text
document = codes "123e4567-e89b-42d3-A456-426614174000"

abbrev closed_case : ShariaReviewSnapshot
closed_case = record seen {
  state = approved;
  approver_id = some (codes "a");
  justification = some (codes "board decision");
  evidence_document_id = some document;
}

case_reviewed :
    review_sharia_case (submission (codes "m")) (codes "r") (codes " compliant contract ") ≡ ok seen
unfolding reviewing
case_reviewed = refl

case_decided :
    decide_sharia_case seen (codes "a") approve (codes "board decision") document ≡ ok closed_case
unfolding reviewing
case_decided = refl

reviewer_refused :
    decide_sharia_case seen (codes "r") approve (codes "board decision") document
    ≡ err approver_not_distinct
unfolding reviewing
reviewer_refused = refl

abbrev run : Reachable (codes "m") closed_case
run =
    after_decision seen closed_case (codes "a") approve (codes "board decision") document
      (after_review (submission (codes "m")) seen (codes "r") (codes " compliant contract ") start
        case_reviewed)
      case_decided

reachable-FourEyes_example :
    (closed_case.maker_id ≡ codes "m") × FourEyes (codes "m") approved closed_case
reachable-FourEyes_example = reachable-FourEyes (codes "m") run
