-- ===== src/Access/Governance.antt =====
-- `evaluateAccessGovernance` of src/modules/identity-access/domain/authorization.ts: which grants are
-- in force, which delegations have expired, and which grants are due for a review.
use pms_backend.Base.{
  Bool, true, false, ◌&&◌, not, Option, none, some, List, [], ◌∷◌, ◌++◌, if◌then◌else◌,
}
use pms_backend.Base.Int.{ℤ, pos, ltb_ℤ, ◌+ℤ◌, ◌*ℤ◌}
use pms_backend.Fault.{Result, ok, ◌>>=◌}
use pms_backend.Text.{Text}
use pms_backend.Access.{timestamp, optional_timestamp}

pub data AccessGrantKind : Type 0 where
  entitlement delegation : AccessGrantKind

pub record AccessGrant : Type 0 where
  pub id : Text
  pub subject_id : Text
  pub manager_id : Text
  pub kind : AccessGrantKind
  pub granted_at : Text
  pub last_reviewed_at : Option Text
  pub review_interval_days : ℤ
  pub valid_from : Option Text
  pub valid_until : Option Text

pub record AccessReviewNotification : Type 0 where
  pub grant_id : Text
  pub subject_id : Text
  pub manager_id : Text
  pub due_at : Text

pub record AccessGovernanceEvaluation : Type 0 where
  pub effective_grant_ids : List Text
  pub expired_delegation_ids : List Text
  pub review_notifications : List AccessReviewNotification

abbrev pub is_delegation : AccessGrantKind → Bool
is_delegation delegation = true
is_delegation entitlement = false

-- `now > validUntil` and `now < validFrom`, where there is a date.
abbrev pub is_after : ℤ → Option ℤ → Bool
is_after now none = false
is_after now (some until) = ltb_ℤ until now

abbrev pub is_before : ℤ → Option ℤ → Bool
is_before now none = false
is_before now (some start) = ltb_ℤ now start

-- `expired` and `notStarted`
unfoldable pub is_expired : ℤ → AccessGrant → Option ℤ → Bool
is_expired now grant until = is_delegation grant.kind && is_after now until

unfoldable pub is_effective : ℤ → AccessGrant → Option ℤ → Option ℤ → Bool
unfolding is_expired
is_effective now grant start until = not (is_expired now grant until) && not (is_before now start)

abbrev pub push_if : Bool → Text → List Text → List Text
push_if true id ids = id ∷ ids
push_if false id ids = ids

-- `reviewAnchor + grant.reviewIntervalDays * 86_400_000`
unfoldable pub due_at_of : AccessGrant → ℤ → ℤ
due_at_of grant anchor = anchor +ℤ grant.review_interval_days *ℤ pos 86400000

-- `Date.parse` and `new Date(t).toISOString()`, which throws out of its range, are the platform's.
module _ (parse_date : Text → Option ℤ) (iso_string : ℤ → Result Text) where
  -- The notification of one grant.
  unfoldable pub review_of : ℤ → AccessGrant → ℤ → Result (List AccessReviewNotification)
  unfolding due_at_of
  review_of now grant anchor = if ltb_ℤ now (due_at_of grant anchor) then ok [] else (do
    at ← iso_string (due_at_of grant anchor)
    ok (
        record {
          grant_id = grant.id;
          subject_id = grant.subject_id;
          manager_id = grant.manager_id;
          due_at = at;
        }
        ∷ []))

  -- The loop over the grants.
  unfoldable pub evaluate_grants : ℤ → List AccessGrant → Result AccessGovernanceEvaluation
  unfolding is_expired is_effective
  evaluate_grants now [] =
      ok (record {
        effective_grant_ids = [];
        expired_delegation_ids = [];
        review_notifications = [];
      })
  evaluate_grants now (grant ∷ grants) = do
    start ← optional_timestamp parse_date grant.valid_from
    until ← optional_timestamp parse_date grant.valid_until
    anchor ←
        timestamp parse_date
          (elim grant.last_reviewed_at [ none ↦ grant.granted_at | some at ↦ at ])
    notices ← review_of now grant anchor
    rest ← evaluate_grants now grants
    ok (record {
      effective_grant_ids =
          push_if (is_effective now grant start until) grant.id rest.effective_grant_ids;
      expired_delegation_ids =
          push_if (is_expired now grant until) grant.id rest.expired_delegation_ids;
      review_notifications = notices ++ rest.review_notifications;
    })

  -- `evaluateAccessGovernance`
  unfoldable pub evaluate_access_governance :
      List AccessGrant → Text → Result AccessGovernanceEvaluation
  unfolding evaluate_grants
  evaluate_access_governance grants evaluated_at = do
    now ← timestamp parse_date evaluated_at
    evaluate_grants now grants
