-- ===== src/Access/Tests.antt =====
-- Access decisions at concrete inputs.
use pms_backend.Base.{◌≡◌, ◌↔◌, refl, true, Option, none, some, [], ◌∷◌, length, max}
use pms_backend.Base.Int.{ℤ, pos, ◌+ℤ◌, ◌*ℤ◌}
use pms_backend.Fault.{ok}
use pms_backend.Text.{Text, codes}
use pms_backend.Decimal.{running, match_unsigned, units_of}
use pms_backend.Access.{
  risk_analyst, AuthorizationRequest, AuthorizationDecision, evaluate_authorization, timestamp,
  optional_timestamp, compare_unsigned_decimals,
}
use pms_backend.Access.Amounts.{Ordered}
use pms_backend.Access.Compare.{compare_unsigned_decimals_lem}
use pms_backend.Access.Governance.{
  AccessGrant, AccessGrantKind, entitlement, delegation, is_expired, is_effective, due_at_of,
  review_of, evaluate_grants, evaluate_access_governance,
}
use pms_backend.Access.Decisions.{Permits, evaluate_authorization_iff}

two_matched : match_unsigned (codes "2.5") ≡ some (codes "2", codes "5")
unfolding running
two_matched = refl

ten_matched : match_unsigned (codes "10.25") ≡ some (codes "10", codes "25")
unfolding running
ten_matched = refl

compare_unsigned_decimals_lem_example :
    Ordered
      (units_of (codes "2") (codes "5") (max (length (codes "5")) (length (codes "25"))))
      (units_of (codes "10") (codes "25") (max (length (codes "5")) (length (codes "25"))))
      (compare_unsigned_decimals (codes "2.5") (codes "10.25"))
compare_unsigned_decimals_lem_example =
    compare_unsigned_decimals_lem (codes "2.5") (codes "10.25") (codes "2") (codes "5") (codes "10")
      (codes "25") two_matched ten_matched

-- A stand-in for the platform's `Date.parse`: the length of the text.
abbrev parse_length : Text → Option ℤ
parse_length [] = none
parse_length (c ∷ s) = some (pos (length (c ∷ s)))

abbrev request : AuthorizationRequest
request = record {
  subject = record {
    user_id = codes "u";
    roles = risk_analyst ∷ [];
    legal_entity_ids = codes "e" ∷ [];
    branch_ids = [];
    pool_ids = [];
    delegation_level = pos 2;
    maximum_amount = codes "100";
    delegation_valid_from = none;
    delegation_valid_until = none;
  };
  resource = record {
    legal_entity_id = some (codes "e");
    branch_id = none;
    pool_id = none;
    workflow_status = none;
    previous_actor_id = none;
  };
  policy = record {
    allowed_roles = risk_analyst ∷ [];
    allowed_workflow_statuses = none;
    required_delegation_level = some (pos 1);
  };
  amount = some (codes "99.5");
  evaluated_at = none;
}

evaluate_authorization_iff_example :
    (d : AuthorizationDecision) × (evaluate_authorization parse_length (codes "now") request ≡ ok d)
    × ((d.allowed ≡ true) ↔ Permits parse_length request (pos 3))
    × ((d.allowed ≡ true) ↔ (d.reasons ≡ []))
evaluate_authorization_iff_example =
    evaluate_authorization_iff parse_length (codes "now") request (pos 3) refl

-- A delegation that ended before the 9th, an entitlement with the same end, and reviews that are due.
abbrev grant : Text → AccessGrantKind → AccessGrant
grant id kind = record {
  id = id;
  subject_id = codes "s";
  manager_id = codes "m";
  kind = kind;
  granted_at = codes "1";
  last_reviewed_at = none;
  review_interval_days = pos 0;
  valid_from = none;
  valid_until = some (codes "12345678");
}

govern :
    evaluate_access_governance parse_length
      (λ t. ok (codes "due"))
      (grant (codes "d") delegation ∷ grant (codes "e") entitlement ∷ [])
      (codes "123456789")
    ≡ ok (record {
      effective_grant_ids = codes "e" ∷ [];
      expired_delegation_ids = codes "d" ∷ [];
      review_notifications =
          record {
            grant_id = codes "d";
            subject_id = codes "s";
            manager_id = codes "m";
            due_at = codes "due";
          }
          ∷ record {
            grant_id = codes "e";
            subject_id = codes "s";
            manager_id = codes "m";
            due_at = codes "due";
          }
          ∷ [];
    })
unfolding evaluate_access_governance evaluate_grants review_of due_at_of is_expired is_effective
    timestamp optional_timestamp ◌+ℤ◌ ◌*ℤ◌
govern = refl
