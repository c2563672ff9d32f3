-- ===== src/Access.antt =====
-- src/modules/identity-access/domain/authorization.ts and src/shared-kernel/authorization-contracts.ts:
-- who may do what.
pub mod Amounts
pub mod Compare
pub mod Checks
pub mod Decisions
pub mod Governance
mod Tests
use pms_backend.Base.{
  ℕ, Bool, true, false, ◌&&◌, ◌||◌, not, Option, none, some, List, [], ◌∷◌, ◌++◌, ltb, leb, ◌==◌,
  if◌then◌else◌, length, some_of, max,
}
use pms_backend.Base.Int.{ℤ, pos, ◌+ℤ◌, ◌*ℤ◌, ltb_ℤ}
use pms_backend.Fault.{Result, ok, err, ◌>>=◌, ◌>>◌, invalid_date}
use pms_backend.Number.{Sign, less, same, more, is_more}
use pms_backend.Text.{Text, text_eq, text_lt, includes, is_empty, pad_end}
use pms_backend.Decimal.{match_unsigned}

-- `PmsRole`
pub data PmsRole : Type 0 where
  finance_analyst finance_controller relationship_manager risk_analyst sharia_auditor system_admin :
      PmsRole

abbrev pub role_eq : PmsRole → PmsRole → Bool
role_eq finance_analyst finance_analyst = true
role_eq finance_controller finance_controller = true
role_eq relationship_manager relationship_manager = true
role_eq risk_analyst risk_analyst = true
role_eq sharia_auditor sharia_auditor = true
role_eq system_admin system_admin = true
role_eq _ _ = false

pub record AuthorizationSubject : Type 0 where
  pub user_id : Text
  pub roles : List PmsRole
  pub legal_entity_ids : List Text
  pub branch_ids : List Text
  pub pool_ids : List Text
  pub delegation_level : ℤ
  pub maximum_amount : Text
  pub delegation_valid_from : Option Text
  pub delegation_valid_until : Option Text

pub record AuthorizationResource : Type 0 where
  pub legal_entity_id : Option Text
  pub branch_id : Option Text
  pub pool_id : Option Text
  pub workflow_status : Option Text
  pub previous_actor_id : Option Text

pub record AuthorizationPolicy : Type 0 where
  pub allowed_roles : List PmsRole
  pub allowed_workflow_statuses : Option (List Text)
  pub required_delegation_level : Option ℤ

pub record AuthorizationRequest : Type 0 where
  pub subject : AuthorizationSubject
  pub resource : AuthorizationResource
  pub policy : AuthorizationPolicy
  pub amount : Option Text
  pub evaluated_at : Option Text

pub data AuthorizationDenialReason : Type 0 where
  role_not_allowed legal_entity_out_of_scope branch_out_of_scope pool_out_of_scope
        workflow_status_not_allowed insufficient_delegation delegation_not_active delegation_expired
        invalid_delegation_period amount_exceeds_limit previous_actor_conflict invalid_amount :
      AuthorizationDenialReason

pub record AuthorizationDecision : Type 0 where
  pub allowed : Bool
  pub reasons : List AuthorizationDenialReason

-- `/^(?:0|[1-9][0-9]*)(?:\.[0-9]+)?$/.test(value)`: the expression of `match_unsigned`.
unfoldable pub is_unsigned_decimal : Text → Bool
is_unsigned_decimal value = elim (match_unsigned value) [ none ↦ false | some _ ↦ true ]

-- The first two parts of `value.split('.')`, the second `''` where there is none.
unfoldable pub until_point : Text → Text
until_point [] = []
until_point (c ∷ s) = if c == b'.' then [] else c ∷ until_point s

unfoldable pub after_point : Text → Text
unfolding until_point
after_point [] = []
after_point (c ∷ s) = if c == b'.' then until_point s else after_point s

-- `left === right ? 0 : left > right ? 1 : -1`
unfoldable pub compare_texts : Text → Text → Sign
compare_texts left right =
    if text_eq left right then same else if text_lt right left then more else less

-- `compareUnsignedDecimals` on the two parts of each text.
unfoldable pub compare_parts : Text → Text → Text → Text → Sign
unfolding compare_texts
compare_parts li lf ri rf =
    if length li == length ri
    then if text_eq li ri
      then (let fraction_length = max (length lf) (length rf) in
          compare_texts (pad_end lf fraction_length b'0') (pad_end rf fraction_length b'0'))
      else if text_lt ri li
      then more
      else less
    else if ltb (length ri) (length li)
    then more
    else less

unfoldable pub compare_unsigned_decimals : Text → Text → Sign
unfolding after_point compare_parts
compare_unsigned_decimals left right =
    compare_parts (until_point left) (after_point left) (until_point right) (after_point right)

-- `if (test) reasons.push(reason)`
abbrev pub deny_if : Bool → AuthorizationDenialReason → List AuthorizationDenialReason
deny_if test reason = if test then reason ∷ [] else []

-- `id && !ids.includes(id)`: an absent or empty id is in scope.
abbrev pub out_of : List Text → Option Text → Bool
out_of ids none = false
out_of ids (some id) = not (is_empty id) && not (includes ids id)

-- `workflowStatus && allowed && !allowed.includes(workflowStatus)`
abbrev pub status_refused : Option (List Text) → Option Text → Bool
status_refused none status = false
status_refused (some allowed_statuses) status = out_of allowed_statuses status

-- `previousActorId && previousActorId === userId`
abbrev pub is_previous_actor : Option Text → Text → Bool
is_previous_actor none user = false
is_previous_actor (some actor) user = not (is_empty actor) && text_eq actor user

abbrev pub has_role : List PmsRole → PmsRole → Bool
has_role roles role = some_of (role_eq role) roles

abbrev pub is_before : Option ℤ → ℤ → Bool
is_before none evaluated = false
is_before (some until) evaluated = ltb_ℤ until evaluated

abbrev pub is_after : Option ℤ → ℤ → Bool
is_after none evaluated = false
is_after (some from) evaluated = ltb_ℤ evaluated from

abbrev pub reversed_period : Option ℤ → Option ℤ → Bool
reversed_period (some from) until = is_before until from
reversed_period none until = false

-- The checks of a delegation whose bounds are read, in the order of the source.
unfoldable pub period_reasons : ℤ → Option ℤ → Option ℤ → ℤ → ℤ → List AuthorizationDenialReason
period_reasons evaluated from until level required =
    if reversed_period from until
    then invalid_delegation_period ∷ []
    else if is_after from evaluated
    then delegation_not_active ∷ []
    else if is_before until evaluated
    then delegation_expired ∷ []
    else deny_if (ltb_ℤ level required) insufficient_delegation

-- The checks of an amount.
unfoldable pub amount_reasons : Option Text → Text → List AuthorizationDenialReason
unfolding is_unsigned_decimal compare_unsigned_decimals
amount_reasons none maximum = []
amount_reasons (some amount) maximum =
    if is_unsigned_decimal amount && is_unsigned_decimal maximum
    then deny_if (is_more (compare_unsigned_decimals amount maximum)) amount_exceeds_limit
    else invalid_amount ∷ []

-- `Date.parse` (`none` where it gives NaN) is the platform's; `current_time` is `new Date().toISOString()`.
module _ (parse_date : Text → Option ℤ) where
  -- `timestamp`
  unfoldable pub timestamp : Text → Result ℤ
  timestamp value = elim (parse_date value) [ none ↦ err invalid_date | some t ↦ ok t ]

  -- `optionalTimestamp`
  unfoldable pub optional_timestamp : Option Text → Result (Option ℤ)
  unfolding timestamp
  optional_timestamp none = ok none
  optional_timestamp (some value) = do t ← timestamp value; ok (some t)

  -- `safeOptionalTimestamp`: the outer `none` is `null`, the inner one `undefined`.
  unfoldable pub safe_optional_timestamp : Option Text → Option (Option ℤ)
  safe_optional_timestamp none = some none
  safe_optional_timestamp (some value) = elim (parse_date value) [
    | none ↦ none
    | some t ↦ some (some t)
  ]

  unfoldable pub bounds_reasons :
      ℤ → Option (Option ℤ) → Option (Option ℤ) → ℤ → ℤ → List AuthorizationDenialReason
  unfolding period_reasons
  bounds_reasons evaluated none until level required = invalid_delegation_period ∷ []
  bounds_reasons evaluated (some from) none level required = invalid_delegation_period ∷ []
  bounds_reasons evaluated (some from) (some until) level required =
      period_reasons evaluated from until level required

  unfoldable pub delegation_reasons :
      ℤ → AuthorizationSubject → Option ℤ → List AuthorizationDenialReason
  unfolding safe_optional_timestamp bounds_reasons
  delegation_reasons evaluated subject none = []
  delegation_reasons evaluated subject (some required) =
      bounds_reasons evaluated (safe_optional_timestamp subject.delegation_valid_from)
        (safe_optional_timestamp subject.delegation_valid_until) subject.delegation_level required

  -- The reasons of `evaluateAuthorization`, in the order of their `push` calls.
  unfoldable pub denial_reasons : AuthorizationRequest → ℤ → List AuthorizationDenialReason
  unfolding delegation_reasons amount_reasons
  denial_reasons request evaluated =
      let subject = request.subject in
      let resource = request.resource in
      let policy = request.policy in
      let scoped = not (has_role subject.roles system_admin) in
      deny_if (not (some_of (has_role subject.roles) policy.allowed_roles)) role_not_allowed
      ++ (deny_if (scoped && out_of subject.legal_entity_ids resource.legal_entity_id)
            legal_entity_out_of_scope
          ++ (deny_if (scoped && out_of subject.branch_ids resource.branch_id) branch_out_of_scope
              ++ (deny_if (scoped && out_of subject.pool_ids resource.pool_id) pool_out_of_scope
                  ++ (deny_if
                        (status_refused policy.allowed_workflow_statuses resource.workflow_status)
                        workflow_status_not_allowed
                      ++ (delegation_reasons evaluated subject policy.required_delegation_level
                          ++ (amount_reasons request.amount subject.maximum_amount
                              ++ deny_if
                                  (is_previous_actor resource.previous_actor_id subject.user_id)
                                  previous_actor_conflict))))))

  -- `evaluateAuthorization`
  unfoldable pub evaluate_authorization : Text → AuthorizationRequest → Result AuthorizationDecision
  unfolding timestamp denial_reasons
  evaluate_authorization current_time request = do
    evaluated ← timestamp (elim request.evaluated_at [ none ↦ current_time | some at ↦ at ])
    let reasons = denial_reasons request evaluated
    ok (record { allowed = length reasons == 0; reasons = reasons })
