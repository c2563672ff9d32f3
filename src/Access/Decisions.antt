-- ===== src/Access/Decisions.antt =====
-- When `evaluateAuthorization` allows a request.
use pms_backend.Base.{
  ◌≡◌, ◌↔◌, refl, sym, ap, subst, some_injective, ◌∙◌, Bool, true, false, ◌&&◌, not, Bool-cases,
  inl, inr, Option, none, some, List, [], ◌∷◌, ◌++◌, arith, length, some_of, ◌==◌,
}
use pms_backend.Base.Int.{ℤ}
use pms_backend.Fault.{Result, ok, ◌>>=◌}
use pms_backend.Text.{Text, text_eq, text_eq_iff}
use pms_backend.Access.{
  system_admin, role_not_allowed, legal_entity_out_of_scope, branch_out_of_scope, pool_out_of_scope,
  workflow_status_not_allowed, previous_actor_conflict, AuthorizationRequest, AuthorizationDecision,
  AuthorizationDenialReason, deny_if, out_of, status_refused, is_previous_actor, has_role,
  amount_reasons, timestamp, safe_optional_timestamp, bounds_reasons, delegation_reasons,
  denial_reasons, evaluate_authorization, AuthorizationSubject,
}
use pms_backend.Access.Checks.{
  InScope, InForce, WithinLimit, out_of_iff, period_iff, amount_iff, length_zero_iff, listed,
}

-- The delegation that a policy asks for.
module _ (parse_date : Text → Option ℤ) where
  abbrev pub HasDelegation : ℤ → AuthorizationSubject → Option ℤ → Type 0
  HasDelegation evaluated subject required =
      (level : ℤ)
      → required ≡ some level
      → (from : Option ℤ) × (until : Option ℤ) × (safe_optional_timestamp parse_date
            subject.delegation_valid_from
          ≡ some from)
        × (safe_optional_timestamp parse_date subject.delegation_valid_until ≡ some until)
        × InForce evaluated from until subject.delegation_level level

  bounds_iff :
      (evaluated : ℤ) (f u : Option (Option ℤ)) (level required : ℤ)
      → (bounds_reasons parse_date evaluated f u level required ≡ []) ↔ (
          (from : Option ℤ) × (until : Option ℤ) × (f ≡ some from)
          × (u ≡ some until)
          × InForce evaluated from until level required)
  unfolding bounds_reasons
  bounds_iff evaluated none u level required = (λ h. cc, λ (from, until, e, _, _). cc)
  bounds_iff evaluated (some f) none level required = (λ h. cc, λ (from, until, _, e, _). cc)
  bounds_iff evaluated (some f) (some u) level required = (
    λ h. (f, u, refl, refl, (period_iff evaluated f u level required).0 h),
    λ (from, until, ef, eu, good).
        rw (some_injective ef, some_injective eu)
          ((period_iff evaluated from until level required).1 good),
  )

  delegation_iff :
      (evaluated : ℤ) (subject : AuthorizationSubject) (required : Option ℤ)
      → (delegation_reasons parse_date evaluated subject required ≡ [])
        ↔ HasDelegation evaluated subject required
  unfolding delegation_reasons
  delegation_iff evaluated subject none = (λ h level e. cc, λ h. refl)
  delegation_iff evaluated subject (some required) =
      let bounds =
        bounds_iff evaluated (safe_optional_timestamp parse_date subject.delegation_valid_from)
          (safe_optional_timestamp parse_date subject.delegation_valid_until)
          subject.delegation_level required in
      (λ h level e. rw (sym (some_injective e)) (bounds.0 h), λ h. bounds.1 (h required refl))

  -- What `evaluateAuthorization` asks for.
  pub record Permits (request : AuthorizationRequest) (evaluated : ℤ) : Type 0 where
    pub role : some_of (has_role request.subject.roles) request.policy.allowed_roles ≡ true
    pub scope :
        has_role request.subject.roles system_admin ≡ false
        → InScope request.subject.legal_entity_ids request.resource.legal_entity_id
          × InScope request.subject.branch_ids request.resource.branch_id
          × InScope request.subject.pool_ids request.resource.pool_id
    pub status :
        (statuses : List Text)
        → request.policy.allowed_workflow_statuses ≡ some statuses
        → InScope statuses request.resource.workflow_status
    pub delegation :
        HasDelegation evaluated request.subject request.policy.required_delegation_level
    pub limit : (a : Text) → request.amount ≡ some a → WithinLimit a request.subject.maximum_amount
    pub not_previous :
        request.resource.previous_actor_id ≡ some request.subject.user_id
        → request.subject.user_id ≡ []

  status_iff :
      (statuses : Option (List Text)) (status : Option Text)
      → (status_refused statuses status ≡ false) ↔ (
          (listed_statuses : List Text)
          → statuses ≡ some listed_statuses
          → InScope listed_statuses status)
  status_iff none status = (λ h l e. cc, λ h. refl)
  status_iff (some l) status = (
    λ h l' e. subst (λ t. InScope t status) (some_injective e) ((out_of_iff l status).0 h),
    λ h. (out_of_iff l status).1 (h l refl),
  )

  previous_iff :
      (actor : Option Text) (user : Text)
      → (is_previous_actor actor user ≡ false) ↔ (actor ≡ some user → user ≡ [])
  previous_iff none user = (λ h e. cc, λ h. refl)
  previous_iff (some []) user = (λ h e. sym (some_injective e), λ h. refl)
  previous_iff (some (c ∷ s)) user = (
    λ h e. absurd (ground (arith, (text_eq_iff (c ∷ s) user).1 (some_injective e))),
    λ h. elim (Bool-cases (text_eq (c ∷ s) user)) [
      | inl e ↦
          let same_user = (text_eq_iff (c ∷ s) user).0 e in
          let nobody = same_user ∙ h (ap some same_user) in cc
      | inr e ↦ e
    ],
  )

  scoped_iff : (admin b : Bool) → (not admin && b ≡ false) ↔ (admin ≡ false → b ≡ false)
  scoped_iff admin b = ground arith

  reasons_shape :
      (b c d e f g : Bool) (xs ys : List AuthorizationDenialReason)
      → ((deny_if b role_not_allowed
            ++ (deny_if c legal_entity_out_of_scope
                ++ (deny_if d branch_out_of_scope
                    ++ (deny_if e pool_out_of_scope
                        ++ (deny_if f workflow_status_not_allowed
                            ++ (xs ++ (ys ++ deny_if g previous_actor_conflict)))))))
          ≡ [])
        ↔ ((b ≡ false)
            × (c ≡ false)
            × (d ≡ false)
            × (e ≡ false)
            × (f ≡ false)
            × (xs ≡ [])
            × (ys ≡ [])
            × (g ≡ false))
  reasons_shape b c d e f g [] [] = ground arith
  reasons_shape b c d e f g [] (y ∷ ys) = ground arith
  reasons_shape b c d e f g (x ∷ xs) ys = ground arith

  module _ (request : AuthorizationRequest) (evaluated : ℤ) where
    abbrev subject : AuthorizationSubject
    subject = request.subject

    abbrev scoped : Bool
    scoped = not (has_role subject.roles system_admin)

    reasons_iff : (denial_reasons parse_date request evaluated ≡ []) ↔ Permits request evaluated
    unfolding denial_reasons
    reasons_iff =
        let resource = request.resource in
        let shape =
          reasons_shape (not (some_of (has_role subject.roles) request.policy.allowed_roles))
            (scoped && out_of subject.legal_entity_ids resource.legal_entity_id)
            (scoped && out_of subject.branch_ids resource.branch_id)
            (scoped && out_of subject.pool_ids resource.pool_id)
            (status_refused request.policy.allowed_workflow_statuses resource.workflow_status)
            (is_previous_actor resource.previous_actor_id subject.user_id)
            (delegation_reasons parse_date evaluated subject
              request.policy.required_delegation_level)
            (amount_reasons request.amount subject.maximum_amount) in
        let admin = has_role subject.roles system_admin in
        let entity = out_of_iff subject.legal_entity_ids resource.legal_entity_id in
        let branch = out_of_iff subject.branch_ids resource.branch_id in
        let pool = out_of_iff subject.pool_ids resource.pool_id in
        let status = status_iff request.policy.allowed_workflow_statuses resource.workflow_status in
        let delegation =
          delegation_iff evaluated subject request.policy.required_delegation_level in
        let limit = amount_iff request.amount subject.maximum_amount in
        let previous = previous_iff resource.previous_actor_id subject.user_id in
        (
          λ h.
              let (b, c, d, e, f, xs, ys, g) = shape.0 h in
              record {
                role = listed (some_of (has_role subject.roles) request.policy.allowed_roles) b;
                scope = λ plain. (
                  entity.0 (
                      (scoped_iff admin
                          (out_of subject.legal_entity_ids resource.legal_entity_id)).0
                        c plain),
                  branch.0
                      ((scoped_iff admin (out_of subject.branch_ids resource.branch_id)).0 d plain),
                  pool.0 ((scoped_iff admin (out_of subject.pool_ids resource.pool_id)).0 e plain),
                );
                status = status.0 f;
                delegation = delegation.0 xs;
                limit = limit.0 ys;
                not_previous = previous.0 g;
              },
          λ p. shape.1 (
            ap not p.role,
            (scoped_iff admin (out_of subject.legal_entity_ids resource.legal_entity_id)).1
                (λ plain. entity.1 (p.scope plain).0),
            (scoped_iff admin (out_of subject.branch_ids resource.branch_id)).1
                (λ plain. branch.1 (p.scope plain).1),
            (scoped_iff admin (out_of subject.pool_ids resource.pool_id)).1
                (λ plain. pool.1 (p.scope plain).2),
            status.1 p.status,
            delegation.1 p.delegation,
            limit.1 p.limit,
            previous.1 p.not_previous,
          ),
        )

  -- The date that the request is evaluated at.
  abbrev pub evaluation_date : Text → AuthorizationRequest → Text
  evaluation_date current_time request = elim request.evaluated_at [
    | none ↦ current_time
    | some at ↦ at
  ]

  timestamp_found :
      (value : Text) (t : ℤ) → parse_date value ≡ some t → timestamp parse_date value ≡ ok t
  unfolding timestamp
  timestamp_found value t h = rw (h, timestamp) refl

  abbrev decide : AuthorizationRequest → ℤ → Result AuthorizationDecision
  decide request evaluated =
      let reasons = denial_reasons parse_date request evaluated in
      ok (record { allowed = length reasons == 0; reasons = reasons })

  -- Whenever the evaluation date is read, there is a decision; it allows the request exactly where
  -- the policy, the scopes, the delegation, the limit and the separation of actors permit it, and it
  -- refuses it with at least one reason.
  pub evaluate_authorization_iff :
      (current_time : Text) (request : AuthorizationRequest) (evaluated : ℤ)
      → parse_date (evaluation_date current_time request) ≡ some evaluated
      → (d : AuthorizationDecision) × (evaluate_authorization parse_date current_time request
          ≡ ok d)
        × ((d.allowed ≡ true) ↔ Permits request evaluated)
        × ((d.allowed ≡ true) ↔ (d.reasons ≡ []))
  unfolding evaluate_authorization
  evaluate_authorization_iff current_time request evaluated h =
      let reasons = denial_reasons parse_date request evaluated in
      let empty = length_zero_iff reasons in
      let permitted = reasons_iff request evaluated in
      (
        record { allowed = length reasons == 0; reasons = reasons },
        ap (λ (t : Result ℤ). t >>= decide request)
            (timestamp_found (evaluation_date current_time request) evaluated h),
        (λ a. permitted.0 (empty.0 a), λ p. empty.1 (permitted.1 p)),
        empty,
      )
