-- ===== src/ExceptionCase/History.antt =====
-- What an exception went through before it stops blocking a publication.
use pms_backend.Base.{
  ◌≡◌, ◌≤◌, ◌⊎◌, refl, subst, Bool, true, false, ◌||◌, ◌&&◌, not, Option, none, some, List, [], ◌∷◌,
  length, All, arith, ltb, ◌==◌, some_of,
}
use pms_backend.Fault.{
  ok, throw_if, >>=_returns, ok_injective, exception_transition, exception_evidence, risk_reference,
}
use pms_backend.Text.{Text, trim, is_blank}
use pms_backend.ExceptionCase.{
  ExceptionStatus, detected, qualified, assigned, in_progress, corrected, controlled, closed,
  accepted_risk, status_name, transitions, ExceptionEvidence, ExceptionTransition, is_accepted_risk,
  reference_absent, transition_exception,
}

-- The transitions of one exception, the last one first.
pub data History : List ExceptionTransition → ExceptionStatus → Type 0 where
  found : History [] detected
  moved :
      {past : List ExceptionTransition} (s t : ExceptionStatus) (e : ExceptionEvidence)
      (r : ExceptionTransition)
      → History past s
      → transition_exception s t e ≡ ok r
      → History (r ∷ past) t

-- Every recorded transition names an actor and carries a comment of ten characters or more.
abbrev pub IsDocumented : ExceptionTransition → Type 0
IsDocumented r = (is_blank r.evidence.actor_id ≡ false) × (10 ≤ length r.evidence.comment)

-- The work that a status stands for, back to the detection of the exception.
abbrev pub Worked : List ExceptionTransition → ExceptionStatus → Type 0
Worked [] s = s ≡ detected
Worked (r ∷ past) detected = ⊥
Worked (r ∷ past) qualified = (r.status ≡ qualified) × Worked past detected
Worked (r ∷ past) assigned = (r.status ≡ assigned) × Worked past qualified
Worked (r ∷ past) in_progress =
    (r.status ≡ in_progress) × (Worked past assigned ⊎ Worked past controlled)
Worked (r ∷ past) corrected = (r.status ≡ corrected) × Worked past in_progress
Worked (r ∷ past) controlled = (r.status ≡ controlled) × Worked past corrected
Worked (r ∷ past) closed = (r.status ≡ closed) × Worked past controlled
Worked (r ∷ past) accepted_risk = (r.status ≡ accepted_risk) × Worked past controlled

-- A risk is accepted with a reference only.
abbrev pub IsReferenced : ExceptionTransition → Type 0
IsReferenced r =
    r.status ≡ accepted_risk
    → (ref : Text) × (r.evidence.risk_acceptance_reference ≡ some ref) × (is_blank ref ≡ false)

abbrev pub is_allowed : ExceptionStatus → ExceptionStatus → Bool
is_allowed s t = some_of (λ u. status_name u == status_name t) (transitions s)

documented_shape :
    (actor comment : Text)
    → throw_if (is_blank actor || ltb (length (trim comment)) 10) exception_evidence ≡ ok tt
    → (is_blank actor ≡ false) × (10 ≤ length (trim comment))
documented_shape actor comment h = ground arith

referenced_shape :
    (t : ExceptionStatus) (o : Option Text)
    → throw_if (is_accepted_risk t && reference_absent o) risk_reference ≡ ok tt
    → t ≡ accepted_risk
    → (ref : Text) × (o ≡ some ref) × (is_blank ref ≡ false)
referenced_shape t none h e = absurd (ground arith)
referenced_shape t (some ref) h e = (ref, refl, ground arith)

allowed_shape : (b : Bool) → throw_if (not b) exception_transition ≡ ok tt → b ≡ true
allowed_shape b h = ground arith

transition_parts :
    (s t : ExceptionStatus) (e : ExceptionEvidence) (r : ExceptionTransition)
    → transition_exception s t e ≡ ok r
    → (is_allowed s t ≡ true) × (r.status ≡ t) × IsDocumented r × IsReferenced r
unfolding transition_exception
transition_parts s t e r h =
    let (_, a, h1) = >>=_returns (throw_if (not (is_allowed s t)) exception_transition) _ h in
    let (_, b, h2) =
      >>=_returns
        (throw_if (is_blank e.actor_id || ltb (length (trim e.comment)) 10) exception_evidence) _
        h1 in
    let (_, c, h3) =
      >>=_returns
        (throw_if (is_accepted_risk t && reference_absent e.risk_acceptance_reference)
          risk_reference)
        _ h2 in
    subst
      (λ (x : ExceptionTransition).
        (is_allowed s t ≡ true) × (x.status ≡ t) × IsDocumented x × IsReferenced x)
      (ok_injective h3)
      (
        allowed_shape (is_allowed s t) a,
        refl,
        documented_shape e.actor_id e.comment b,
        referenced_shape t e.risk_acceptance_reference c,
      )

move-Worked :
    (past : List ExceptionTransition) (s t : ExceptionStatus) (r : ExceptionTransition)
    → is_allowed s t ≡ true
    → r.status ≡ t
    → Worked past s
    → Worked (r ∷ past) t
unfolding transitions
move-Worked past s t r a h w = ground arith

-- In every history each transition is documented, an accepted risk has a reference, and a status has
-- its work behind it, back to the detection: a case is qualified, assigned and then worked on, it is
-- controlled only after it was in progress and corrected, in this order, it goes back to work only
-- once it was controlled, and it is closed, or its risk accepted, only right after it was controlled.
pub history-Worked :
    {past : List ExceptionTransition} {s : ExceptionStatus}
    → History past s
    → Worked past s × All (λ r. IsDocumented r × IsReferenced r) past
history-Worked found = (refl, tt)
history-Worked (moved {past} s t e r run h) =
    let (w, all) = history-Worked run in
    let (a, st, d, f) = transition_parts s t e r h in (move-Worked past s t r a st w, ((d, f), all))
