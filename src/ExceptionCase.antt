-- ===== src/ExceptionCase.antt =====
-- src/modules/exceptions/domain/exception-case.ts: the life of an exception.
pub mod History
mod Tests
use pms_backend.Base.{
  ℕ, Bool, true, false, ◌||◌, ◌&&◌, not, Option, none, some, List, [], ◌∷◌, ltb, ◌==◌, some_of,
  length, if◌then◌else◌,
}
use pms_backend.Fault.{
  Result, ok, err, ◌>>=◌, ◌>>◌, throw_if, exception_transition, exception_evidence, risk_reference,
}
use pms_backend.Text.{Text, trim, is_blank}

pub data ExceptionStatus : Type 0 where
  detected qualified assigned in_progress corrected controlled closed accepted_risk :
      ExceptionStatus

pub data ExceptionSeverity : Type 0 where
  low medium high critical : ExceptionSeverity

-- A number for each name: two names are the same text when their numbers are equal.
abbrev pub status_name : ExceptionStatus → ℕ
status_name detected = 0
status_name qualified = 1
status_name assigned = 2
status_name in_progress = 3
status_name corrected = 4
status_name controlled = 5
status_name closed = 6
status_name accepted_risk = 7

-- `transitions`
unfoldable pub transitions : ExceptionStatus → List ExceptionStatus
transitions detected = qualified ∷ []
transitions qualified = assigned ∷ []
transitions assigned = in_progress ∷ []
transitions in_progress = corrected ∷ []
transitions corrected = controlled ∷ []
transitions controlled = closed ∷ in_progress ∷ accepted_risk ∷ []
transitions closed = []
transitions accepted_risk = []

pub record ExceptionEvidence : Type 0 where
  pub actor_id : Text
  pub comment : Text
  pub risk_acceptance_reference : Option Text

pub record ExceptionTransition : Type 0 where
  pub status : ExceptionStatus
  pub evidence : ExceptionEvidence

abbrev pub is_accepted_risk : ExceptionStatus → Bool
is_accepted_risk accepted_risk = true
is_accepted_risk _ = false

-- `!evidence.riskAcceptanceReference?.trim()`
abbrev pub reference_absent : Option Text → Bool
reference_absent none = true
reference_absent (some r) = is_blank r

-- `transitionException`
unfoldable pub transition_exception :
    ExceptionStatus → ExceptionStatus → ExceptionEvidence → Result ExceptionTransition
unfolding transitions
transition_exception current target evidence = do
  throw_if (not (some_of (λ s. status_name s == status_name target) (transitions current)))
      exception_transition
  throw_if (is_blank evidence.actor_id || ltb (length (trim evidence.comment)) 10)
      exception_evidence
  throw_if (is_accepted_risk target && reference_absent evidence.risk_acceptance_reference)
      risk_reference
  ok (record { status = target; evidence = record evidence { comment = trim evidence.comment } })

abbrev pub is_critical : ExceptionSeverity → Bool
is_critical critical = true
is_critical _ = false

-- `blocksPublication`
unfoldable pub blocks_publication : ExceptionSeverity → ExceptionStatus → Bool
blocks_publication severity status =
    is_critical severity
    && not (some_of (λ s. status_name s == status_name status) (closed ∷ accepted_risk ∷ []))
