-- ===== src/ExceptionCase/Tests.antt =====
-- An exception at concrete inputs.
use pms_backend.Base.{◌≡◌, refl, false, none, List, [], ◌∷◌, All}
use pms_backend.Fault.{err, risk_reference}
use pms_backend.Text.{codes, trim, is_blank}
use pms_backend.ExceptionCase.{
  ExceptionStatus, detected, qualified, assigned, in_progress, corrected, controlled, closed,
  accepted_risk, critical, transitions, ExceptionEvidence, ExceptionTransition,
  transition_exception, blocks_publication,
}
use pms_backend.ExceptionCase.History.{
  History, found, moved, Worked, IsDocumented, IsReferenced, history-Worked,
}

unfoldable handling : Unit {0}
unfolding trim is_blank transitions transition_exception blocks_publication
handling = tt

abbrev evidence : ExceptionEvidence
evidence = record {
  actor_id = codes "u";
  comment = codes "checked it twice";
  risk_acceptance_reference = none;
}

abbrev to : ExceptionStatus → ExceptionTransition
to s = record { status = s; evidence = evidence }

unreferenced_refused : transition_exception controlled accepted_risk evidence ≡ err risk_reference
unfolding handling
unreferenced_refused = refl

abbrev past : List ExceptionTransition
past = to closed ∷ to controlled ∷ to corrected ∷ to in_progress ∷ to assigned ∷ to qualified ∷ []

run : History past closed
unfolding handling
run =
    moved controlled closed evidence (to closed)
      (moved corrected controlled evidence (to controlled)
        (moved in_progress corrected evidence (to corrected)
          (moved assigned in_progress evidence (to in_progress)
            (moved qualified assigned evidence (to assigned)
              (moved detected qualified evidence (to qualified) found refl) refl)
            refl)
          refl)
        refl)
      refl

no_longer_blocks : blocks_publication critical closed ≡ false
unfolding handling
no_longer_blocks = refl

history-Worked_example : Worked past closed × All (λ r. IsDocumented r × IsReferenced r) past
history-Worked_example = history-Worked run
