-- ===== src/Closing/Controls.antt =====
-- src/modules/closing-workflow/domain/closing-controls.ts: what blocks a closing.
use pms_backend.Base.{
  ℕ, ◌<◌, ◌≡◌, refl, Bool, true, Option, none, some, List, [], ◌∷◌, ◌++◌, ◌↔◌, ltb, ◌==◌,
  if◌then◌else◌, arith, length,
}
use pms_backend.Base.Int.{pos}
use pms_backend.Fault.{Result, ok, err, ◌>>=◌, invalid_count}
use pms_backend.Number.{Number, int, num}

-- `missing` and `unresolved` are `none` where the property is absent.
pub record ClosingControlCounts : Type 0 where
  pub pending_cbs_batches : Number
  pub failed_cbs_batches : Number
  pub unapproved_calculation_runs : Number
  pub approved_calculation_runs : Number
  pub missing_required_reconciliations : Option Number
  pub unresolved_reconciliation_discrepancies : Option Number

pub data Blocker : Type 0 where
  cbs_batches_pending cbs_batches_failed calculations_not_approved no_approved_calculation
        required_reconciliations_missing reconciliation_discrepancies_open :
      Blocker

pub record ClosingControlDecision : Type 0 where
  pub passed : Bool
  pub blockers : List Blocker

-- `if (!Number.isInteger(value) || value < 0) throw …`
unfoldable pub valid_count : Number → Result ℕ
valid_count (int (pos n)) = ok n
valid_count _ = err invalid_count

-- `value ?? 0`, which only a present value is checked for.
unfoldable pub optional_count : Option Number → Result ℕ
unfolding valid_count
optional_count none = ok 0
optional_count (some n) = valid_count n

-- `if (test) blockers.push(blocker)`
abbrev pub push_if : Bool → Blocker → List Blocker
push_if test blocker = if test then blocker ∷ [] else []

-- `evaluateClosingControls`
unfoldable pub evaluate_closing_controls : ClosingControlCounts → Result ClosingControlDecision
unfolding optional_count
evaluate_closing_controls counts = do
  pending ← valid_count counts.pending_cbs_batches
  failed ← valid_count counts.failed_cbs_batches
  unapproved ← valid_count counts.unapproved_calculation_runs
  approved_runs ← valid_count counts.approved_calculation_runs
  missing ← optional_count counts.missing_required_reconciliations
  unresolved ← optional_count counts.unresolved_reconciliation_discrepancies
  let blockers =
      push_if (ltb 0 pending) cbs_batches_pending
      ++ (push_if (ltb 0 failed) cbs_batches_failed
          ++ (push_if (ltb 0 unapproved) calculations_not_approved
              ++ (push_if (approved_runs == 0) no_approved_calculation
                  ++ (push_if (ltb 0 missing) required_reconciliations_missing
                      ++ push_if (ltb 0 unresolved) reconciliation_discrepancies_open))))
  ok (record { passed = length blockers == 0; blockers = blockers })

abbrev option_num : Option ℕ → Option Number
option_num none = none
option_num (some n) = some (num n)

-- A count that is a natural number.
abbrev pub counts_of : ℕ → ℕ → ℕ → ℕ → Option ℕ → Option ℕ → ClosingControlCounts
counts_of pending failed unapproved approved missing unresolved = record {
  pending_cbs_batches = num pending;
  failed_cbs_batches = num failed;
  unapproved_calculation_runs = num unapproved;
  approved_calculation_runs = num approved;
  missing_required_reconciliations = option_num missing;
  unresolved_reconciliation_discrepancies = option_num unresolved;
}

abbrev pub or_zero : Option ℕ → ℕ
or_zero none = 0
or_zero (some n) = n

-- On natural counts the controls always give a decision, and it passes exactly where nothing is
-- pending, failed, unapproved, missing or unresolved and some calculation is approved.
evaluate_closing_controls_iff :
    (pending failed unapproved approved : ℕ) (missing unresolved : Option ℕ)
    → (d : ClosingControlDecision) × (evaluate_closing_controls
          (counts_of pending failed unapproved approved missing unresolved)
        ≡ ok d)
      × ((d.passed ≡ true) ↔ (
          (pending ≡ 0)
          × (failed ≡ 0)
          × (unapproved ≡ 0)
          × (0 < approved)
          × (or_zero missing ≡ 0)
          × (or_zero unresolved ≡ 0)))
      × ((d.passed ≡ true) ↔ (d.blockers ≡ []))
unfolding evaluate_closing_controls
evaluate_closing_controls_iff pending failed unapproved approved none none =
    (_, refl, ground arith, ground arith)
evaluate_closing_controls_iff pending failed unapproved approved none (some u) =
    (_, refl, ground arith, ground arith)
evaluate_closing_controls_iff pending failed unapproved approved (some m) none =
    (_, refl, ground arith, ground arith)
evaluate_closing_controls_iff pending failed unapproved approved (some m) (some u) =
    (_, refl, ground arith, ground arith)
