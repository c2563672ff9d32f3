-- ===== src/Closing/Runs.antt =====
-- A closing as a sequence of steps: what can be reached, and what it has been through.
use pms_backend.Base.{
  ℕ, ◌+◌, ◌≤◌, ◌≡◌, refl, ap, sym, ◌∙◌, Bool, true, false, ◌||◌, not, ◌⊎◌, ◌↔◌, ◌≢◌, List, [], ◌∷◌,
  leb, ◌==◌, if◌then◌else◌, arith, subst, All, some_of, length, suc,
}
use pms_backend.Fault.{
  Result, ok, err, ◌>>◌, throw_if, cannot_advance, skipped_step, quality_missing,
}
use pms_backend.Text.{Text, includes, is_blank}
use pms_backend.Closing.{
  scope_freeze, data_import, quality_controls, reconciliations, asset_validation,
  exception_handling, reserve_dcr_simulations, finance_validation, risk_alm_validation,
  sharia_compliance_control, delegated_approval, run_locking, journal_generation,
  core_banking_credit, post_payment_reconciliation, statement_production, ClosingStep,
  period_opening, provisional_calculation, evidence_archiving, draft, closed,
  corrected_by_supplementary_run, ClosingWorkflowState, ClosingQualityEvidence,
  ClosingTransitionResult, status_by_step, step_name, index_of, known, known_index, status_at,
  is_finished, assert_quality_evidence, advance_closing_workflow, mark_closing_anomaly,
  mark_supplementary_correction,
}

pub index_of_lem : (s : ClosingStep) → known_index s ≡ ok (step_name s)
unfolding known index_of
index_of_lem period_opening = refl
index_of_lem scope_freeze = refl
index_of_lem data_import = refl
index_of_lem quality_controls = refl
index_of_lem reconciliations = refl
index_of_lem asset_validation = refl
index_of_lem provisional_calculation = refl
index_of_lem exception_handling = refl
index_of_lem reserve_dcr_simulations = refl
index_of_lem finance_validation = refl
index_of_lem risk_alm_validation = refl
index_of_lem sharia_compliance_control = refl
index_of_lem delegated_approval = refl
index_of_lem run_locking = refl
index_of_lem journal_generation = refl
index_of_lem core_banking_credit = refl
index_of_lem post_payment_reconciliation = refl
index_of_lem statement_production = refl
index_of_lem evidence_archiving = refl

last_step : (s : ClosingStep) → step_name s ≡ 18 → s ≡ evidence_archiving
last_step s h = ground arith

status_closed :
    (s : ClosingStep) → status_at status_by_step (step_name s) ≡ closed → s ≡ evidence_archiving
status_closed s h = ground arith

transition_shape {ℓ} :
    {T : Type ℓ} (blocked : Bool) (m n : ℕ) (q : Result (Unit {0})) (x r : T)
    → ((throw_if blocked cannot_advance
          >> (throw_if (not (m == n + 1)) skipped_step >> ((if leb 6 m then q else ok tt) >> ok x)))
        ≡ ok r)
      ↔ ((blocked ≡ false) × (m ≡ n + 1) × (6 ≤ m → q ≡ ok tt) × (r ≡ x))
transition_shape blocked m n (ok tt) x r = ground arith
transition_shape blocked m n (err e) x r = ground arith

-- Each advance moves to the next step: it is made exactly where the closing is not finished, the
-- target is the next step, and from the provisional calculation on the evidence is accepted.
pub advance_closing_workflow_iff :
    (state : ClosingWorkflowState) (t : ClosingStep) (e : ClosingQualityEvidence)
    (r : ClosingTransitionResult)
    → (advance_closing_workflow state t e ≡ ok r) ↔ (
        (state.is_cancelled || is_finished state.status ≡ false)
        × (step_name t ≡ step_name state.current_step + 1)
        × (6 ≤ step_name t → assert_quality_evidence e ≡ ok tt)
        × (r ≡ record {
          current_step = t;
          status = status_at status_by_step (step_name t);
          step_number = step_name t + 1;
          previous_step = state.current_step;
        }))
unfolding advance_closing_workflow
advance_closing_workflow_iff state t e r =
    rw (index_of_lem state.current_step, index_of_lem t, index_of_lem provisional_calculation)
      (transition_shape (state.is_cancelled || is_finished state.status) (step_name t)
        (step_name state.current_step) (assert_quality_evidence e) _ r)

accepted :
    (known_risks ids : List Text)
    → (some_of (λ id. is_blank id || not (includes known_risks id)) ids ≡ false)
      ↔ All (λ id. (is_blank id ≡ false) × (includes known_risks id ≡ true)) ids
accepted known_risks [] = ground arith
accepted known_risks (id ∷ ids) = ground (arith, accepted known_risks ids)

quality_shape :
    (green : Bool) (known_risks ids : List Text)
    → ((if green
          then ok tt
          else if length ids == 0
          then ok tt
          else throw_if
              (some_of (λ id. is_blank id || not (includes known_risks id)) ids)
              quality_missing)
        ≡ ok (tt {0}))
      ↔ ((green ≡ true) ⊎ All (λ id. (is_blank id ≡ false) × (includes known_risks id ≡ true)) ids)
quality_shape green known_risks [] = ground arith
quality_shape green known_risks (id ∷ ids) = ground (arith, accepted known_risks (id ∷ ids))

-- The evidence passes when the controls are green, or every blocking anomaly is named and accepted.
pub assert_quality_evidence_iff :
    (e : ClosingQualityEvidence)
    → (assert_quality_evidence e ≡ ok tt) ↔ (
        (e.quality_controls_green ≡ true)
        ⊎ All
            (λ id. (is_blank id ≡ false) × (includes e.accepted_risk_references id ≡ true))
            e.blocking_anomaly_ids)
unfolding assert_quality_evidence
assert_quality_evidence_iff e =
    quality_shape e.quality_controls_green e.accepted_risk_references e.blocking_anomaly_ids

-- A run of one closing: `Run es s` when the advances so far presented the evidence `es`, the last
-- one first, and the closing stands at `s`.
abbrev pub state_after : ClosingTransitionResult → ClosingWorkflowState
state_after r = record { current_step = r.current_step; status = r.status; is_cancelled = false }

abbrev pub opened : ClosingWorkflowState
opened = record { current_step = period_opening; status = draft; is_cancelled = false }

pub data Run : List ClosingQualityEvidence → ClosingWorkflowState → Type 0 where
  start : Run [] opened
  advanced :
      {es : List ClosingQualityEvidence} {s : ClosingWorkflowState} (t : ClosingStep)
      (e : ClosingQualityEvidence) (r : ClosingTransitionResult)
      → Run es s
      → advance_closing_workflow s t e ≡ ok r
      → Run (e ∷ es) (state_after r)
  flagged :
      {es : List ClosingQualityEvidence} {s s' : ClosingWorkflowState}
      → Run es s
      → mark_closing_anomaly s ≡ ok s'
      → Run es s'
  corrected :
      {es : List ClosingQualityEvidence} {s s' : ClosingWorkflowState}
      → Run es s
      → mark_supplementary_correction s ≡ ok s'
      → Run es s'

-- From the sixth advance on, the evidence was accepted.
abbrev pub Gated : List ClosingQualityEvidence → Type 0
Gated [] = Unit {0}
Gated (e ∷ es) = (6 ≤ suc (length es) → assert_quality_evidence e ≡ ok tt) × Gated es

-- What holds of a closing after `n` advances.
abbrev pub Stands : ℕ → ClosingWorkflowState → Type 0
Stands n s =
    (step_name s.current_step ≡ n)
    × (s.status ≡ closed → n ≡ 18)
    × (s.status ≡ corrected_by_supplementary_run → n ≡ 18)

flagged_keeps :
    (n : ℕ) (s s' : ClosingWorkflowState)
    → Stands n s
    → mark_closing_anomaly s ≡ ok s'
    → Stands n s'
unfolding mark_closing_anomaly
flagged_keeps n s s' st h = ground arith

corrected_keeps :
    (n : ℕ) (s s' : ClosingWorkflowState)
    → Stands n s
    → mark_supplementary_correction s ≡ ok s'
    → Stands n s'
unfolding mark_supplementary_correction
corrected_keeps n s s' st h = ground arith

status_uncorrected :
    (s : ClosingStep) → status_at status_by_step (step_name s) ≢ corrected_by_supplementary_run
status_uncorrected s h = ground arith

step-Stands :
    (t : ClosingStep) (n : ℕ)
    → step_name t ≡ n
    → Stands n (record {
      current_step = t;
      status = status_at status_by_step (step_name t);
      is_cancelled = false;
    })
step-Stands t n h =
    (h, λ c. sym h ∙ ap step_name (status_closed t c), λ c. absurd (status_uncorrected t c))

-- In every run, a closing stands at the step that the number of its advances says, none skipped or
-- repeated; every advance from the provisional calculation on presented accepted evidence; and a
-- closing is closed, or corrected after it, at the last step only.
pub run_invariant :
    {es : List ClosingQualityEvidence} {s : ClosingWorkflowState}
    → Run es s
    → Gated es × Stands (length es) s
run_invariant start = ground arith
run_invariant (advanced {es} {s} t e r run h) =
    let (g, st) = run_invariant run in
    let (at, _, _) = st in
    let (_, next, gate, done) = (advance_closing_workflow_iff s t e r).0 h in
    let here : step_name t ≡ suc (length es) = omega arith in
    (
      (λ late. gate (omega arith), g),
      subst (λ (u : ClosingTransitionResult). Stands (suc (length es)) (state_after u)) (sym done)
          (step-Stands t (suc (length es)) here),
    )
run_invariant (flagged run h) = let (g, st) = run_invariant run in (g, flagged_keeps _ _ _ st h)
run_invariant (corrected run h) = let (g, st) = run_invariant run in (g, corrected_keeps _ _ _ st h)
