-- ===== src/Closing/Consistency.antt =====
-- The runs that the tables record.
use pms_backend.Base.{
  some_injective, ◌≡◌, refl, ap, sym, subst, ◌∙◌, true, false, Bool-cases, inl, inr, some, List, [],
  ◌∷◌, ◌++◌, if◌then◌else◌, arith,
}
use pms_backend.Fault.{ok}
use pms_backend.Text.{Text, text_eq, text_eq_iff}
use pms_backend.Closing.{ClosingQualityEvidence, ClosingTransitionResult, advance_closing_workflow}
use pms_backend.Closing.Runs.{Run, advanced, state_after}
use pms_backend.Closing.Repository.{
  AdvanceClosingCommand, ClosingStepEvent, ClosingPeriod, Tables, find_event, find_period,
  update_period, advance_atomically,
}
use pms_backend.Closing.Replay.{recorded, tables_after, state_of, apply_parts, answer_cases}

-- The evidence of the events of one closing, the last one first.
abbrev evidence_of :
    Text → List ClosingQualityEvidence → List ClosingStepEvent → List ClosingQualityEvidence
evidence_of id before [] = before
evidence_of id before (e ∷ es) =
    if text_eq e.closing_id id
    then evidence_of id (e.evidence ∷ before) es
    else evidence_of id before es

-- Each closing stands where a run of its own events leads.
abbrev pub Consistent : Tables → Type 0
Consistent tables =
    (id : Text) (p : ClosingPeriod)
    → find_period id tables.periods ≡ some p
    → Run (evidence_of id [] tables.events) (state_of p)

evidence_of_snoc :
    (id : Text) (before : List ClosingQualityEvidence) (es : List ClosingStepEvent)
    (e : ClosingStepEvent)
    → evidence_of id before (es ++ (e ∷ [])) ≡ (
        if text_eq e.closing_id id
        then e.evidence ∷ evidence_of id before es
        else evidence_of id before es)
evidence_of_snoc id before [] e = refl
evidence_of_snoc id before (x ∷ es) e =
    ground (arith, evidence_of_snoc id (x.evidence ∷ before) es e, evidence_of_snoc id before es e)

module _ (id : Text) (r : ClosingTransitionResult) (x : ClosingPeriod)
    (ps : List ClosingPeriod) where
  find_past : text_eq x.closing_id id ≡ false → find_period id (x ∷ ps) ≡ find_period id ps
  unfolding find_period
  find_past h = rw (h) refl

  find_updated_here :
      text_eq x.closing_id id ≡ true
      → find_period id (update_period id r (x ∷ ps))
        ≡ some (record x { current_step = r.current_step; workflow_status = r.status })
  unfolding find_period update_period
  find_updated_here h = rw (h, h) refl

  find_updated_past :
      text_eq x.closing_id id ≡ false
      → find_period id (update_period id r (x ∷ ps)) ≡ find_period id (update_period id r ps)
  unfolding find_period update_period
  find_updated_past h = rw (h, h) refl

find_period_updated :
    (id : Text) (r : ClosingTransitionResult) (ps : List ClosingPeriod) (p q : ClosingPeriod)
    → find_period id ps ≡ some p
    → find_period id (update_period id r ps) ≡ some q
    → state_of q ≡ state_after r
unfolding find_period
find_period_updated id r [] p q h k = cc
find_period_updated id r (x ∷ ps) p q h k = elim (Bool-cases (text_eq x.closing_id id)) [
  | inl e ↦ ap state_of (sym (some_injective (sym (find_updated_here id r x ps e) ∙ k)))
  | inr e ↦
      find_period_updated id r ps p q (sym (find_past id r x ps e) ∙ h)
        (sym (find_updated_past id r x ps e) ∙ k)
]

find_period_kept :
    (id other_id : Text) (r : ClosingTransitionResult) (ps : List ClosingPeriod)
    → text_eq id other_id ≡ false
    → find_period other_id (update_period id r ps) ≡ find_period other_id ps
unfolding find_period update_period
find_period_kept id other_id r [] h = refl
find_period_kept id other_id r (x ∷ ps) h = ground (
  arith,
  find_period_kept id other_id r ps h,
  text_eq_iff x.closing_id id,
  text_eq_iff x.closing_id other_id,
  text_eq_iff id other_id,
)

applied-Consistent :
    (command : AdvanceClosingCommand) (tables : Tables) (r : ClosingTransitionResult)
    (p : ClosingPeriod)
    → Consistent tables
    → find_period command.closing_id tables.periods ≡ some p
    → advance_closing_workflow (state_of p) command.target_step command.evidence ≡ ok r
    → Consistent (tables_after command tables r)
applied-Consistent command tables r p good found moved id q at_id =
    let es = evidence_of_snoc id [] tables.events (recorded command r) in
    elim (Bool-cases (text_eq command.closing_id id)) [
      | inl this ↦
          let same_id = (text_eq_iff command.closing_id id).0 this in
          let here = ap (λ (i : Text). find_period i tables.periods) (sym same_id) ∙ found in
          let there =
            ap (λ (i : Text). find_period id (update_period i r tables.periods)) (sym same_id)
            ∙ at_id in
          let past = advanced command.target_step command.evidence r (good id p here) moved in
          rw (es, this, find_period_updated id r tables.periods p q here there) past
      | inr that ↦
          let there = sym (find_period_kept command.closing_id id r tables.periods that) ∙ at_id in
          rw (es, that) (good id q there)
    ]

-- A command keeps the tables consistent: every closing still stands where a run of its own events
-- leads, the event of the command included.
pub advance_atomically-Consistent :
    (command : AdvanceClosingCommand) (tables : Tables) {after : Tables}
    {r : ClosingTransitionResult}
    → Consistent tables
    → advance_atomically command tables ≡ ok (after, r)
    → Consistent after
unfolding advance_atomically
advance_atomically-Consistent command tables {after} {r} good h =
    elim (answer_cases command tables
      (find_event command.closing_id command.idempotency_key tables.events) h) [
        | inl (e, found, replayed, unchanged) ↦ subst Consistent (sym unchanged) good
        | inr (new, applied) ↦
            let (p, found, moved, done) = apply_parts command tables applied in
            subst Consistent (sym done) (applied-Consistent command tables r p good found moved)
      ]
