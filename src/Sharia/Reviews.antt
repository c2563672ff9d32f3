-- ===== src/Sharia/Reviews.antt =====
-- Every decided case has been seen by three different people.
use pms_backend.Base.{
  ℕ, ◌≡◌, ◌≢◌, ◌≤◌, refl, ap, sym, subst, ◌∙◌, Bool, true, false, ◌||◌, not, Option, none, some,
  ltb, length, arith, some_injective,
}
use pms_backend.Fault.{
  Fault, ok, throw_if, >>=_returns, ok_injective, sharia_state, reviewer_is_maker,
  opinion_too_short, approver_not_distinct, justification_too_short, evidence_not_uuid,
}
use pms_backend.Text.{Text, text_eq, text_eq_iff, trim, is_blank}
use pms_backend.Text.Uuid.{is_uuid}
use pms_backend.Sharia.{
  ShariaReviewState, submitted, reviewed, approved, rejected, ShariaReviewSnapshot, is_submitted,
  is_reviewed, is_present_id, Decision, approve, reject, decided, review_sharia_case,
  decide_sharia_case,
}

-- A case that its maker submitted, without a review.
abbrev pub submission : Text → ShariaReviewSnapshot
submission maker = record {
  state = submitted;
  maker_id = maker;
  reviewer_id = none;
  approver_id = none;
  opinion = none;
  justification = none;
  evidence_document_id = none;
}

-- What can be reached from a submission.
pub data Reachable (maker : Text) : ShariaReviewSnapshot → Type 0 where
  start : Reachable maker (submission maker)
  after_review :
      (s t : ShariaReviewSnapshot) (reviewer opinion : Text)
      → Reachable maker s
      → review_sharia_case s reviewer opinion ≡ ok t
      → Reachable maker t
  after_decision :
      (s t : ShariaReviewSnapshot) (approver : Text) (decision : Decision)
      (justification document : Text)
      → Reachable maker s
      → decide_sharia_case s approver decision justification document ≡ ok t
      → Reachable maker t

-- A review by someone other than the maker, with an opinion.
abbrev pub IsReviewed : Text → ShariaReviewSnapshot → Type 0
IsReviewed maker s =
    (reviewer : Text) × (opinion : Text) × (s.reviewer_id ≡ some reviewer)
    × (s.opinion ≡ some opinion)
    × (reviewer ≢ maker)
    × (10 ≤ length opinion)

-- A decision by someone other than the maker and the reviewer, with its reasons and its evidence.
abbrev pub IsDecided : Text → ShariaReviewSnapshot → Type 0
IsDecided maker s =
    (approver : Text) × (justification : Text) × (document : Text) × (s.approver_id ≡ some approver)
    × (s.justification ≡ some justification)
    × (s.evidence_document_id ≡ some document)
    × (approver ≢ maker)
    × (s.reviewer_id ≢ some approver)
    × (10 ≤ length justification)
    × (is_uuid document ≡ true)

abbrev pub FourEyes : Text → ShariaReviewState → ShariaReviewSnapshot → Type 0
FourEyes maker submitted s = Unit {0}
FourEyes maker reviewed s = IsReviewed maker s
FourEyes maker approved s = IsReviewed maker s × IsDecided maker s
FourEyes maker rejected s = IsReviewed maker s × IsDecided maker s

differs : (a b : Text) → text_eq a b ≡ false → a ≢ b
differs a b h e = ground (arith, (text_eq_iff a b).1 e)

refused_or : (a b : Bool) (e : Fault) → throw_if (a || b) e ≡ ok tt → (a ≡ false) × (b ≡ false)
refused_or a b e h = ground arith

long_enough : (n : ℕ) (e : Fault) → throw_if (ltb n 10) e ≡ ok tt → 10 ≤ n
long_enough n e h = ground arith

passes : (b : Bool) (e : Fault) → throw_if (not b) e ≡ ok tt → b ≡ true
passes b e h = ground arith

at_reviewed : (s : ShariaReviewState) → is_reviewed s ≡ true → s ≡ reviewed
at_reviewed s h = ground arith

not_present : (o : Option Text) (id : Text) → is_present_id o id ≡ false → o ≢ some id
not_present none id h e = cc
not_present (some x) id h e = differs id x h (sym (some_injective e))

review-IsReviewed :
    (maker : Text) (s t : ShariaReviewSnapshot) (reviewer opinion : Text)
    → s.maker_id ≡ maker
    → review_sharia_case s reviewer opinion ≡ ok t
    → (t.maker_id ≡ maker) × FourEyes maker t.state t
unfolding review_sharia_case
review-IsReviewed maker s t reviewer opinion m h =
    let (_, a, h1) = >>=_returns (throw_if (not (is_submitted s.state)) sharia_state) _ h in
    let (_, b, h2) =
      >>=_returns (throw_if (is_blank reviewer || text_eq reviewer s.maker_id) reviewer_is_maker) _
        h1 in
    let (_, c, h3) =
      >>=_returns (throw_if (ltb (length (trim opinion)) 10) opinion_too_short) _ h2 in
    let (_, other_person) =
      refused_or (is_blank reviewer) (text_eq reviewer s.maker_id) reviewer_is_maker b in
    subst (λ (x : ShariaReviewSnapshot). (x.maker_id ≡ maker) × FourEyes maker x.state x)
      (ok_injective h3)
      (
        m,
        (
          reviewer,
          trim opinion,
          refl,
          refl,
          λ e. differs reviewer s.maker_id other_person (e ∙ sym m),
          long_enough (length (trim opinion)) opinion_too_short c,
        ),
      )

decided-FourEyes :
    (maker : Text) (d : Decision) (x : ShariaReviewSnapshot)
    → IsReviewed maker x
    → IsDecided maker x
    → FourEyes maker (decided d) x
decided-FourEyes maker approve x r e = (r, e)
decided-FourEyes maker reject x r e = (r, e)

decision-FourEyes :
    (maker : Text) (s t : ShariaReviewSnapshot) (approver : Text) (d : Decision)
    (justification document : Text)
    → s.maker_id ≡ maker
    → FourEyes maker s.state s
    → decide_sharia_case s approver d justification document ≡ ok t
    → (t.maker_id ≡ maker) × FourEyes maker t.state t
unfolding decide_sharia_case
decision-FourEyes maker s t approver d justification document m four h =
    let (_, a, h1) = >>=_returns (throw_if (not (is_reviewed s.state)) sharia_state) _ h in
    let (_, b, h2) =
      >>=_returns
        (throw_if
          (is_blank approver || text_eq approver s.maker_id || is_present_id s.reviewer_id approver)
          approver_not_distinct)
        _ h1 in
    let (_, c, h3) =
      >>=_returns (throw_if (ltb (length (trim justification)) 10) justification_too_short) _ h2 in
    let (_, u, h4) = >>=_returns (throw_if (not (is_uuid document)) evidence_not_uuid) _ h3 in
    let (b1, b2) =
      refused_or (is_blank approver || text_eq approver s.maker_id)
        (is_present_id s.reviewer_id approver) approver_not_distinct b in
    let (_, b3) =
      refused_or (is_blank approver) (text_eq approver s.maker_id) approver_not_distinct
        (ap (λ z. throw_if z approver_not_distinct) b1) in
    let review =
      subst (λ z. FourEyes maker z s)
        (at_reviewed s.state (passes (is_reviewed s.state) sharia_state a)) four in
    subst (λ (x : ShariaReviewSnapshot). (x.maker_id ≡ maker) × FourEyes maker x.state x)
      (ok_injective h4)
      (
        m,
        decided-FourEyes maker d _ review (
          approver,
          trim justification,
          document,
          refl,
          refl,
          refl,
          λ e. differs approver s.maker_id b3 (e ∙ sym m),
          not_present s.reviewer_id approver b2,
          long_enough (length (trim justification)) justification_too_short c,
          passes (is_uuid document) evidence_not_uuid u,
        ),
      )

-- In every case that can be reached from a submission, a review was made by someone other than the
-- maker with an opinion of ten characters or more, and a decision by someone other than the maker and
-- the reviewer, with a justification of ten characters or more and an evidence document.
pub reachable-FourEyes :
    (maker : Text) {s : ShariaReviewSnapshot}
    → Reachable maker s
    → (s.maker_id ≡ maker) × FourEyes maker s.state s
reachable-FourEyes maker start = (refl, tt)
reachable-FourEyes maker (after_review s t r o run h) =
    let (m, _) = reachable-FourEyes maker run in review-IsReviewed maker s t r o m h
reachable-FourEyes maker (after_decision s t a d j u run h) =
    let (m, four) = reachable-FourEyes maker run in decision-FourEyes maker s t a d j u m four h
