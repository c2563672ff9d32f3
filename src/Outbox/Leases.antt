-- ===== src/Outbox/Leases.antt =====
-- Which events a claim returns: in time every unpublished one.
use pms_backend.Base.{
  ℕ, zero, suc, ◌≤◌, ◌≡◌, refl, sym, ap, ◌∙◌, subst, Bool, true, false, ◌&&◌, ◌||◌, List, [], ◌∷◌,
  ◌++◌, arith, take, length, All, Bool-cases, inl, inr, leb, ltb,
}
use pms_backend.Text.{Text, text_eq, text_eq_iff, text_eq_refl, includes}
use pms_backend.Outbox.{
  OutboxEvent, ids_of, is_unset, lease_passed, is_pending, pending, insert_ordered, ordered,
  candidates, returned, claim_pending, goes_first,
}

or_swap : (a b c : Bool) → (a || (b || c)) ≡ (b || (a || c))
or_swap a b c = ground arith

or_parts : (a b : Bool) → (a || b) ≡ false → (a ≡ false) × (b ≡ false)
or_parts a b h = ground arith

or_false : {a b : Bool} → a ≡ false → b ≡ false → (a || b) ≡ false
or_false h k = ground arith

or_right : (a : Bool) {b : Bool} → b ≡ true → (a || b) ≡ true
or_right a h = ground arith

or_cases : (a b : Bool) → a ≡ false → (a || b) ≡ true → b ≡ true
or_cases a b h k = ground arith

pub not_after : (a b : ℕ) → b ≤ a → ltb a b ≡ false
not_after a b h = ground arith

pub not_both : (a b c : Bool) → c ≡ false → (a && (b && c)) ≡ false
not_both a b c h = ground arith

all_three : {a b c : Bool} → a ≡ true → b ≡ true → c ≡ true → (a && (b && c)) ≡ true
all_three h k l = ground arith

-- Has an id among the events.
abbrev pub has : Text → List OutboxEvent → Bool
has x events = includes (ids_of events) x

-- No event of an id is pending.
abbrev pub Blocked : ℕ → Text → List OutboxEvent → Type 0
Blocked now x = All (λ (e : OutboxEvent). text_eq e.event_id x ≡ true → is_pending now e ≡ false)

pub has-pending-Blocked :
    (now : ℕ) (x : Text) (events : List OutboxEvent)
    → Blocked now x events
    → has x (pending now events) ≡ false
unfolding pending includes
has-pending-Blocked now x [] h = refl
has-pending-Blocked now x (e ∷ events) h = elim (Bool-cases (is_pending now e)) [
  | inr idle ↦ rw idle (has-pending-Blocked now x events h.1)
  | inl waits ↦ elim (Bool-cases (text_eq e.event_id x)) [
    | inl same ↦ absurd (cc (h.0 same, waits))
    | inr other ↦ rw waits (or_false other (has-pending-Blocked now x events h.1))
  ]
]

has-insert_ordered :
    (x : Text) (e : OutboxEvent) (events : List OutboxEvent)
    → has x (insert_ordered e events) ≡ (text_eq e.event_id x || has x events)
unfolding insert_ordered includes
has-insert_ordered x e [] = refl
has-insert_ordered x e (f ∷ events) = elim (Bool-cases (goes_first f e)) [
  | inl first ↦
      rw (first, has-insert_ordered x e events)
        (or_swap (text_eq f.event_id x) (text_eq e.event_id x) (has x events))
  | inr second ↦ rw second refl
]

pub has-ordered : (x : Text) (events : List OutboxEvent) → has x (ordered events) ≡ has x events
unfolding ordered includes
has-ordered x [] = refl
has-ordered x (e ∷ events) =
    has-insert_ordered x e (ordered events)
    ∙ ap (λ b. text_eq e.event_id x || b) (has-ordered x events)

pub has-take :
    (x : Text) (n : ℕ) (events : List OutboxEvent)
    → has x events ≡ false
    → has x (take n events) ≡ false
unfolding includes
has-take x zero events h = refl
has-take x (suc n) [] h = refl
has-take x (suc n) (e ∷ events) h =
    let (a, b) = or_parts (text_eq e.event_id x) (has x events) h in
    or_false a (has-take x n events b)

pub has-returned-false :
    (worker : Text) (lease now : ℕ) (ids : List Text) (x : Text) (events : List OutboxEvent)
    → includes ids x ≡ false
    → has x (returned worker lease now ids events) ≡ false
unfolding returned includes
has-returned-false worker lease now ids x [] h = refl
has-returned-false worker lease now ids x (e ∷ events) h =
    let rest = has-returned-false worker lease now ids x events h in
    elim (Bool-cases (includes ids e.event_id)) [
      | inr out ↦ rw out rest
      | inl in_ids ↦ elim (Bool-cases (text_eq e.event_id x)) [
        | inl same ↦
            let e_is : e.event_id ≡ x = (text_eq_iff e.event_id x).0 same in
            absurd (cc (ap (includes ids) e_is, in_ids, h))
        | inr other ↦ rw in_ids (or_false other rest)
      ]
    ]

has-returned-true :
    (worker : Text) (lease now : ℕ) (ids : List Text) (x : Text) (events : List OutboxEvent)
    → includes ids x ≡ true
    → has x events ≡ true
    → has x (returned worker lease now ids events) ≡ true
unfolding returned includes
has-returned-true worker lease now ids x [] i h = h
has-returned-true worker lease now ids x (e ∷ events) i h =
    elim (Bool-cases (text_eq e.event_id x)) [
      | inl same ↦
          let e_is : e.event_id ≡ x = (text_eq_iff e.event_id x).0 same in
          let chosen : includes ids e.event_id ≡ true = ap (includes ids) e_is ∙ i in
          rw (chosen, same) refl
      | inr other ↦
          let rest =
            has-returned-true worker lease now ids x events i
              (or_cases (text_eq e.event_id x) (has x events) other h) in
          elim (Bool-cases (includes ids e.event_id)) [
            | inl chosen ↦ rw chosen (or_right (text_eq e.event_id x) rest)
            | inr out ↦ rw out rest
          ]
    ]

has-pending :
    (now : ℕ) (a b : List OutboxEvent) (e : OutboxEvent)
    → is_pending now e ≡ true
    → (has e.event_id (pending now (a ++ e ∷ b)) ≡ true) × (has e.event_id (a ++ e ∷ b) ≡ true)
unfolding pending includes
has-pending now [] b e h = (rw (h, text_eq_refl e.event_id) refl, rw (text_eq_refl e.event_id) refl)
has-pending now (f ∷ a) b e h =
    let (waits, there) = has-pending now a b e h in
    (
      elim (Bool-cases (is_pending now f)) [
        | inl yes_f ↦ rw yes_f (or_right (text_eq f.event_id e.event_id) waits)
        | inr no_f ↦ rw no_f waits
      ],
      or_right (text_eq f.event_id e.event_id) there,
    )

length-insert_ordered :
    (e : OutboxEvent) (events : List OutboxEvent)
    → length (insert_ordered e events) ≡ suc (length events)
unfolding insert_ordered
length-insert_ordered e [] = refl
length-insert_ordered e (f ∷ events) = ground (arith, length-insert_ordered e events)

length-ordered : (events : List OutboxEvent) → length (ordered events) ≡ length events
unfolding ordered
length-ordered [] = refl
length-ordered (e ∷ events) =
    length-insert_ordered e (ordered events) ∙ ap suc (length-ordered events)

take_whole : (n : ℕ) (events : List OutboxEvent) → length events ≤ n → take n events ≡ events
take_whole zero [] h = refl
take_whole zero (e ∷ events) h = absurd (omega arith)
take_whole (suc n) [] h = refl
take_whole (suc n) (e ∷ events) h = ap (λ l. e ∷ l) (take_whole n events (omega arith))

-- No event is left behind: one that is not published is returned by every claim after its next
-- attempt is due and its lease has run out, if the limit of the claim counts the events that wait.
pub claim_pending-returns :
    (worker : Text) (lease limit now : ℕ) (before after : List OutboxEvent) (e : OutboxEvent)
    → is_unset e.published_at ≡ true
    → e.available_at ≤ now
    → lease_passed e.locked_until now ≡ true
    → length (pending now (before ++ e ∷ after)) ≤ limit
    → has e.event_id (claim_pending worker lease limit now (before ++ e ∷ after)).0 ≡ true
unfolding claim_pending candidates is_pending
claim_pending-returns worker lease limit now before after e unset due passed enough =
    let events = before ++ e ∷ after in
    let waits = pending now events in
    let (chosen, there) =
      has-pending now before after e (all_three unset (due_now e now due) passed) in
    let whole : take limit (ordered waits) ≡ ordered waits =
      take_whole limit (ordered waits)
        (subst (λ n. n ≤ limit) (sym (length-ordered waits)) enough) in
    has-returned-true worker lease now (ids_of (take limit (ordered waits))) e.event_id events
      (rw (whole, has-ordered e.event_id waits) chosen) there
  where
    due_now : (e : OutboxEvent) (now : ℕ) → e.available_at ≤ now → leb e.available_at now ≡ true
    due_now e now h = ground arith
