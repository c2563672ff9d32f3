-- ===== src/Outbox/Held.antt =====
-- An event under a lease: no statement of another worker takes it away before the lease has run out.
use pms_backend.Base.{
  ℕ, ◌+◌, ◌*◌, ◌≤◌, ◌≡◌, refl, sym, ap, ◌∙◌, true, false, ◌&&◌, some, List, [], ◌∷◌, map, All,
  Bool-cases, inl, inr, if◌then◌else◌, ltb, leb,
}
use pms_backend.Text.{Text, text_eq, text_eq_iff, includes}
use pms_backend.Outbox.{
  OutboxEvent, is_unset, is_pending, pending, ordered, candidates, locked, lock_all, claim_pending,
  is_owned, published_row, failed_row, mark_published, mark_failed, Statement, claim, publication,
  failure, run_statement, run_statements,
}
use pms_backend.Outbox.Leases.{
  has, Blocked, not_both, not_after, has-pending-Blocked, has-ordered, has-take, has-returned-false,
}

-- A row of an event is locked by a worker until a time.
abbrev pub HeldRow : Text → Text → ℕ → OutboxEvent → Type 0
HeldRow x worker until e =
    text_eq e.event_id x ≡ true → (e.locked_by ≡ some worker) × (e.locked_until ≡ some until)

abbrev pub Held : Text → Text → ℕ → List OutboxEvent → Type 0
Held x worker until = All (HeldRow x worker until)

-- A statement that another worker may run: a claim before the lease has run out, or a mark of another
-- event or by another worker.
abbrev pub IsForeign : Text → Text → ℕ → Statement → Type 0
IsForeign x worker until (claim other lease limit now) = now ≤ until
IsForeign x worker until (publication other id at) = (text_eq id x && text_eq worker other) ≡ false
IsForeign x worker until (failure other id next_attempt reason) =
    (text_eq id x && text_eq worker other) ≡ false

row-Blocked :
    (x worker : Text) (until later : ℕ) (e : OutboxEvent)
    → HeldRow x worker until e
    → later ≤ until
    → text_eq e.event_id x ≡ true
    → is_pending later e ≡ false
unfolding is_pending
row-Blocked x worker until later e h l same =
    let (_, lease) = h same in
    rw lease (
      not_both (is_unset e.published_at) (leb e.available_at later) (ltb until later)
        (not_after until later l))

Held-Blocked :
    (x worker : Text) (until later : ℕ) (events : List OutboxEvent)
    → Held x worker until events
    → later ≤ until
    → Blocked later x events
Held-Blocked x worker until later [] h l = tt
Held-Blocked x worker until later (e ∷ events) (h, k) l =
    (row-Blocked x worker until later e h l, Held-Blocked x worker until later events k l)

-- A held event is no candidate.
candidates-Held :
    (x worker : Text) (until limit later : ℕ) (events : List OutboxEvent)
    → Held x worker until events
    → later ≤ until
    → includes (candidates limit later events) x ≡ false
unfolding candidates
candidates-Held x worker until limit later events h l =
    has-take x limit (ordered (pending later events)) (
      has-ordered x (pending later events)
      ∙ has-pending-Blocked later x events (Held-Blocked x worker until later events h l))

lock_all-Held :
    (worker : Text) (lease now : ℕ) (ids : List Text) (x : Text) (events : List OutboxEvent)
    → includes ids x ≡ true
    → Held x worker (now + lease * 1000) (lock_all worker lease now ids events)
unfolding lock_all locked
lock_all-Held worker lease now ids x [] h = tt
lock_all-Held worker lease now ids x (e ∷ events) h =
    let rest = lock_all-Held worker lease now ids x events h in
    elim (Bool-cases (includes ids e.event_id)) [
      | inl in_ids ↦ rw in_ids ((λ same. (refl, refl)), rest)
      | inr out ↦ rw out (
        (λ same.
            let e_is : e.event_id ≡ x = (text_eq_iff e.event_id x).0 same in
            absurd (cc (ap (includes ids) e_is, out, h))),
        rest,
      )
    ]

lock_all_other-Held :
    (x worker : Text) (until : ℕ) (other : Text) (lease now : ℕ) (ids : List Text)
    (events : List OutboxEvent)
    → includes ids x ≡ false
    → Held x worker until events
    → Held x worker until (lock_all other lease now ids events)
unfolding lock_all locked
lock_all_other-Held x worker until other lease now ids [] i h = tt
lock_all_other-Held x worker until other lease now ids (e ∷ events) i (h, k) =
    let rest = lock_all_other-Held x worker until other lease now ids events i k in
    elim (Bool-cases (includes ids e.event_id)) [
      | inr out ↦ rw out (h, rest)
      | inl in_ids ↦ rw in_ids (
        (λ same.
            let e_is : e.event_id ≡ x = (text_eq_iff e.event_id x).0 same in
            absurd (cc (ap (includes ids) e_is, in_ids, i))),
        rest,
      )
    ]

map-Held :
    (x worker : Text) (until : ℕ) (f : OutboxEvent → OutboxEvent) (events : List OutboxEvent)
    → ((e : OutboxEvent) → HeldRow x worker until e → HeldRow x worker until (f e))
    → Held x worker until events
    → Held x worker until (map f events)
map-Held x worker until f [] step h = tt
map-Held x worker until f (e ∷ events) step (h, k) =
    (step e h, map-Held x worker until f events step k)

-- A held row is owned by its worker alone.
owned_not :
    (x worker : Text) (until : ℕ) (other id : Text) (e : OutboxEvent)
    → (text_eq id x && text_eq worker other) ≡ false
    → HeldRow x worker until e
    → text_eq e.event_id x ≡ true
    → is_owned other id e ≡ false
unfolding is_owned
owned_not x worker until other id e foreign h same =
    let (owner, _) = h same in
    let e_is : e.event_id ≡ x = (text_eq_iff e.event_id x).0 same in rw (e_is, owner) foreign

mark-HeldRow :
    (x worker : Text) (until : ℕ) (other id : Text) (f : OutboxEvent → OutboxEvent)
    (e : OutboxEvent)
    → (text_eq id x && text_eq worker other) ≡ false
    → (f e).event_id ≡ e.event_id
    → HeldRow x worker until e
    → HeldRow x worker until (if is_owned other id e then f e else e)
mark-HeldRow x worker until other id f e foreign same_id h =
    elim (Bool-cases (is_owned other id e)) [
      | inr free ↦ rw free h
      | inl own ↦ rw own (λ same.
          let it : text_eq e.event_id x ≡ true =
            ap (λ (t : Text). text_eq t x) (sym same_id) ∙ same in
          absurd (cc (own, owned_not x worker until other id e foreign h it)))
    ]

run_statement-Held :
    (x worker : Text) (until : ℕ) (s : Statement) (events : List OutboxEvent)
    → IsForeign x worker until s
    → Held x worker until events
    → Held x worker until (run_statement s events)
unfolding run_statement claim_pending mark_published mark_failed published_row failed_row
run_statement-Held x worker until (claim other lease limit now) events l h =
    lock_all_other-Held x worker until other lease now (candidates limit now events) events
      (candidates-Held x worker until limit now events h l) h
run_statement-Held x worker until (publication other id at) events foreign h =
    map-Held x worker until _ events
      (λ e held. mark-HeldRow x worker until other id (published_row at) e foreign refl held) h
run_statement-Held x worker until (failure other id next_attempt reason) events foreign h =
    map-Held x worker until _ events
      (λ e held.
        mark-HeldRow x worker until other id (failed_row next_attempt reason) e foreign refl held)
      h

pub run_statements-Held :
    (x worker : Text) (until : ℕ) (statements : List Statement) (events : List OutboxEvent)
    → All (IsForeign x worker until) statements
    → Held x worker until events
    → Held x worker until (run_statements statements events)
unfolding run_statements
run_statements-Held x worker until [] events a h = h
run_statements-Held x worker until (s ∷ statements) events (f, a) h =
    run_statements-Held x worker until statements (run_statement s events) a
      (run_statement-Held x worker until s events f h)

-- What a claim returns is held on the table that it leaves.
pub claim_pending-Held :
    (worker : Text) (lease limit now : ℕ) (events : List OutboxEvent) (x : Text)
    → has x (claim_pending worker lease limit now events).0 ≡ true
    → Held x worker (now + lease * 1000) (claim_pending worker lease limit now events).1
unfolding claim_pending
claim_pending-Held worker lease limit now events x h =
    let ids = candidates limit now events in
    elim (Bool-cases (includes ids x)) [
      | inr out ↦ absurd (cc (has-returned-false worker lease now ids x events out, h))
      | inl mine ↦ lock_all-Held worker lease now ids x events mine
    ]

claim_pending-Held_not :
    (x worker : Text) (until : ℕ) (other : Text) (lease limit later : ℕ) (events : List OutboxEvent)
    → Held x worker until events
    → later ≤ until
    → has x (claim_pending other lease limit later events).0 ≡ false
unfolding claim_pending
claim_pending-Held_not x worker until other lease limit later events h l =
    has-returned-false other lease later (candidates limit later events) x events
      (candidates-Held x worker until limit later events h l)

-- What one claim returns, no later claim returns before the lease has run out, whoever makes it and
-- whatever runs in between: other claims before that time, and marks of other events or by workers
-- other than the one that holds the lease.
pub claim_pending-excludes :
    (first second : Text) (lease other_lease limit other_limit now later : ℕ)
    (events : List OutboxEvent) (x : Text) (statements : List Statement)
    → All (IsForeign x first (now + lease * 1000)) statements
    → later ≤ now + lease * 1000
    → has x (claim_pending first lease limit now events).0 ≡ true
    → let table = run_statements statements (claim_pending first lease limit now events).1 in
      has x (claim_pending second other_lease other_limit later table).0 ≡ false
claim_pending-excludes first second lease other_lease limit other_limit now later events x
      statements foreign l h =
    let until : ℕ = now + lease * 1000 in
    let table = (claim_pending first lease limit now events).1 in
    claim_pending-Held_not x first until second other_lease other_limit later
      (run_statements statements table)
      (run_statements-Held x first until statements table foreign
        (claim_pending-Held first lease limit now events x h))
      l
