-- ===== src/Outbox/Relay.antt =====
-- What a round of `runBatch` does to the table, whatever the other workers run before it.
use pms_backend.Base.{
  ℕ, ◌+◌, ◌*◌, ◌^◌, ◌≤◌, min, ◌≡◌, refl, ap, true, false, none, some, List, [], ◌∷◌, map, All,
  length, length-take, arith, Bool-cases, inl, inr, if◌then◌else◌,
}
use pms_backend.Text.{Text, text_eq, text_eq_iff, text_eq_refl}
use pms_backend.Outbox.{
  OutboxEvent, claim_pending, is_owned, published_row, failed_row, mark_published, mark_failed,
  retry_at, safe_error_message, PublishOutcome, confirmed, error, other_value, OutboxRelay,
  is_confirmed, relay_one, Statement, run_statements,
}
use pms_backend.Outbox.Leases.{has}
use pms_backend.Outbox.Held.{HeldRow, Held, IsForeign, run_statements-Held, claim_pending-Held}

-- A row behind the round of its event: unlocked, and published at the time of the batch or due again
-- after a back-off that doubles with each of the first ten attempts and is an hour at most.
pub record SettledRow (relay : OutboxRelay) (now : ℕ) (r e after : OutboxEvent) : Type 0 where
  pub same_event : after.event_id ≡ e.event_id
  pub owner_cleared : after.locked_by ≡ none
  pub lease_cleared : after.locked_until ≡ none
  pub sent :
      is_confirmed (relay.publish r) ≡ true
      → (after.published_at ≡ some now)
        × (after.last_error ≡ none)
        × (after.publish_attempts ≡ e.publish_attempts)
  pub lost :
      is_confirmed (relay.publish r) ≡ false
      → (after.published_at ≡ e.published_at)
        × (after.publish_attempts ≡ e.publish_attempts + 1)
        × (after.available_at
            ≡ now + min (relay.retry_base_seconds * 2 ^ min r.publish_attempts 10) 3600 * 1000)
        × (reason : Text) × (after.last_error ≡ some reason)
        × (length reason ≤ 500)

-- The round changes the rows of its event, and no others.
abbrev pub Round : OutboxRelay → ℕ → OutboxEvent → List OutboxEvent → List OutboxEvent → Type 0
Round relay now r [] after = after ≡ []
Round relay now r (e ∷ events) [] = ⊥
Round relay now r (e ∷ events) (f ∷ after) =
    ((text_eq e.event_id r.event_id ≡ true → SettledRow relay now r e f)
      × (text_eq e.event_id r.event_id ≡ false → f ≡ e))
    × Round relay now r events after

short_reason : (o : PublishOutcome) → length (safe_error_message o) ≤ 500
unfolding safe_error_message
short_reason confirmed = omega arith
short_reason (error message) = omega (arith, length-take 500 message)
short_reason other_value = omega arith

owned_row :
    (worker : Text) (until : ℕ) (r e : OutboxEvent)
    → HeldRow r.event_id worker until e
    → text_eq e.event_id r.event_id ≡ true
    → is_owned worker r.event_id e ≡ true
unfolding is_owned
owned_row worker until r e h same =
    let (owner, _) = h same in
    let e_is : e.event_id ≡ r.event_id = (text_eq_iff e.event_id r.event_id).0 same in
    rw (e_is, owner, text_eq_refl r.event_id, text_eq_refl worker) refl

other_row :
    (worker : Text) (r e : OutboxEvent)
    → text_eq e.event_id r.event_id ≡ false
    → is_owned worker r.event_id e ≡ false
unfolding is_owned
other_row worker r e other = elim (Bool-cases (text_eq r.event_id e.event_id)) [
  | inr apart ↦ rw apart refl
  | inl same ↦
      let e_is : r.event_id ≡ e.event_id = (text_eq_iff r.event_id e.event_id).0 same in
      absurd (cc (ap (λ (t : Text). text_eq t r.event_id) e_is, text_eq_refl r.event_id, other))
]

module _ (relay : OutboxRelay) (now until : ℕ) (r : OutboxEvent) where
  sent_row :
      (e : OutboxEvent)
      → is_confirmed (relay.publish r) ≡ true
      → SettledRow relay now r e (published_row now e)
  unfolding published_row
  sent_row e yes_sent = record {
    same_event = refl;
    owner_cleared = refl;
    lease_cleared = refl;
    sent = λ _. (refl, refl, refl);
    lost = λ no_sent. absurd (cc (yes_sent, no_sent));
  }

  lost_row :
      (e : OutboxEvent)
      → is_confirmed (relay.publish r) ≡ false
      → SettledRow relay now r e (
          failed_row
            (retry_at now relay.retry_base_seconds r)
            (safe_error_message (relay.publish r))
            e)
  unfolding failed_row retry_at
  lost_row e no_sent = record {
    same_event = refl;
    owner_cleared = refl;
    lease_cleared = refl;
    sent = λ yes_sent. absurd (cc (yes_sent, no_sent));
    lost = λ _. (refl, refl, refl, safe_error_message (relay.publish r), refl, short_reason _);
  }

  marked-Round :
      (f : OutboxEvent → OutboxEvent) (events : List OutboxEvent)
      → ((e : OutboxEvent) → SettledRow relay now r e (f e))
      → Held r.event_id relay.worker_id until events
      → Round relay now r events
          (map (λ e. if is_owned relay.worker_id r.event_id e then f e else e) events)
  marked-Round f [] step h = refl
  marked-Round f (e ∷ events) step (h, k) = (
    (
      (λ same. rw (owned_row relay.worker_id until r e h same) (step e)),
      (λ other. rw (other_row relay.worker_id r e other) refl),
    ),
    marked-Round f events step k,
  )

  relay_one-Round :
      (events : List OutboxEvent)
      → Held r.event_id relay.worker_id until events
      → Round relay now r events (relay_one relay now r events)
  unfolding relay_one mark_published mark_failed
  relay_one-Round events h = elim (Bool-cases (is_confirmed (relay.publish r))) [
    | inl yes_sent ↦
        rw yes_sent (marked-Round (published_row now) events (λ e. sent_row e yes_sent) h)
    | inr no_sent ↦ rw no_sent (
        marked-Round
          (failed_row (retry_at now relay.retry_base_seconds r)
            (safe_error_message (relay.publish r)))
          events (λ e. lost_row e no_sent) h)
  ]

-- The round of a claimed event settles its row, and no other one, whatever ran since the claim: claims
-- of any worker before the lease has run out, marks by other workers, and the earlier rounds of the
-- batch. A confirmed event is published at the time of the batch; one that is not confirmed counts an
-- attempt more and is due again after its back-off, an hour at most; either row is unlocked.
pub relay_one-settles :
    (relay : OutboxRelay) (limit now : ℕ) (events : List OutboxEvent) (r : OutboxEvent)
    (statements : List Statement)
    → has r.event_id (claim_pending relay.worker_id relay.lease_seconds limit now events).0 ≡ true
    → All (IsForeign r.event_id relay.worker_id (now + relay.lease_seconds * 1000)) statements
    → let claimed = (claim_pending relay.worker_id relay.lease_seconds limit now events).1 in
      let table = run_statements statements claimed in
      Round relay now r table (relay_one relay now r table)
relay_one-settles relay limit now events r statements h foreign =
    let claimed = (claim_pending relay.worker_id relay.lease_seconds limit now events).1 in
    let until : ℕ = now + relay.lease_seconds * 1000 in
    relay_one-Round relay now until r (run_statements statements claimed) (
      run_statements-Held r.event_id relay.worker_id until statements claimed foreign
        (claim_pending-Held relay.worker_id relay.lease_seconds limit now events r.event_id h))
