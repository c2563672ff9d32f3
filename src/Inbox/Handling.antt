-- ===== src/Inbox/Handling.antt =====
-- What the runs tell of a message, and that a call of `handle` is a run.
use pms_backend.Base.{
  ℕ, ◌+◌, ◌≤◌, ◌≡◌, ◌≢◌, ◌⊎◌, inl, inr, refl, Bool, true, false, Option, none, some, List, [], ◌∷◌,
  arith, length, if◌then◌else◌,
}
use pms_backend.Fault.{Result, ok, err}
use pms_backend.Text.{Text}
use pms_backend.Inbox.{
  OutboxMessage, InboxMessage, InboxTable, lease, is_expired, begin_row, begin, complete, abandon,
  Handled, processed, duplicate, handle,
}
use pms_backend.Inbox.Runs.{
  Claim, World, InTime, ticks, begins, duplicates, completes, abandons, Reachable, steps,
  started_at, Stands, StandsBy,
}
use pms_backend.Inbox.Once.{reachable-IsSound}

-- One message of one consumer in a world.
pub record AtMostOnce (w : World) (c k : Text) : Type 0 where
  pub one_running : length (started_at c k w.running) ≤ 1
  pub one_done : length (started_at c k w.done) ≤ 1
  pub none_running : started_at c k w.done ≢ [] → started_at c k w.running ≡ []
  pub no_other :
      (now : ℕ) (message : OutboxMessage)
      → message.event_id ≡ k
      → started_at c k w.done ≢ []
      → (begin now c message w.table).0 ≡ false

stands_row :
    (p : Option ℕ) (started : ℕ) (running done : List ℕ)
    → StandsBy p started running done
    → (length running ≤ 1) × (length done ≤ 1) × (done ≢ [] → running ≡ [])
stands_row none started running done (inl r, d) = rw (r, d) (omega arith, omega arith, λ h. refl)
stands_row none started running done (inr r, d) =
    rw (r, d) (omega arith, omega arith, λ h. absurd (h refl))
stands_row (some _) started running done (r, (s, d)) =
    rw (r, d) (omega arith, omega arith, λ h. refl)

stands_lem :
    (row : Option InboxMessage) (running done : List ℕ)
    → Stands row running done
    → (length running ≤ 1) × (length done ≤ 1) × (done ≢ [] → running ≡ [])
stands_lem none running done (r, d) = rw (r, d) (omega arith, omega arith, λ h. refl)
stands_lem (some row) running done h =
    stands_row row.processed_at row.processing_started_at running done h

not_expired :
    (now : ℕ) (row : InboxMessage) (p : Option ℕ) (running done : List ℕ)
    → row.processed_at ≡ p
    → StandsBy p row.processing_started_at running done
    → done ≢ []
    → is_expired now row ≡ false
unfolding is_expired
not_expired now row none running done e (r, d) h = absurd (h d)
not_expired now row (some x) running done e s h = rw e refl

begin_row_done :
    (now : ℕ) (message : OutboxMessage) (row : Option InboxMessage) (running done : List ℕ)
    → Stands row running done
    → done ≢ []
    → (begin_row now message row).0 ≡ false
unfolding begin_row
begin_row_done now message none running done (r, d) h = absurd (h d)
begin_row_done now message (some row) running done s h =
    rw (not_expired now row row.processed_at running done refl s h) refl

-- In every run in which no call outlasts its lease, whatever the order of the workers' statements is
-- and whichever of them crash, at most one call of `handle` is at work on a message of a consumer
-- and at most one is completed; once one is, none is at work and `begin` refuses every other.
pub reachable-AtMostOnce : (w : World) (c k : Text) → Reachable w → AtMostOnce w c k
unfolding begin
reachable-AtMostOnce w c k r =
    let stands = (reachable-IsSound w r).keys c k in
    let (one, once, idle) = stands_lem (w.table c k) _ _ stands in
    record {
      one_running = one;
      one_done = once;
      none_running = idle;
      no_other = λ now message e h. rw e (begin_row_done now message (w.table c k) _ _ stands h);
    }

-- What a call of `handle` answers and leaves, as a run.
abbrev pub IsRun : World → OutboxMessage → Result Handled × InboxTable → Type 0
IsRun w message (answer, table) =
    (v : World) × Reachable v
    × (v.table ≡ table)
    × (v.running ≡ w.running)
    × (((answer ≡ ok processed) × ((c : Claim) × (c.id ≡ message.event_id) × (v.done ≡ c ∷ w.done)))
        ⊎ ((answer ≢ ok processed) × (v.done ≡ w.done)))

module _ (w : World) (later : ℕ) (consumer : Text) (message : OutboxMessage) where
  abbrev claim : Claim
  claim = record { consumer = consumer; id = message.event_id; started = w.now }

  -- The world while the effect runs, and the one at its end.
  abbrev begun : InboxTable → World
  begun started = record w { table = started; running = claim ∷ w.running }

  abbrev waited : InboxTable → World
  waited started = record w { now = later; table = started; running = claim ∷ w.running }

  waited-Reachable :
      (started : InboxTable)
      → Reachable w
      → w.now ≤ later
      → later ≤ w.now + lease
      → InTime later w.running
      → begin w.now consumer message w.table ≡ (true, started)
      → Reachable (waited started)
  waited-Reachable started r a b t e =
      steps (begun started) (waited started)
        (steps w (begun started) r (begins consumer message started e)) (ticks later a (b, t))

  effect-IsRun :
      (effect : Result (Option Text)) (started : InboxTable)
      → Reachable (waited started)
      → IsRun w message (elim effect [
        | ok checksum ↦ (ok processed, complete later consumer message.event_id checksum started)
        | err fault ↦ (err fault, abandon consumer message.event_id started)
      ])
  effect-IsRun (ok checksum) started r = (
    _,
    steps (waited started) _ r (completes claim [] w.running checksum refl),
    refl,
    refl,
    inl (refl, (claim, refl, refl)),
  )
  effect-IsRun (err fault) started r = (
    _,
    steps (waited started) _ r (abandons claim [] w.running refl),
    refl,
    refl,
    inr ((λ h. absurd (cc h)), refl),
  )

  handled-IsRun :
      (effect : Result (Option Text)) (acquired : Bool) (started : InboxTable)
      → Reachable w
      → w.now ≤ later
      → later ≤ w.now + lease
      → InTime later w.running
      → begin w.now consumer message w.table ≡ (acquired, started)
      → IsRun w message (
          if acquired
          then elim effect [
            | ok checksum ↦
                (ok processed, complete later consumer message.event_id checksum started)
            | err fault ↦ (err fault, abandon consumer message.event_id started)
          ]
          else (ok duplicate, started))
  handled-IsRun effect true started r a b t e =
      effect-IsRun effect started (waited-Reachable started r a b t e)
  handled-IsRun effect false started r a b t e = (
    record w { table = started },
    steps w (record w { table = started }) r (duplicates consumer message started e),
    refl,
    refl,
    inr ((λ h. absurd (cc h)), refl),
  )

-- A call of `handle` in a reachable world, of which the effect ends in time for all that runs, is a
-- run: it leads to a reachable world with the table that it leaves, in which the same calls are at
-- work, and the call is among the completed ones exactly if it answers that it has processed.
pub handle-IsRun :
    (w : World) (later : ℕ) (consumer : Text) (message : OutboxMessage)
    (effect : Result (Option Text))
    → Reachable w
    → w.now ≤ later
    → later ≤ w.now + lease
    → InTime later w.running
    → IsRun w message (handle w.now later consumer message effect w.table)
unfolding handle
handle-IsRun w later consumer message effect r a b t =
    handled-IsRun w later consumer message effect (begin w.now consumer message w.table).0
      (begin w.now consumer message w.table).1 r a b t refl
