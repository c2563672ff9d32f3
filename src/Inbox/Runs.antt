-- ===== src/Inbox/Runs.antt =====
-- Runs of several workers on one inbox table: the statements of their calls of `handle` interleave,
-- and a worker may crash between two of them.
use pms_backend.Base.{
  ℕ, ◌+◌, ◌≤◌, ◌≡◌, ◌⊎◌, inl, inr, refl, true, false, Option, none, some, List, [], ◌∷◌, ◌++◌, All,
  if◌then◌else◌, Bool-cases,
}
use pms_backend.Text.{Text}
use pms_backend.Inbox.{
  OutboxMessage, InboxMessage, InboxTable, is_at, lease, begin, complete, abandon,
}

-- A call of `handle` between its `begin` and its end.
pub record Claim : Type 0 where
  pub consumer : Text
  pub id : Text
  pub started : ℕ

-- `done` lists the completed calls.
pub record World : Type 0 where
  pub now : ℕ
  pub table : InboxTable
  pub running : List Claim
  pub done : List Claim

abbrev pub InTime : ℕ → List Claim → Type 0
InTime now = All (λ (c : Claim). now ≤ c.started + lease)

-- A step of one worker, or of the clock, which passes the lease of no call that runs.
pub data Step (w : World) : World → Type 0 where
  ticks : (now : ℕ) → w.now ≤ now → InTime now w.running → Step w (record w { now = now })
  begins :
      (consumer : Text) (message : OutboxMessage) (table : InboxTable)
      → begin w.now consumer message w.table ≡ (true, table)
      → Step w (record w {
        table = table;
        running =
            record { consumer = consumer; id = message.event_id; started = w.now } ∷ w.running;
      })
  duplicates :
      (consumer : Text) (message : OutboxMessage) (table : InboxTable)
      → begin w.now consumer message w.table ≡ (false, table)
      → Step w (record w { table = table })
  completes :
      (c : Claim) (before after : List Claim) (checksum : Option Text)
      → w.running ≡ before ++ c ∷ after
      → Step w (record w {
        table = complete w.now c.consumer c.id checksum w.table;
        running = before ++ after;
        done = c ∷ w.done;
      })
  abandons :
      (c : Claim) (before after : List Claim)
      → w.running ≡ before ++ c ∷ after
      → Step w (record w { table = abandon c.consumer c.id w.table; running = before ++ after })
  crashes :
      (c : Claim) (before after : List Claim)
      → w.running ≡ before ++ c ∷ after
      → Step w (record w { running = before ++ after })

abbrev pub empty_world : ℕ → World
empty_world now = record { now = now; table = λ c k. none; running = []; done = [] }

-- The worlds that steps reach from an empty table.
pub data Reachable : World → Type 0 where
  starts : (now : ℕ) → Reachable (empty_world now)
  steps : (w v : World) → Reachable w → Step w v → Reachable v

-- When the claims of one key started.
unfoldable pub started_at : Text → Text → List Claim → List ℕ
started_at c k [] = []
started_at c k (claim ∷ claims) =
    let rest = started_at c k claims in
    if is_at claim.consumer claim.id c k then claim.started ∷ rest else rest

-- A row in progress: at most one call, which started when the row says. A processed row: one call is
-- done and none runs.
abbrev pub StandsBy : Option ℕ → ℕ → List ℕ → List ℕ → Type 0
StandsBy none started running done = ((running ≡ []) ⊎ (running ≡ started ∷ [])) × (done ≡ [])
StandsBy (some _) started running done = (running ≡ []) × ((start : ℕ) × (done ≡ start ∷ []))

-- At one key, what runs and what is done; without a row, nothing.
abbrev pub Stands : Option InboxMessage → List ℕ → List ℕ → Type 0
Stands none running done = (running ≡ []) × (done ≡ [])
Stands (some row) running done = StandsBy row.processed_at row.processing_started_at running done

pub record IsSound (w : World) : Type 0 where
  pub in_time : InTime w.now w.running
  pub keys : (c k : Text) → Stands (w.table c k) (started_at c k w.running) (started_at c k w.done)

pub started_at-append :
    (c k : Text) (a b : List Claim) → started_at c k (a ++ b) ≡ started_at c k a ++ started_at c k b
unfolding started_at
started_at-append c k [] b = refl
started_at-append c k (x ∷ a) b = elim (Bool-cases (is_at x.consumer x.id c k)) [
  | inl here ↦ rw (here, started_at-append c k a b) refl
  | inr there ↦ rw (there, started_at-append c k a b) refl
]
