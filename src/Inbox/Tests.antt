-- ===== src/Inbox/Tests.antt =====
-- A worker that handles one message, and one whose lease has run out.
use pms_backend.Base.{◌≡◌, refl, true, false, none, [], ◌∷◌, arith}
use pms_backend.Fault.{ok}
use pms_backend.Text.{Text, codes, text_eq}
use pms_backend.Inbox.{
  OutboxMessage, InboxTable, is_at, put, is_expired, first_attempt, next_attempt, begin_row, begin,
  complete, kept, abandon, handle,
}
use pms_backend.Inbox.Runs.{Claim, World, begins, completes, Reachable, starts, steps, empty_world}
use pms_backend.Inbox.Handling.{AtMostOnce, IsRun, reachable-AtMostOnce, handle-IsRun}

abbrev event : OutboxMessage
event = record { event_id = codes "e"; event_type = codes "t"; correlation_id = codes "c" }

abbrev consumer : Text
consumer = codes "reports"

abbrev begun : InboxTable
begun = (begin 5 consumer event (λ c k. none)).1

abbrev claim : Claim
claim = record { consumer = consumer; id = codes "e"; started = 5 }

abbrev working : World
working = record { now = 5; table = begun; running = claim ∷ []; done = [] }

abbrev finished : World
finished = record {
  now = 5;
  table = complete 5 consumer (codes "e") none begun;
  running = [];
  done = claim ∷ [];
}

acquired : begin 5 consumer event (λ c k. none) ≡ (true, begun)
unfolding begin begin_row
acquired = refl

working-Reachable : Reachable working
working-Reachable = steps (empty_world 5) working (starts 5) (begins consumer event begun acquired)

finished-Reachable : Reachable finished
finished-Reachable = steps working finished working-Reachable (completes claim [] [] none refl)

reachable-AtMostOnce_example : AtMostOnce finished consumer (codes "e")
reachable-AtMostOnce_example = reachable-AtMostOnce finished consumer (codes "e") finished-Reachable

handle-IsRun_example :
    IsRun (empty_world 5) event (handle 5 9 consumer event (ok none) (λ c k. none))
handle-IsRun_example =
    handle-IsRun (empty_world 5) 9 consumer event (ok none) (starts 5) (omega arith) (omega arith)
      tt

-- A second call is refused while the first one has its lease.
busy : (begin 7 consumer event begun).0 ≡ false
unfolding begin begin_row is_expired first_attempt put is_at text_eq
busy = refl

-- A call takes over behind the lease, and the first one's `abandon` deletes its row: a third begins
-- while the second has its lease.
taken_over : (begin 300000006 consumer event begun).0 ≡ true
unfolding begin begin_row is_expired first_attempt put is_at text_eq
taken_over = refl

deleted :
    (begin 300000007 consumer event
      (abandon consumer (codes "e") (begin 300000006 consumer event begun).1)).0
    ≡ true
unfolding begin begin_row is_expired first_attempt next_attempt put is_at text_eq abandon kept
deleted = refl
