-- ===== src/Outbox/Tests.antt =====
-- Two events, of which the broker confirms the first, and two workers.
use pms_backend.Base.{
  List, All, ℕ, ◌≡◌, ◌≤◌, refl, true, false, none, some, [], ◌∷◌, ◌++◌, arith, length,
  if◌then◌else◌,
}
use pms_backend.Base.Int.{pos}
use pms_backend.Fault.{ok}
use pms_backend.Number.{int}
use pms_backend.Text.{Text, codes, text_eq, includes}
use pms_backend.Outbox.{
  OutboxEvent, OutboxRelay, Statement, claim, publication, failure, run_statements, confirmed,
  error, is_pending, pending, goes_first, insert_ordered, ordered, candidates, locked, lock_all,
  returned, claim_pending, is_owned, published_row, failed_row, mark_published, mark_failed,
  retry_at, safe_error_message, relay_one, relay_all, batch_limit_of, run_batch,
}
use pms_backend.Outbox.Leases.{has, claim_pending-returns}
use pms_backend.Outbox.Held.{IsForeign, claim_pending-excludes}
use pms_backend.Outbox.Relay.{Round, relay_one-settles}

abbrev event : Text → ℕ → OutboxEvent
event id at = record {
  event_id = id;
  event_type = codes "t";
  available_at = at;
  created_at = at;
  publish_attempts = 0;
  published_at = none;
  locked_by = none;
  locked_until = none;
  last_error = none;
}

abbrev first : OutboxEvent
first = event (codes "a") 20

abbrev second : OutboxEvent
second = event (codes "b") 10

abbrev relay : OutboxRelay
relay = record {
  worker_id = codes "w";
  lease_seconds = 60;
  retry_base_seconds = 5;
  publish = λ e. if text_eq e.event_id (codes "a") then confirmed else error (codes "lost");
}

run_two :
    run_batch relay (int (pos 2)) 100 (λ _. []) (first ∷ second ∷ [])
    ≡ ok (
      record { published = codes "a" ∷ []; failed = codes "b" ∷ [] },
      record first { published_at = some 100 }
          ∷ record second {
            available_at = 5100;
            publish_attempts = 1;
            last_error = some (codes "lost");
          }
          ∷ [],
    )
unfolding run_batch batch_limit_of relay_all run_statements relay_one mark_published mark_failed
    published_row failed_row retry_at safe_error_message is_owned claim_pending candidates returned
    lock_all locked ordered insert_ordered goes_first pending is_pending text_eq includes
run_two = refl

mine_has : has (codes "b") (claim_pending (codes "w") 60 1 100 (first ∷ second ∷ [])).0 ≡ true
unfolding claim_pending candidates returned lock_all locked ordered insert_ordered goes_first
    pending is_pending text_eq includes
mine_has = refl

-- The other worker claims, and marks an event that it does not hold.
abbrev others : List Statement
others =
    claim (codes "v") 60 2 200
    ∷ publication (codes "v") (codes "b") 300
    ∷ failure (codes "w") (codes "a") 400 (codes "lost")
    ∷ []

foreign : All (IsForeign (codes "b") (codes "w") 60100) others
unfolding text_eq
foreign = (omega arith, (refl, (refl, tt)))

claim_pending-excludes_example :
    has
      (codes "b")
      (claim_pending
        (codes "v")
        60
        2
        60100
        (run_statements others (claim_pending (codes "w") 60 1 100 (first ∷ second ∷ [])).1)).0
    ≡ false
claim_pending-excludes_example =
    claim_pending-excludes (codes "w") (codes "v") 60 60 1 2 100 60100 (first ∷ second ∷ [])
      (codes "b") others foreign (omega arith) mine_has

relay_one-settles_example :
    let table =
      run_statements others (claim_pending (codes "w") 60 1 100 (first ∷ second ∷ [])).1 in
    Round relay 100 second table (relay_one relay 100 second table)
relay_one-settles_example =
    relay_one-settles relay 1 100 (first ∷ second ∷ []) second others mine_has foreign

two_pending : length (pending 100 ([] ++ second ∷ first ∷ [])) ≤ 2
unfolding pending is_pending
two_pending = omega arith

claim_pending-returns_example :
    has (codes "b") (claim_pending (codes "w") 60 2 100 (second ∷ first ∷ [])).0 ≡ true
claim_pending-returns_example =
    claim_pending-returns (codes "w") 60 2 100 [] (first ∷ []) second refl (omega arith) refl
      two_pending
