-- ===== src/Accounting/Acknowledgement.antt =====
-- The answers of the ledger to one event.
use pms_backend.Base.{ℕ, ◌+◌, ◌≤◌, ◌≡◌, List, [], ◌∷◌, arith, ◌==◌, if◌then◌else◌}
use pms_backend.Fault.{Result, ok, ◌>>=◌, >>=_returns}
use pms_backend.Accounting.{
  AccountingAcknowledgementState, acknowledged, rejected, retried, reversed, state_name,
  next_acknowledgement_state,
}

-- The actions on one event, one after another.
unfoldable pub acknowledge_all :
    AccountingAcknowledgementState
    → List AccountingAcknowledgementState
    → Result AccountingAcknowledgementState
acknowledge_all s [] = ok s
acknowledge_all s (a ∷ as') = do t ← next_acknowledgement_state s a; acknowledge_all t as'

-- How often an action occurs.
abbrev pub times : AccountingAcknowledgementState → List AccountingAcknowledgementState → ℕ
times a [] = 0
times a (b ∷ bs) = (if state_name a == state_name b then 1 else 0) + times a bs

-- 1 where two states have the same name, else 0.
abbrev pub same_as : AccountingAcknowledgementState → AccountingAcknowledgementState → ℕ
same_as a b = if state_name a == state_name b then 1 else 0

-- What a sequence of answers counts: rejections and retries, settlements, and what a reversal needs.
abbrev pub Answered :
    AccountingAcknowledgementState
    → List AccountingAcknowledgementState
    → AccountingAcknowledgementState
    → Type 0
Answered from actions to =
    (times rejected actions + same_as rejected from ≡ times retried actions + same_as rejected to)
    × (times acknowledged actions
          + times reversed actions
          + same_as acknowledged from
          + same_as reversed from
        ≡ same_as acknowledged to + same_as reversed to)
    × (same_as reversed to ≤ times retried actions + same_as retried from + same_as reversed from)

step-Answered :
    (s a : AccountingAcknowledgementState) (as' : List AccountingAcknowledgementState)
    (t u : AccountingAcknowledgementState)
    → next_acknowledgement_state s a ≡ ok t
    → Answered t as' u
    → Answered s (a ∷ as') u
unfolding next_acknowledgement_state
step-Answered s a as' t u h k = ground arith

-- Whatever the ledger answers, in any accepted order: every rejection but an open last one was
-- retried; an event is acknowledged or reversed at most once, and is then settled for good; and it
-- is reversed only behind a retry.
pub acknowledge_all-Answered :
    (s : AccountingAcknowledgementState) (as' : List AccountingAcknowledgementState)
    (u : AccountingAcknowledgementState)
    → acknowledge_all s as' ≡ ok u
    → Answered s as' u
unfolding acknowledge_all
acknowledge_all-Answered s [] u h = ground arith
acknowledge_all-Answered s (a ∷ as') u h =
    let (t, here, rest) = >>=_returns (next_acknowledgement_state s a) _ h in
    step-Answered s a as' t u here (acknowledge_all-Answered t as' u rest)
