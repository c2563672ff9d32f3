-- ===== src/Batch.antt =====
-- src/modules/cbs-ingestion/domain/batch-state.ts: the states of a core banking batch.
pub mod History
mod Tests
use pms_backend.Base.{ℕ, Bool, not, List, [], ◌∷◌, ◌==◌, some_of}
use pms_backend.Fault.{Result, throw_if, batch_transition}

pub data CbsBatchState : Type 0 where
  received authenticated scanned staged validated approved published : CbsBatchState
  quarantined rejected partially_rejected failed cancelled : CbsBatchState

-- A number for each name: two names are the same text when their numbers are equal.
abbrev pub batch_name : CbsBatchState → ℕ
batch_name received = 0
batch_name authenticated = 1
batch_name scanned = 2
batch_name staged = 3
batch_name validated = 4
batch_name approved = 5
batch_name published = 6
batch_name quarantined = 7
batch_name rejected = 8
batch_name partially_rejected = 9
batch_name failed = 10
batch_name cancelled = 11

-- `transitions`
unfoldable pub transitions : CbsBatchState → List CbsBatchState
transitions received = authenticated ∷ rejected ∷ failed ∷ cancelled ∷ []
transitions authenticated = scanned ∷ quarantined ∷ failed ∷ cancelled ∷ []
transitions scanned = staged ∷ quarantined ∷ failed ∷ cancelled ∷ []
transitions staged = validated ∷ rejected ∷ partially_rejected ∷ failed ∷ cancelled ∷ []
transitions validated = approved ∷ rejected ∷ partially_rejected ∷ cancelled ∷ []
transitions approved = published ∷ failed ∷ cancelled ∷ []
transitions _ = []

-- `assertBatchTransition`
unfoldable pub assert_batch_transition : CbsBatchState → CbsBatchState → Result (Unit {0})
unfolding transitions
assert_batch_transition from to =
    throw_if (not (some_of (λ s. batch_name s == batch_name to) (transitions from)))
      batch_transition
