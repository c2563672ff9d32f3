-- ===== src/Batch/Tests.antt =====
-- A batch at concrete inputs.
use pms_backend.Base.{◌≡◌, refl, List, [], ◌∷◌}
use pms_backend.Fault.{err, batch_transition}
use pms_backend.Batch.{
  CbsBatchState, received, authenticated, scanned, staged, published, cancelled, transitions,
  assert_batch_transition,
}
use pms_backend.Batch.History.{History, arrived, moved}

published_stays : assert_batch_transition published cancelled ≡ err batch_transition
unfolding transitions assert_batch_transition
published_stays = refl

abbrev past : List CbsBatchState
past = staged ∷ scanned ∷ authenticated ∷ received ∷ []

run : History past staged
unfolding transitions assert_batch_transition
run =
    moved scanned staged
      (moved authenticated scanned (moved received authenticated arrived refl) refl) refl
