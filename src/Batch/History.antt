-- ===== src/Batch/History.antt =====
-- The histories of a batch.
use pms_backend.Base.{◌≡◌, ◌≤◌, refl, List, [], ◌∷◌, length, arith}
use pms_backend.Fault.{ok}
use pms_backend.Batch.{
  CbsBatchState, received, authenticated, scanned, staged, validated, approved, published,
  assert_batch_transition,
}

-- The states that a batch has been in, the last one first.
pub data History : List CbsBatchState → CbsBatchState → Type 0 where
  arrived : History (received ∷ []) received
  moved :
      {past : List CbsBatchState} (from to : CbsBatchState)
      → History past from
      → assert_batch_transition from to ≡ ok tt
      → History (to ∷ past) to

-- On the way to publication there is one history; off it, no history is longer.
abbrev pub Follows : List CbsBatchState → CbsBatchState → Type 0
Follows past received = past ≡ received ∷ []
Follows past authenticated = past ≡ authenticated ∷ received ∷ []
Follows past scanned = past ≡ scanned ∷ authenticated ∷ received ∷ []
Follows past staged = past ≡ staged ∷ scanned ∷ authenticated ∷ received ∷ []
Follows past validated = past ≡ validated ∷ staged ∷ scanned ∷ authenticated ∷ received ∷ []
Follows past approved =
    past ≡ approved ∷ validated ∷ staged ∷ scanned ∷ authenticated ∷ received ∷ []
Follows past published =
    past ≡ published ∷ approved ∷ validated ∷ staged ∷ scanned ∷ authenticated ∷ received ∷ []
Follows past _ = length past ≤ 7

move-Follows :
    (past : List CbsBatchState) (from to : CbsBatchState)
    → Follows past from
    → assert_batch_transition from to ≡ ok tt
    → Follows (to ∷ past) to
unfolding assert_batch_transition
move-Follows past from to f h = ground arith

-- Every history follows the one way to publication: a published batch was authenticated, scanned,
-- staged, validated and approved, in this order and once each, and no history is longer.
history-Follows : {past : List CbsBatchState} {s : CbsBatchState} → History past s → Follows past s
history-Follows arrived = refl
history-Follows (moved {past} from to h e) = move-Follows past from to (history-Follows h) e
