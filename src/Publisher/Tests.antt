-- ===== src/Publisher/Tests.antt =====
-- An event that the broker returns and then confirms, and a second call for it in between.
use pms_backend.Base.{List, ◌≡◌, refl, some, [], ◌∷◌}
use pms_backend.Text.{codes, text_eq}
use pms_backend.Publisher.{
  Event, published, confirmed, returned, resolved, rejected, find_pending, set_pending,
  delete_pending, finish, publish, publish_unsent, unsent, handle_event, run_events, new_publisher,
}
use pms_backend.Publisher.Settled.{IsExact, run_events-IsExact}

abbrev events : List Event
events =
    published (codes "e")
    ∷ published (codes "e")
    ∷ returned (some (codes "e"))
    ∷ confirmed (codes "e")
    ∷ published (codes "e")
    ∷ confirmed (codes "e")
    ∷ []

-- The second call is refused, the return settles the first one, and the confirmation behind it
-- comes too late.
run_settled : run_events events new_publisher ≡ record {
  pending = [];
  settled = (2, resolved) ∷ (0, rejected) ∷ (1, rejected) ∷ [];
  calls = 3;
}
unfolding run_events handle_event publish finish find_pending set_pending delete_pending text_eq
run_settled = refl

run_events-IsExact_example : IsExact (run_events events new_publisher)
run_events-IsExact_example = run_events-IsExact events (tt, (tt, (tt, (tt, (tt, (tt, tt))))))

-- A call at which the channel throws blocks its event: every later call is refused.
blocked :
    run_events
      (unsent (codes "e") ∷ published (codes "e") ∷ published (codes "e") ∷ [])
      new_publisher
    ≡ record {
      pending = (codes "e", 0) ∷ [];
      settled = (2, rejected) ∷ (1, rejected) ∷ (0, rejected) ∷ [];
      calls = 3;
    }
unfolding run_events handle_event publish publish_unsent find_pending set_pending text_eq
blocked = refl
