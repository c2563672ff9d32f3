-- ===== src/Publisher.antt =====
-- src/infrastructure/messaging/rabbitmq-event-publisher.adapter.ts: the promises of
-- `RabbitMqEventPublisher` between a call of `publish` and what the broker answers. A promise is the
-- number of its call; the channel itself is a source of events.
pub mod Settled
mod Tests
use pms_backend.Base.{
  ℕ, suc, ◌+◌, Bool, true, false, Option, none, some, List, [], ◌∷◌, map, if◌then◌else◌,
}
use pms_backend.Text.{Text, text_eq}

-- How a promise is settled.
pub data Settlement : Type 0 where
  resolved rejected : Settlement

-- `pending`, by the order of insertion, the settled promises, and the number of the next call.
pub record PublisherState : Type 0 where
  pub pending : List (Text × ℕ)
  pub settled : List (ℕ × Settlement)
  pub calls : ℕ

-- `this.pending.get(eventId)`
unfoldable pub find_pending : Text → List (Text × ℕ) → Option ℕ
find_pending id [] = none
find_pending id ((k, n) ∷ rest) = if text_eq k id then some n else find_pending id rest

-- `this.pending.delete(eventId)`
unfoldable pub delete_pending : Text → List (Text × ℕ) → List (Text × ℕ)
delete_pending id [] = []
delete_pending id ((k, n) ∷ rest) =
    let others = delete_pending id rest in if text_eq k id then rest else (k, n) ∷ others

-- `this.pending.set(eventId, …)`: a key that is present keeps its place and gets the new promise.
unfoldable pub set_pending : Text → ℕ → List (Text × ℕ) → List (Text × ℕ)
set_pending id n [] = (id, n) ∷ []
set_pending id n ((k, m) ∷ rest) =
    let others = set_pending id n rest in if text_eq k id then (k, n) ∷ rest else (k, m) ∷ others

-- `finishConfirmed` and `finishRejected`, by the settlement.
unfoldable pub finish : Settlement → Text → PublisherState → PublisherState
unfolding find_pending delete_pending
finish s id state = elim (find_pending id state.pending) [
  | none ↦ state
  | some n ↦ record state {
    pending = delete_pending id state.pending;
    settled = (n, s) ∷ state.settled;
  }
]

-- `publish`: an event that awaits its confirmation is refused at once.
unfoldable pub publish : Text → PublisherState → PublisherState
unfolding find_pending set_pending
publish id state = elim (find_pending id state.pending) [
  | some _ ↦ record state {
    settled = (state.calls, rejected) ∷ state.settled;
    calls = suc state.calls;
  }
  | none ↦ record state {
    pending = set_pending id state.calls state.pending;
    calls = suc state.calls;
  }
]

-- `publish` where `channel.publish` throws, as it does on a closed channel: the executor rejects the
-- promise, and its entry stays in `pending`.
unfoldable pub publish_unsent : Text → PublisherState → PublisherState
unfolding find_pending set_pending
publish_unsent id state = elim (find_pending id state.pending) [
  | some _ ↦ record state {
    settled = (state.calls, rejected) ∷ state.settled;
    calls = suc state.calls;
  }
  | none ↦ record {
    pending = set_pending id state.calls state.pending;
    settled = (state.calls, rejected) ∷ state.settled;
    calls = suc state.calls;
  }
]

unfoldable pub reject_each : List Text → PublisherState → PublisherState
unfolding finish
reject_each [] state = state
reject_each (id ∷ ids) state = reject_each ids (finish rejected id state)

-- `rejectAll`
unfoldable pub reject_all : PublisherState → PublisherState
unfolding reject_each
reject_all state = reject_each (map (λ (p : Text × ℕ). p.0) state.pending) state

-- A call of `publish`, which the channel takes or throws at; the confirmation behind its
-- `setImmediate`, or the error, that the broker answers; a returned message, with its `messageId` if
-- it has one; and an error of the channel.
pub data Event : Type 0 where
  published : Text → Event
  unsent : Text → Event
  confirmed : Text → Event
  failed : Text → Event
  returned : Option Text → Event
  channel_error : Event

unfoldable pub handle_event : Event → PublisherState → PublisherState
unfolding publish publish_unsent finish reject_all
handle_event (published id) state = publish id state
handle_event (unsent id) state = publish_unsent id state
handle_event (confirmed id) state = finish resolved id state
handle_event (failed id) state = finish rejected id state
handle_event (returned none) state = state
handle_event (returned (some id)) state = finish rejected id state
handle_event channel_error state = reject_all state

-- The events in their order.
unfoldable pub run_events : List Event → PublisherState → PublisherState
unfolding handle_event
run_events [] state = state
run_events (e ∷ events) state = run_events events (handle_event e state)

abbrev pub new_publisher : PublisherState
new_publisher = record { pending = []; settled = []; calls = 0 }
