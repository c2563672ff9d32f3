-- ===== src/Publisher/Settled.antt =====
-- Every promise of the publisher is pending or settled, never both and never settled twice.
use pms_backend.Base.{
  ℕ, suc, ◌+◌, ◌≡◌, refl, ap, ◌∙◌, Option, none, some, List, [], ◌∷◌, map, arith, All, ltb,
  Bool-cases, inl, inr, if◌then◌else◌, ◌==◌, some_injective,
}
use pms_backend.Text.{Text, text_eq}
use pms_backend.Publisher.{
  Settlement, resolved, rejected, PublisherState, find_pending, set_pending, delete_pending, finish,
  publish, reject_each, reject_all, Event, published, unsent, confirmed, failed, returned,
  channel_error, handle_event, run_events, new_publisher,
}

-- How often a promise is pending, and how often it is settled.
abbrev pub pending_times : ℕ → List (Text × ℕ) → ℕ
pending_times n [] = 0
pending_times n ((_, m) ∷ rest) = (if m == n then 1 else 0) + pending_times n rest

abbrev pub settled_times : ℕ → List (ℕ × Settlement) → ℕ
settled_times n [] = 0
settled_times n ((m, _) ∷ rest) = (if m == n then 1 else 0) + settled_times n rest

-- Each call so far has one promise, pending or settled; no other exists.
abbrev pub IsExact : PublisherState → Type 0
IsExact state =
    (n : ℕ)
    → pending_times n state.pending + settled_times n state.settled
      ≡ (if ltb n state.calls then 1 else 0)

swapped : (a b p q : ℕ) → p ≡ b + q → a + p ≡ b + (a + q)
swapped a b p q h = omega arith

regrouped : (p b q s t : ℕ) → p ≡ b + q → p + s ≡ t → q + (b + s) ≡ t
regrouped p b q s t h k = omega arith

-- One call more, whose promise is pending or settled.
one_call :
    (n calls p s : ℕ)
    → p + s ≡ (if ltb n calls then 1 else 0)
    → ((if calls == n then 1 else 0) + p + s ≡ (if ltb n (suc calls) then 1 else 0))
      × (p + ((if calls == n then 1 else 0) + s) ≡ (if ltb n (suc calls) then 1 else 0))
one_call n calls p s h = ground arith

no_call : (n : ℕ) → ◌≡◌ {A = ℕ} 0 (if ltb n 0 then 1 else 0)
no_call n = ground arith

moved_times :
    (id : Text) (n m : ℕ) (pending : List (Text × ℕ))
    → find_pending id pending ≡ some m
    → pending_times n pending
      ≡ (if m == n then 1 else 0) + pending_times n (delete_pending id pending)
unfolding find_pending delete_pending
moved_times id n m [] h = absurd (cc h)
moved_times id n m ((k, q) ∷ rest) h = elim (Bool-cases (text_eq k id)) [
  | inl same ↦
      let it : q ≡ m = some_injective (rw same at h) in
      rw same (ap (λ (x : ℕ). (if x == n then 1 else 0) + pending_times n rest) it)
  | inr other ↦ rw other (
      swapped (if q == n then 1 else 0) (if m == n then 1 else 0) (pending_times n rest)
        (pending_times n (delete_pending id rest)) (moved_times id n m rest (rw other at h)))
]

-- A key that is absent is added.
set_times :
    (id : Text) (n m : ℕ) (pending : List (Text × ℕ))
    → find_pending id pending ≡ none
    → pending_times n (set_pending id m pending)
      ≡ (if m == n then 1 else 0) + pending_times n pending
unfolding find_pending set_pending
set_times id n m [] h = refl
set_times id n m ((k, q) ∷ rest) h = elim (Bool-cases (text_eq k id)) [
  | inl same ↦ absurd (cc (rw same at h))
  | inr other ↦ rw other (
      swapped (if q == n then 1 else 0) (if m == n then 1 else 0)
        (pending_times n (set_pending id m rest)) (pending_times n rest)
        (set_times id n m rest (rw other at h)))
]

found_finish :
    (s : Settlement) (id : Text) (state : PublisherState) (found : Option ℕ)
    → find_pending id state.pending ≡ found
    → IsExact state
    → IsExact (elim found [
      | none ↦ state
      | some n ↦ record state {
        pending = delete_pending id state.pending;
        settled = (n, s) ∷ state.settled;
      }
    ])
found_finish s id state none e h = h
found_finish s id state (some m) e h = λ n.
    regrouped (pending_times n state.pending) (if m == n then 1 else 0)
      (pending_times n (delete_pending id state.pending)) (settled_times n state.settled) _
      (moved_times id n m state.pending e) (h n)

finish-IsExact :
    (s : Settlement) (id : Text) (state : PublisherState)
    → IsExact state
    → IsExact (finish s id state)
unfolding finish
finish-IsExact s id state h = found_finish s id state (find_pending id state.pending) refl h

found_publish :
    (id : Text) (state : PublisherState) (found : Option ℕ)
    → find_pending id state.pending ≡ found
    → IsExact state
    → IsExact (elim found [
      | some _ ↦ record state {
        settled = (state.calls, rejected) ∷ state.settled;
        calls = suc state.calls;
      }
      | none ↦ record state {
        pending = set_pending id state.calls state.pending;
        calls = suc state.calls;
      }
    ])
found_publish id state none e h = λ n.
    ap (◌+ settled_times n state.settled) (set_times id n state.calls state.pending e)
    ∙ (one_call n state.calls (pending_times n state.pending) (settled_times n state.settled)
        (h n)).0
found_publish id state (some m) e h = λ n.
    (one_call n state.calls (pending_times n state.pending) (settled_times n state.settled) (h n)).1

publish-IsExact : (id : Text) (state : PublisherState) → IsExact state → IsExact (publish id state)
unfolding publish
publish-IsExact id state h = found_publish id state (find_pending id state.pending) refl h

reject_each-IsExact :
    (ids : List Text) (state : PublisherState) → IsExact state → IsExact (reject_each ids state)
unfolding reject_each
reject_each-IsExact [] state h = h
reject_each-IsExact (id ∷ ids) state h =
    reject_each-IsExact ids (finish rejected id state) (finish-IsExact rejected id state h)

-- The channel takes the message of every call.
abbrev pub IsTaken : Event → Type 0
IsTaken (unsent id) = ⊥
IsTaken _ = Unit {0}

handle_event-IsExact :
    (e : Event) (state : PublisherState)
    → IsTaken e
    → IsExact state
    → IsExact (handle_event e state)
unfolding handle_event reject_all
handle_event-IsExact (published id) state t h = publish-IsExact id state h
handle_event-IsExact (unsent id) state t h = absurd t
handle_event-IsExact (confirmed id) state t h = finish-IsExact resolved id state h
handle_event-IsExact (failed id) state t h = finish-IsExact rejected id state h
handle_event-IsExact (returned none) state t h = h
handle_event-IsExact (returned (some id)) state t h = finish-IsExact rejected id state h
handle_event-IsExact channel_error state t h =
    reject_each-IsExact (map (λ (p : Text × ℕ). p.0) state.pending) state h

run_from-IsExact :
    (events : List Event) (state : PublisherState)
    → All IsTaken events
    → IsExact state
    → IsExact (run_events events state)
unfolding run_events
run_from-IsExact [] state t h = h
run_from-IsExact (e ∷ events) state t h =
    run_from-IsExact events (handle_event e state) t.1 (handle_event-IsExact e state t.0 h)

-- After any sequence of calls of `publish` whose messages the channel takes, and of answers of the
-- broker, in whatever order, each call has exactly one promise that is pending or settled: none is
-- lost, and none is settled twice.
pub run_events-IsExact :
    (events : List Event) → All IsTaken events → IsExact (run_events events new_publisher)
run_events-IsExact events t = run_from-IsExact events new_publisher t (λ n. no_call n)
