-- ===== src/Inbox/Once.antt =====
-- A message has its effect once for each consumer.
use pms_backend.Base.{
  ℕ, ◌+◌, ◌≤◌, ltb, ◌≡◌, ◌⊎◌, inl, inr, refl, sym, ap, ◌∙◌, subst, Bool, true, false, ◌&&◌, Option,
  none, some, List, [], ◌∷◌, ◌++◌, arith, All, Bool-cases,
}
use pms_backend.Text.{Text, text_eq, text_eq_iff}
use pms_backend.Inbox.{
  OutboxMessage, InboxMessage, InboxTable, is_at, put, lease, is_expired, first_attempt,
  next_attempt, begin_row, begin, completed, complete, kept, abandon,
}
use pms_backend.Inbox.Runs.{
  Claim, World, InTime, Step, ticks, begins, duplicates, completes, abandons, crashes, Reachable,
  starts, steps, StandsBy, started_at, Stands, IsSound, started_at-append, empty_world,
}

same_key : (a b c k : Text) → is_at a b c k ≡ true → (a ≡ c) × (b ≡ k)
unfolding is_at
same_key a b c k h =
    let (x, y) = both (text_eq a c) (text_eq b k) h in
    ((text_eq_iff a c).0 x, (text_eq_iff b k).0 y)
  where
    both : (p q : Bool) → (p && q) ≡ true → (p ≡ true) × (q ≡ true)
    both p q h = ground arith

one_left : (a b : List ℕ) (s x : ℕ) → a ++ s ∷ b ≡ x ∷ [] → (a ≡ []) × (b ≡ [])
one_left [] b s x h = (refl, cc h)
one_left (y ∷ []) b s x h = absurd (cc h)
one_left (y ∷ z ∷ a) b s x h = absurd (cc h)

none_left : (a b : List ℕ) (s : ℕ) → a ++ s ∷ b ≡ [] → ⊥
none_left [] b s h = cc h
none_left (y ∷ a) b s h = cc h

not_running :
    (now started : ℕ) (running : List ℕ)
    → (running ≡ []) ⊎ (running ≡ started ∷ [])
    → All (λ s. now ≤ s + lease) running
    → ltb (started + lease) now ≡ true
    → running ≡ []
not_running now started running (inl e) t late = e
not_running now started running (inr e) t late =
    let (early, _) = subst (All (λ s. now ≤ s + lease)) e t in absurd (ground arith)

expired_row :
    (now : ℕ) (row : InboxMessage) (p : Option ℕ)
    → row.processed_at ≡ p
    → is_expired now row ≡ true
    → (p ≡ none) × (ltb (row.processing_started_at + lease) now ≡ true)
unfolding is_expired
expired_row now row none e h = (
  refl,
  subst (λ q. elim q [ some _ ↦ false | none ↦ ltb (row.processing_started_at + lease) now ] ≡ true)
      e h,
)
expired_row now row (some x) e h = absurd (
    cc (
      subst
        (λ q. elim q [ some _ ↦ false | none ↦ ltb (row.processing_started_at + lease) now ] ≡ true)
        e h))

-- A row that `begin` takes over.
taken_row-Stands :
    (now : ℕ) (row : InboxMessage) (p : Option ℕ) (running done : List ℕ)
    → row.processed_at ≡ p
    → StandsBy p row.processing_started_at running done
    → All (λ s. now ≤ s + lease) running
    → is_expired now row ≡ true
    → Stands (some (next_attempt now row)) (now ∷ running) done
unfolding next_attempt
taken_row-Stands now row none running done e (r, d) t late =
    let passed = (expired_row now row none e late).1 in
    let nothing = not_running now row.processing_started_at running r t passed in
    subst (λ q. StandsBy q now (now ∷ running) done) (sym e) (inr (ap (λ l. now ∷ l) nothing), d)
taken_row-Stands now row (some x) running done e s t late =
    absurd (cc ((expired_row now row (some x) e late).0))

-- `begin` that acquires the key of a row.
begin_row-Stands :
    (now : ℕ) (message : OutboxMessage) (row : Option InboxMessage) (running done : List ℕ)
    (after : Option InboxMessage)
    → Stands row running done
    → All (λ s. now ≤ s + lease) running
    → begin_row now message row ≡ (true, after)
    → Stands after (now ∷ running) done
unfolding begin_row first_attempt
begin_row-Stands now message none running done after (r, d) t h =
    subst (λ a. Stands a (now ∷ running) done) (ap (λ q. q.1) h) (inr (ap (λ l. now ∷ l) r), d)
begin_row-Stands now message (some row) running done after s t h =
    elim (Bool-cases (is_expired now row)) [
      | inl late ↦
          subst (λ a. Stands a (now ∷ running) done) (ap (λ q. q.1) (rw late at h))
            (taken_row-Stands now row row.processed_at running done refl s t late)
      | inr early ↦ absurd (cc (ap (λ q. q.0) (rw early at h)))
    ]

begin_row_refused :
    (now : ℕ) (message : OutboxMessage) (row after : Option InboxMessage)
    → begin_row now message row ≡ (false, after)
    → after ≡ row
unfolding begin_row
begin_row_refused now message none after h = absurd (cc h)
begin_row_refused now message (some row) after h = elim (Bool-cases (is_expired now row)) [
  | inl late ↦ absurd (cc (ap (λ q. q.0) (rw late at h)))
  | inr early ↦ sym (ap (λ q. q.1) (rw early at h))
]

-- The end of a call, for the row of its key and what runs there.
only_one :
    (p : Option ℕ) (started : ℕ) (a b done : List ℕ) (s : ℕ)
    → StandsBy p started (a ++ s ∷ b) done
    → (a ≡ []) × (b ≡ []) × (done ≡ []) × (p ≡ none)
only_one none started a b done s (inl r, d) = absurd (none_left a b s r)
only_one none started a b done s (inr r, d) =
    let (x, y) = one_left a b s started r in (x, y, d, refl)
only_one (some _) started a b done s (r, d) = absurd (none_left a b s r)

-- The row behind a `complete` and behind an `abandon`, where one call runs.
completed-Stands :
    (now : ℕ) (checksum : Option Text) (row : Option InboxMessage) (a b done : List ℕ) (s : ℕ)
    → Stands row (a ++ s ∷ b) done
    → Stands (completed now checksum row) (a ++ b) (s ∷ done)
unfolding completed
completed-Stands now checksum none a b done s (r, d) = absurd (none_left a b s r)
completed-Stands now checksum (some row) a b done s h =
    let (x, y, d, _) = only_one row.processed_at row.processing_started_at a b done s h in
    rw (x, y, d) (refl, (s, refl))

kept-Stands :
    (row : Option InboxMessage) (a b done : List ℕ) (s : ℕ)
    → Stands row (a ++ s ∷ b) done
    → Stands (kept row) (a ++ b) done
unfolding kept
kept-Stands none a b done s (r, d) = absurd (none_left a b s r)
kept-Stands (some row) a b done s h =
    let (x, y, d, p) = only_one row.processed_at row.processing_started_at a b done s h in
    rw (x, y, d, p) (refl, refl)

crashed-Stands :
    (row : Option InboxMessage) (a b done : List ℕ) (s : ℕ)
    → Stands row (a ++ s ∷ b) done
    → Stands row (a ++ b) done
crashed-Stands none a b done s (r, d) = absurd (none_left a b s r)
crashed-Stands (some row) a b done s h =
    let (x, y, d, p) = only_one row.processed_at row.processing_started_at a b done s h in
    rw (x, y, d, p) (inl refl, refl)

starts-InTime :
    (now : ℕ) (c k : Text) (claims : List Claim)
    → InTime now claims
    → All (λ s. now ≤ s + lease) (started_at c k claims)
unfolding started_at
starts-InTime now c k [] h = tt
starts-InTime now c k (x ∷ claims) h = elim (Bool-cases (is_at x.consumer x.id c k)) [
  | inl here ↦ rw here (h.0, starts-InTime now c k claims h.1)
  | inr there ↦ rw there (starts-InTime now c k claims h.1)
]

All-without :
    (P : Claim → Type 0) (a b : List Claim) (x : Claim) → All P (a ++ x ∷ b) → All P (a ++ b)
All-without P [] b x h = h.1
All-without P (y ∷ a) b x h = (h.0, All-without P a b x h.1)

-- The end of the call `x`, by what it does to the row of its key and to what is done.
abbrev Ends : (Option InboxMessage → Option InboxMessage) → (ℕ → List ℕ → List ℕ) → Type 0
Ends edit note =
    (row : Option InboxMessage) (a b done : List ℕ) (s : ℕ)
    → Stands row (a ++ s ∷ b) done
    → Stands (edit row) (a ++ b) (note s done)

split_here :
    (c k : Text) (a b : List Claim) (x : Claim)
    → is_at x.consumer x.id c k ≡ true
    → started_at c k (a ++ x ∷ b) ≡ started_at c k a ++ x.started ∷ started_at c k b
unfolding started_at
split_here c k a b x here = rw (started_at-append c k a (x ∷ b), here) refl

split_there :
    (c k : Text) (a b : List Claim) (x : Claim)
    → is_at x.consumer x.id c k ≡ false
    → started_at c k (a ++ x ∷ b) ≡ started_at c k (a ++ b)
unfolding started_at
split_there c k a b x there =
    rw (started_at-append c k a (x ∷ b), started_at-append c k a b, there) refl

finish_here :
    (edit : Option InboxMessage → Option InboxMessage) (note : ℕ → List ℕ → List ℕ)
    (ends : Ends edit note) (w : World) (x : Claim) (before after : List Claim) (c k : Text)
    → IsSound w
    → w.running ≡ before ++ x ∷ after
    → is_at x.consumer x.id c k ≡ true
    → Stands
        (edit (w.table x.consumer x.id))
        (started_at c k (before ++ after))
        (note x.started (started_at c k w.done))
unfolding started_at
finish_here edit note ends w x before after c k sound e here =
    let (u, v) = same_key x.consumer x.id c k here in
    rw (u, v, started_at-append c k before after)
      (ends (w.table c k) (started_at c k before) (started_at c k after) (started_at c k w.done)
        x.started
        (subst (λ l. Stands (w.table c k) l (started_at c k w.done))
          (ap (started_at c k) e ∙ split_here c k before after x here) (sound.keys c k)))

finish_there :
    (w : World) (x : Claim) (before after : List Claim) (c k : Text)
    → IsSound w
    → w.running ≡ before ++ x ∷ after
    → is_at x.consumer x.id c k ≡ false
    → Stands (w.table c k) (started_at c k (before ++ after)) (started_at c k w.done)
unfolding started_at
finish_there w x before after c k sound e there =
    subst (λ l. Stands (w.table c k) l (started_at c k w.done))
      (ap (started_at c k) e ∙ split_there c k before after x there) (sound.keys c k)

started_IsSound : (now : ℕ) → IsSound (empty_world now)
unfolding started_at
started_IsSound now = record { in_time = tt; keys = λ c k. (refl, refl) }

-- What `begin` leaves at a key, and what it answers for its own.
module _ (now : ℕ) (consumer : Text) (message : OutboxMessage) (table : InboxTable)
    (acquired : Bool) (after : InboxTable) (c k : Text) where
  begin-there :
      is_at consumer message.event_id c k ≡ false
      → begin now consumer message table ≡ (acquired, after)
      → after c k ≡ table c k
  unfolding begin put
  begin-there there h = sym (ap (λ q. q.1 c k) h) ∙ rw there refl

  begin-here :
      is_at consumer message.event_id c k ≡ true
      → begin now consumer message table ≡ (acquired, after)
      → after c k ≡ (begin_row now message (table c k)).1
  unfolding begin put
  begin-here here h =
      let (u, v) = same_key consumer message.event_id c k here in
      sym (ap (λ q. q.1 c k) h) ∙ rw (here, u, v) refl

  begin_row-begin :
      is_at consumer message.event_id c k ≡ true
      → begin now consumer message table ≡ (acquired, after)
      → begin_row now message (table c k) ≡ (acquired, (begin_row now message (table c k)).1)
  unfolding begin
  begin_row-begin here h =
      let (u, v) = same_key consumer message.event_id c k here in
      let first : (begin_row now message (table consumer message.event_id)).0 ≡ acquired =
        ap (λ q. q.0) h in
      let answer = rw (u, v) at first in ap (λ b. (b, (begin_row now message (table c k)).1)) answer

-- Behind a `begin` that acquires the message.
begin-IsSound :
    (w : World) (consumer : Text) (message : OutboxMessage) (table : InboxTable)
    → IsSound w
    → begin w.now consumer message w.table ≡ (true, table)
    → IsSound (record w {
      table = table;
      running = record { consumer = consumer; id = message.event_id; started = w.now } ∷ w.running;
    })
unfolding begin put started_at
begin-IsSound w consumer message table sound h = record {
  in_time = (omega arith, sound.in_time);
  keys = λ c k. elim (Bool-cases (is_at consumer message.event_id c k)) [
    | inl here ↦
        rw (here, begin-here w.now consumer message w.table true table c k here h)
          (begin_row-Stands w.now message (w.table c k) (started_at c k w.running)
            (started_at c k w.done) _ (sound.keys c k)
            (starts-InTime w.now c k w.running sound.in_time)
            (begin_row-begin w.now consumer message w.table true table c k here h))
    | inr there ↦
        rw (there, begin-there w.now consumer message w.table true table c k there h)
          (sound.keys c k)
  ];
}

refused-table :
    (w : World) (consumer : Text) (message : OutboxMessage) (table : InboxTable) (c k : Text)
    → begin w.now consumer message w.table ≡ (false, table)
    → table c k ≡ w.table c k
unfolding begin put
refused-table w consumer message table c k h =
    elim (Bool-cases (is_at consumer message.event_id c k)) [
      | inl here ↦
          begin-here w.now consumer message w.table false table c k here h
          ∙ begin_row_refused w.now message (w.table c k) _
              (begin_row-begin w.now consumer message w.table false table c k here h)
      | inr there ↦ begin-there w.now consumer message w.table false table c k there h
    ]

Step-IsSound : (w v : World) → IsSound w → Step w v → IsSound v
unfolding complete abandon put started_at
Step-IsSound w v sound (ticks now later t) = record { in_time = t; keys = sound.keys }
Step-IsSound w v sound (begins consumer message table h) =
    begin-IsSound w consumer message table sound h
Step-IsSound w v sound (duplicates consumer message table h) = record {
  in_time = sound.in_time;
  keys = λ c k. rw (refused-table w consumer message table c k h) (sound.keys c k);
}
Step-IsSound w v sound (completes x before after checksum e) = record {
  in_time =
      All-without (λ y. w.now ≤ y.started + lease) before after x
        (subst (InTime w.now) e sound.in_time);
  keys = λ c k. elim (Bool-cases (is_at x.consumer x.id c k)) [
    | inl here ↦ rw here (
        finish_here (completed w.now checksum) (λ s d. s ∷ d) (completed-Stands w.now checksum) w x
          before after c k sound e here)
    | inr there ↦ rw there (finish_there w x before after c k sound e there)
  ];
}
Step-IsSound w v sound (abandons x before after e) = record {
  in_time =
      All-without (λ y. w.now ≤ y.started + lease) before after x
        (subst (InTime w.now) e sound.in_time);
  keys = λ c k. elim (Bool-cases (is_at x.consumer x.id c k)) [
    | inl here ↦ rw here (finish_here kept (λ s d. d) kept-Stands w x before after c k sound e here)
    | inr there ↦ rw there (finish_there w x before after c k sound e there)
  ];
}
Step-IsSound w v sound (crashes x before after e) = record {
  in_time =
      All-without (λ y. w.now ≤ y.started + lease) before after x
        (subst (InTime w.now) e sound.in_time);
  keys = λ c k. elim (Bool-cases (is_at x.consumer x.id c k)) [
    | inl here ↦
        let (u, v) = same_key x.consumer x.id c k here in
        rw (u, v) at
          (finish_here (λ r. r) (λ s d. d) crashed-Stands w x before after c k sound e here)
    | inr there ↦ finish_there w x before after c k sound e there
  ];
}

pub reachable-IsSound : (w : World) → Reachable w → IsSound w
reachable-IsSound _ (starts now) = started_IsSound now
reachable-IsSound _ (steps w v r s) = Step-IsSound w v (reachable-IsSound w r) s
