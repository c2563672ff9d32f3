-- ===== src/Audit/Order.antt =====
-- The hash of an event does not depend on the order of its properties.
use pms_backend.Base.{
  ◌≡◌, ◌⊎◌, inl, inr, refl, sym, ap, ◌∙◌, Bool, true, false, Option, List, [], ◌∷◌, Bool-cases,
  length, ◌==◌,
}
use pms_backend.Fault.{ok, throw_if, >>=_returns, ok_injective}
use pms_backend.Number.{Sign, is_more}
use pms_backend.Text.{Text, codes, text_eq}
use pms_backend.Audit.{
  Json, Entries, entry, undefined_entry, Rendered, insert_entry, sort_from, object_text,
  canonical_json, rendered_entries, AuditEventDraft, SignedAuditEvent, with_entry, or_null,
  AuditSigner, calculate_audit_hash, create_signed_audit_event, verify_audit_hash,
}

module _ (locale_compare : Text → Text → Sign) where
  abbrev pub goes_after : Text → Text → Bool
  goes_after a b = is_more (locale_compare a b)

  -- The comparison of the host is an order.
  pub record IsOrder : Type 0 where
    pub asymmetric : (a b : Text) → goes_after a b ≡ true → goes_after b a ≡ false
    pub transitive :
        (a b c : Text) → goes_after a b ≡ true → goes_after b c ≡ true → goes_after a c ≡ true

  -- The order tells two keys apart.
  abbrev pub Apart : Text → Text → Type 0
  Apart a b = (goes_after a b ≡ true) ⊎ (goes_after b a ≡ true)

  -- Other orders of the same properties, with or without the undefined ones: steps that exchange
  -- two neighbours.
  pub data Reordered : Entries → Entries → Type 0 where
    same : {es : Entries} → Reordered es es
    follows : {es fs gs : Entries} → Reordered es fs → Reordered fs gs → Reordered es gs
    skips :
        (k : Text) (v : Json) {es fs : Entries}
        → Reordered es fs
        → Reordered (entry k v es) (entry k v fs)
    omits : (k : Text) {es : Entries} → Reordered (undefined_entry k es) es
    swaps :
        (k : Text) (v : Json) (l : Text) (w : Json) {es : Entries}
        → Apart k l
        → Reordered (entry k v (entry l w es)) (entry l w (entry k v es))

  -- The same of the texts of the entries.
  data Permuted : List Rendered → List Rendered → Type 0 where
    kept : {xs : List Rendered} → Permuted xs xs
    then_also : {xs ys zs : List Rendered} → Permuted xs ys → Permuted ys zs → Permuted xs zs
    under : (x : Rendered) {xs ys : List Rendered} → Permuted xs ys → Permuted (x ∷ xs) (x ∷ ys)
    exchanged :
        (x y : Rendered) {xs : List Rendered} → Apart x.0 y.0 → Permuted (x ∷ y ∷ xs) (y ∷ x ∷ xs)

  module _ (order : IsOrder) where
    insert_entry_comm :
        (x y : Rendered) (zs : List Rendered)
        → Apart x.0 y.0
        → insert_entry locale_compare x (insert_entry locale_compare y zs)
          ≡ insert_entry locale_compare y (insert_entry locale_compare x zs)
    unfolding insert_entry
    insert_entry_comm x y [] (inl h) = rw (h, order.asymmetric x.0 y.0 h) refl
    insert_entry_comm x y [] (inr h) = rw (h, order.asymmetric y.0 x.0 h) refl
    insert_entry_comm x y (z ∷ zs) apart = elim (Bool-cases (goes_after z.0 x.0)) [
      | inl zx ↦ elim (Bool-cases (goes_after z.0 y.0)) [
        | inl zy ↦ elim apart [
          | inl xy ↦ simp (zx, zy, xy, order.asymmetric x.0 y.0 xy)
          | inr yx ↦ simp (zx, zy, yx, order.asymmetric y.0 x.0 yx)
        ]
        | inr zy ↦ elim apart [
          | inl xy ↦ absurd (cc (order.transitive z.0 x.0 y.0 zx xy, zy))
          | inr yx ↦ simp (zx, zy, order.asymmetric y.0 x.0 yx)
        ]
      ]
      | inr zx ↦ elim (Bool-cases (goes_after z.0 y.0)) [
        | inl zy ↦ elim apart [
          | inl xy ↦ simp (zx, zy, order.asymmetric x.0 y.0 xy)
          | inr yx ↦ absurd (cc (order.transitive z.0 y.0 x.0 zy yx, zx))
        ]
        | inr zy ↦ simp (zx, zy, insert_entry_comm x y zs apart)
      ]
    ]

    sort_from-Permuted :
        (xs ys : List Rendered)
        → Permuted xs ys
        → (sorted : List Rendered)
        → sort_from locale_compare sorted xs ≡ sort_from locale_compare sorted ys
    unfolding sort_from
    sort_from-Permuted _ _ kept sorted = refl
    sort_from-Permuted _ _ (then_also p q) sorted =
        sort_from-Permuted _ _ p sorted ∙ sort_from-Permuted _ _ q sorted
    sort_from-Permuted _ _ (under x p) sorted =
        sort_from-Permuted _ _ p (insert_entry locale_compare x sorted)
    sort_from-Permuted _ _ (exchanged x y {xs} apart) sorted =
        ap (λ s. sort_from locale_compare s xs) (sym (insert_entry_comm x y sorted apart))

  rendered_entries-Reordered :
      (quote : Text → Text) (es fs : Entries)
      → Reordered es fs
      → Permuted
          (rendered_entries locale_compare quote es)
          (rendered_entries locale_compare quote fs)
  unfolding rendered_entries
  rendered_entries-Reordered quote _ _ same = kept
  rendered_entries-Reordered quote _ _ (follows p q) =
      then_also (rendered_entries-Reordered quote _ _ p) (rendered_entries-Reordered quote _ _ q)
  rendered_entries-Reordered quote _ _ (skips k v p) =
      under _ (rendered_entries-Reordered quote _ _ p)
  rendered_entries-Reordered quote _ _ (omits k) = kept
  rendered_entries-Reordered quote _ _ (swaps k v l w apart) = exchanged _ _ apart

  with_entry-Reordered :
      (key : Text) (value : Json) (es fs : Entries)
      → Reordered es fs
      → Reordered (with_entry es key value) (with_entry fs key value)
  unfolding with_entry
  with_entry-Reordered key value _ _ same = same
  with_entry-Reordered key value _ _ (follows p q) =
      follows (with_entry-Reordered key value _ _ p) (with_entry-Reordered key value _ _ q)
  with_entry-Reordered key value _ _ (skips k v p) =
      skips k v (with_entry-Reordered key value _ _ p)
  with_entry-Reordered key value _ _ (omits k) = omits k
  with_entry-Reordered key value _ _ (swaps k v l w apart) = swaps k v l w apart

  module _ (quote sha256 : Text → Text) (order : IsOrder) where
    calculate_audit_hash-Reordered :
        (es fs : AuditEventDraft) (previous : Option Text)
        → Reordered es fs
        → calculate_audit_hash locale_compare quote sha256 es previous
          ≡ calculate_audit_hash locale_compare quote sha256 fs previous
    unfolding calculate_audit_hash canonical_json object_text
    calculate_audit_hash-Reordered es fs previous p =
        let sorted =
          sort_from-Permuted order _ _
            (rendered_entries-Reordered quote _ _
              (with_entry-Reordered (codes "previousHash") (or_null previous) es fs p))
            [] in
        rw sorted refl

    -- Whenever an event is created, it is verified again with its properties in any other order,
    -- under any stored hash: it passes exactly if that is the hash of its creation.
    pub create_signed_audit_event-verified :
        (draft : AuditEventDraft) (previous : Option Text) (signer : AuditSigner)
        {event : SignedAuditEvent}
        → create_signed_audit_event locale_compare quote sha256 draft previous signer ≡ ok event
        → (fs : AuditEventDraft) (stored : Text) → Reordered draft fs
        → verify_audit_hash locale_compare quote sha256
            (record event { draft = fs; event_hash = stored })
          ≡ ok (text_eq stored event.event_hash)
    unfolding create_signed_audit_event verify_audit_hash
    create_signed_audit_event-verified draft previous signer {event} h fs stored p =
        let (hash, hashed, h1) =
          >>=_returns (calculate_audit_hash locale_compare quote sha256 draft previous) _ h in
        let (_, _, h2) = >>=_returns (throw_if (length (signer.sign hash) == 0) _) _ h1 in
        let e = ok_injective h2 in
        let hashed_again : calculate_audit_hash locale_compare quote sha256 fs event.previous_hash
            ≡ ok event.event_hash =
          ap (calculate_audit_hash locale_compare quote sha256 fs)
            (sym (ap (λ (v : SignedAuditEvent). v.previous_hash) e))
          ∙ sym (calculate_audit_hash-Reordered draft fs previous p)
          ∙ hashed
          ∙ ap (λ (v : SignedAuditEvent). ok v.event_hash) e in
        rw hashed_again refl
