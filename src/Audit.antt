-- ===== src/Audit.antt =====
-- src/modules/audit/domain/audit-chain.ts: the canonical text of an audit event and its hash.
-- `JSON.stringify` of a text and of a number, `localeCompare` and SHA-256 are parameters.
pub mod Order
mod Tests
use pms_backend.Base.{
  ℕ, Bool, true, false, ◌&&◌, ◌==◌, not, Option, none, some, List, [], ◌∷◌, ◌++◌, if◌then◌else◌,
  length, every, leb, ◌||◌,
}
use pms_backend.Fault.{
  Result, ok, err, ◌>>=◌, ◌>>◌, throw_if, audit_hash_invalid, audit_non_finite, audit_unsupported,
  audit_signature_empty,
}
use pms_backend.Number.{Sign, is_more}
use pms_backend.Text.{Text, codes, text_eq, is_digit, is_empty}

-- A value of JavaScript as `canonicalJson` tells them apart; a number is kept by its text.
mutual
  pub data Json : Type 0 where
    null : Json
    boolean : Bool → Json
    string : Text → Json
    number : Text → Json
    non_finite : Json
    array : Items → Json
    object : Entries → Json
    unsupported : Json

  pub data Items : Type 0 where
    no_item : Items
    item : Json → Items → Items

  -- `Object.entries`, an entry of which may be undefined.
  pub data Entries : Type 0 where
    no_entry : Entries
    entry : Text → Json → Entries → Entries
    undefined_entry : Text → Entries → Entries

-- `texts.join(',')`
unfoldable pub join : List Text → Text
join [] = []
join (t ∷ []) = t
join (t ∷ ts) = t ++ b',' ∷ join ts

-- A key of an object and the text of its value, which is computed behind the sort.
abbrev pub Rendered : Type 0
Rendered = Text × Result Text

module _ (locale_compare : Text → Text → Sign) where
  -- `sort`, which is stable: an entry goes before the first one that the comparator puts after it.
  unfoldable pub insert_entry : {V : Type 0} → (Text × V) → List (Text × V) → List (Text × V)
  insert_entry x [] = x ∷ []
  insert_entry x (y ∷ ys) =
      let rest = insert_entry x ys in
      if is_more (locale_compare y.0 x.0) then x ∷ y ∷ ys else y ∷ rest

  unfoldable pub sort_from : {V : Type 0} → List (Text × V) → List (Text × V) → List (Text × V)
  unfolding insert_entry
  sort_from sorted [] = sorted
  sort_from sorted (x ∷ xs) = sort_from (insert_entry x sorted) xs

  module _ (quote : Text → Text) where
    unfoldable pub entry_texts : List Rendered → Result (List Text)
    entry_texts [] = ok []
    entry_texts ((key, value) ∷ rest) = do
      text ← value
      texts ← entry_texts rest
      ok ((quote key ++ b':' ∷ text) ∷ texts)

    unfoldable pub object_text : List Rendered → Result Text
    unfolding join sort_from entry_texts
    object_text rendered = do
      texts ← entry_texts (sort_from [] rendered)
      ok (b'{' ∷ join texts ++ b'}' ∷ [])

    -- `canonicalJson`
    unfoldable mutual
      unfolding join object_text

      pub canonical_json : Json → Result Text
      canonical_json null = ok (codes "null")
      canonical_json (boolean true) = ok (codes "true")
      canonical_json (boolean false) = ok (codes "false")
      canonical_json (string s) = ok (quote s)
      canonical_json (number n) = ok n
      canonical_json non_finite = err audit_non_finite
      canonical_json (array items) = do
        texts ← items_texts items
        ok (b'[' ∷ join texts ++ b']' ∷ [])
      canonical_json (object entries) = object_text (rendered_entries entries)
      canonical_json unsupported = err audit_unsupported

      pub items_texts : Items → Result (List Text)
      items_texts no_item = ok []
      items_texts (item value items) = do
        text ← canonical_json value
        texts ← items_texts items
        ok (text ∷ texts)

      pub rendered_entries : Entries → List Rendered
      rendered_entries no_entry = []
      rendered_entries (undefined_entry key entries) = rendered_entries entries
      rendered_entries (entry key value entries) =
          (key, canonical_json value) ∷ rendered_entries entries

-- A draft is its properties, as `Object.entries` gives them.
abbrev pub AuditEventDraft : Type 0
AuditEventDraft = Entries

pub record SignedAuditEvent : Type 0 where
  pub draft : AuditEventDraft
  pub previous_hash : Option Text
  pub event_hash : Text
  pub signing_key_id : Text
  pub signature_base64 : Text

-- `{ ...draft, previousHash }`: the type of a draft has no such key, so that it is a new one.
unfoldable pub with_entry : Entries → Text → Json → Entries
with_entry no_entry key value = entry key value no_entry
with_entry (entry k v entries) key value = entry k v (with_entry entries key value)
with_entry (undefined_entry k entries) key value = undefined_entry k (with_entry entries key value)

-- `/^[a-f0-9]{64}$/`
unfoldable pub is_hash : Text → Bool
is_hash s = length s == 64 && every (λ c. is_digit c || leb b'a' c && leb c b'f') s

-- `previousHash && !/…/.test(previousHash)`: the empty text passes.
unfoldable pub is_wrong_hash : Option Text → Bool
unfolding is_hash
is_wrong_hash none = false
is_wrong_hash (some h) = not (is_empty h) && not (is_hash h)

-- `previousHash ?? null`
abbrev pub or_null : Option Text → Json
or_null none = null
or_null (some h) = string h

-- The signer: `keyId()`, and `signSha256Digest` of a digest in hexadecimal as bytes; `base64` prints
-- the bytes.
pub record AuditSigner : Type 0 where
  pub key_id : Text
  pub sign : Text → List ℕ
  pub base64 : List ℕ → Text

module _ (locale_compare : Text → Text → Sign) (quote sha256 : Text → Text) where
  -- `calculateAuditHash`
  unfoldable pub calculate_audit_hash : AuditEventDraft → Option Text → Result Text
  unfolding with_entry is_wrong_hash
  calculate_audit_hash draft previous = do
    throw_if (is_wrong_hash previous) audit_hash_invalid
    text ←
        canonical_json locale_compare quote
          (object (with_entry draft (codes "previousHash") (or_null previous)))
    ok (sha256 text)

  -- `createSignedAuditEvent`
  unfoldable pub create_signed_audit_event :
      AuditEventDraft → Option Text → AuditSigner → Result SignedAuditEvent
  unfolding calculate_audit_hash
  create_signed_audit_event draft previous signer = do
    event_hash ← calculate_audit_hash draft previous
    throw_if (length (signer.sign event_hash) == 0) audit_signature_empty
    ok (record {
      draft = draft;
      previous_hash = previous;
      event_hash = event_hash;
      signing_key_id = signer.key_id;
      signature_base64 = signer.base64 (signer.sign event_hash);
    })

  -- `verifyAuditHash`
  unfoldable pub verify_audit_hash : SignedAuditEvent → Result Bool
  unfolding calculate_audit_hash
  verify_audit_hash event = do
    expected ← calculate_audit_hash event.draft event.previous_hash
    ok (text_eq event.event_hash expected)
