-- ===== src/Audit/Tests.antt =====
-- An audit event at concrete inputs. A comparison of texts by their first character stands in for
-- `localeCompare`, and the text itself for its hash.
use pms_backend.Base.{ℕ, ◌≡◌, refl, inl, true, if◌then◌else◌, none, some, [], ◌∷◌, ◌++◌, ltb, arith}
use pms_backend.Fault.{ok, err, audit_hash_invalid, audit_non_finite, audit_signature_empty}
use pms_backend.Number.{Sign, less, same, more}
use pms_backend.Text.{Text, codes, text_eq}
use pms_backend.Audit.{
  Json, null, boolean, string, number, non_finite, array, object, no_item, item, Entries, no_entry,
  entry, undefined_entry, insert_entry, sort_from, entry_texts, object_text, join, canonical_json,
  with_entry, is_wrong_hash, is_hash, AuditSigner, calculate_audit_hash, create_signed_audit_event,
  verify_audit_hash,
}
use pms_backend.Audit.Order.{
  IsOrder, Reordered, follows, omits, skips, swaps, create_signed_audit_event-verified,
}

abbrev first : Text → ℕ
first [] = 0
first (c ∷ s) = c

abbrev by_first : Text → Text → Sign
by_first a b =
    if ltb (first b) (first a) then more else (if ltb (first a) (first b) then less else same)

by_first-IsOrder : IsOrder by_first
by_first-IsOrder = record {
  asymmetric = λ a b h. ground arith;
  transitive = λ a b c h k. ground arith;
}

abbrev quoted : Text → Text
quoted s = b'"' ∷ s ++ b'"' ∷ []

-- `{ s: 'u', v: undefined, a: { z: true, b: [1, null] } }` and its keys in another order.
abbrev changes : Json
changes = object (
    entry (codes "z") (boolean true)
      (entry (codes "b") (array (item (number (codes "1")) (item null no_item))) no_entry))

abbrev draft : Entries
draft =
    entry (codes "s") (string (codes "u"))
      (undefined_entry (codes "v") (entry (codes "a") changes no_entry))

abbrev reordered : Entries
reordered = entry (codes "a") changes (entry (codes "s") (string (codes "u")) no_entry)

draft-Reordered : Reordered by_first draft reordered
draft-Reordered =
    follows (skips (codes "s") (string (codes "u")) (omits (codes "v")))
      (swaps (codes "s") (string (codes "u")) (codes "a") changes (inl refl))

abbrev signer : AuditSigner
signer = record { key_id = codes "k"; sign = λ s. s; base64 = λ s. s }

abbrev event_text : Text
event_text = codes "{\"a\":{\"b\":[1,null],\"z\":true},\"previousHash\":null,\"s\":\"u\"}"

created :
    create_signed_audit_event by_first quoted (λ s. s) draft none signer
    ≡ ok (record {
      draft = draft;
      previous_hash = none;
      event_hash = event_text;
      signing_key_id = codes "k";
      signature_base64 = event_text;
    })
unfolding create_signed_audit_event calculate_audit_hash canonical_json object_text entry_texts
    sort_from insert_entry join with_entry is_wrong_hash
created = refl

create_signed_audit_event-verified_example :
    verify_audit_hash by_first quoted
      (λ s. s)
      (record {
        draft = reordered;
        previous_hash = none;
        event_hash = codes "other";
        signing_key_id = codes "k";
        signature_base64 = event_text;
      })
    ≡ ok (text_eq (codes "other") event_text)
create_signed_audit_event-verified_example =
    create_signed_audit_event-verified by_first quoted (λ s. s) by_first-IsOrder draft none signer
      created reordered (codes "other") draft-Reordered

-- A number that is not finite, a previous hash that is none, and an empty signature.
not_finite :
    calculate_audit_hash by_first quoted (λ s. s) (entry (codes "n") non_finite no_entry) none
    ≡ err audit_non_finite
unfolding calculate_audit_hash canonical_json object_text entry_texts sort_from insert_entry join
    with_entry is_wrong_hash
not_finite = refl

no_hash :
    calculate_audit_hash by_first quoted (λ s. s) draft (some (codes "G")) ≡ err audit_hash_invalid
unfolding calculate_audit_hash is_wrong_hash is_hash
no_hash = refl

unsigned_event :
    create_signed_audit_event by_first quoted
      (λ s. s)
      draft
      none
      (record { key_id = codes "k"; sign = λ s. []; base64 = λ s. s })
    ≡ err audit_signature_empty
unfolding create_signed_audit_event calculate_audit_hash canonical_json object_text entry_texts
    sort_from insert_entry join with_entry is_wrong_hash
unsigned_event = refl
