-- ===== src/Accounting/SourceKey.antt =====
-- When two sources have different keys.
use pms_backend.Base.{◌≡◌, ◌≢◌, sym, ◌∙◌, [], ◌∷◌, ◌++◌, All, arith}
use pms_backend.Fault.{ok, >>=_returns, throw_if, ok_injective, source_required}
use pms_backend.Text.{Text, is_blank}
use pms_backend.Accounting.{
  AccountingEventType, event_type_text, AccountingSourceKey, joined_key, accounting_source_key,
}

-- A text without the separator.
abbrev pub IsPlain : Text → Type 0
IsPlain = All (λ c. c ≢ b':')

-- A plain part ends at the first separator.
split_plain :
    (a b x y : Text) → IsPlain a → IsPlain b → a ++ b':' ∷ x ≡ b ++ b':' ∷ y → (a ≡ b) × (x ≡ y)
split_plain [] [] x y pa pb h = ground arith
split_plain [] (d ∷ b) x y pa pb h = ground arith
split_plain (c ∷ a) [] x y pa pb h = ground arith
split_plain (c ∷ a) (d ∷ b) x y pa pb h = ground (arith, split_plain a b x y pa.1 pb.1)

event_type-IsPlain : (t : AccountingEventType) → IsPlain (event_type_text t)
event_type-IsPlain t = ground arith

event_type_injective : (t u : AccountingEventType) → event_type_text t ≡ event_type_text u → t ≡ u
event_type_injective t u h = ground arith

-- The three identifiers that another part follows.
abbrev pub PlainIds : AccountingSourceKey → Type 0
PlainIds s = IsPlain s.run_id × IsPlain s.pool_id × IsPlain s.product_id

joined_key_injective :
    (s t : AccountingSourceKey) → PlainIds s → PlainIds t → joined_key s ≡ joined_key t → s ≡ t
joined_key_injective s t ps pt h =
    let (s1, s2, s3) = ps in
    let (t1, t2, t3) = pt in
    let (run, h1) = split_plain s.run_id t.run_id _ _ s1 t1 h in
    let (pool, h2) = split_plain s.pool_id t.pool_id _ _ s2 t2 h1 in
    let (product, h3) = split_plain s.product_id t.product_id _ _ s3 t3 h2 in
    let (kind, event) =
      split_plain (event_type_text s.event_type) (event_type_text t.event_type) _ _
        (event_type-IsPlain s.event_type) (event_type-IsPlain t.event_type) h3 in
    let same_type = event_type_injective s.event_type t.event_type kind in
    λ i. record {
      run_id = run i;
      pool_id = pool i;
      product_id = product i;
      event_type = same_type i;
      event_id = event i;
    }

key-joined_key :
    (s : AccountingSourceKey) {k : Text} → accounting_source_key s ≡ ok k → joined_key s ≡ k
unfolding accounting_source_key
key-joined_key s {k} h =
    let (_, _, h1) = >>=_returns (throw_if (is_blank s.run_id) source_required) _ h in
    let (_, _, h2) = >>=_returns (throw_if (is_blank s.pool_id) source_required) _ h1 in
    let (_, _, h3) = >>=_returns (throw_if (is_blank s.product_id) source_required) _ h2 in
    let (_, _, h4) = >>=_returns (throw_if (is_blank s.event_id) source_required) _ h3 in
    ok_injective h4

-- Two sources whose run, pool and product identifiers hold no colon have one key only if they are the
-- same source.
pub accounting_source_key_injective :
    (s t : AccountingSourceKey) {k : Text}
    → PlainIds s
    → PlainIds t
    → accounting_source_key s ≡ ok k
    → accounting_source_key t ≡ ok k
    → s ≡ t
accounting_source_key_injective s t ps pt hs ht =
    joined_key_injective s t ps pt (key-joined_key s hs ∙ sym (key-joined_key t ht))
