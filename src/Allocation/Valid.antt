-- ===== src/Allocation/Valid.antt =====
-- Weights that `allocateProportionally` accepts, described by what their texts spell.
use pms_backend.Base.{
  ℕ, ◌+◌, ◌<◌, ◌≡◌, ◌≢◌, refl, sym, subst, true, false, List, [], ◌∷◌, arith, All, Bool-cases, inl,
  inr,
}
use pms_backend.Base.Int.{pos, negate, magnitude, ltb_ℤ}
use pms_backend.Fault.{ok}
use pms_backend.Number.{Sign}
use pms_backend.Text.{Text, text_eq, text_eq_iff, includes, is_empty}
use pms_backend.Decimal.Spelling.{match_unsigned_complete, units_of_exact}
use pms_backend.Money.{Money, apply_sign}
use pms_backend.Money.RoundTrip.{IsValid, match_signed_positive, match_signed_negative}
use pms_backend.Money.Parsing.{Denotes, plain, minus}
use pms_backend.Allocation.{
  AllocationWeight, AllocationResult, Entry, weight_units, decimal_to_units, normalize,
  total_weight, allocate_proportionally,
}
use pms_backend.Allocation.Results.{allocate_normalized_total}

-- A participant with a name that is not empty and a weight that spells `units` with twelve decimals at
-- most, none of whose name is among the ones before.
abbrev pub IsWeight : AllocationWeight → ℕ → List Text → Type 0
IsWeight w units seen =
    (w.participant_id ≢ [])
    × All (λ (x : Text). x ≢ w.participant_id) seen
    × Denotes w.weight 12 (pos units)

-- Weights of distinct participants.
abbrev pub AreWeights : List AllocationWeight → List ℕ → List Text → Type 0
AreWeights [] [] seen = Unit {0}
AreWeights (w ∷ ws) (n ∷ ns) seen = IsWeight w n seen × AreWeights ws ns (w.participant_id ∷ seen)
AreWeights _ _ seen = ⊥

abbrev pub sum_of : List ℕ → ℕ
sum_of [] = 0
sum_of (n ∷ ns) = n + sum_of ns

not_empty : (t : Text) → t ≢ [] → is_empty t ≡ false
not_empty [] h = absurd (h refl)
not_empty (c ∷ t) h = refl

not_seen : (x : Text) (seen : List Text) → All (λ (y : Text). y ≢ x) seen → includes seen x ≡ false
unfolding includes
not_seen x [] h = refl
not_seen x (y ∷ seen) (h, k) = elim (Bool-cases (text_eq y x)) [
  | inl same ↦ absurd (h ((text_eq_iff y x).0 same))
  | inr other ↦ rw other (not_seen x seen k)
]

negated_zero : (n m : ℕ) → pos n ≡ negate (pos m) → apply_sign true m ≡ pos n
unfolding apply_sign
negated_zero n m h = sym h

weight_read : (t : Text) (n : ℕ) → Denotes t 12 (pos n) → decimal_to_units t 12 ≡ ok (pos n)
unfolding decimal_to_units weight_units apply_sign
weight_read t n (plain i f p l e) =
    ground (
      arith,
      match_signed_positive t i f (match_unsigned_complete t i f p),
      units_of_exact i f 12 l,
    )
weight_read t n (minus s i f q p l e) =
    ground (
      arith,
      match_signed_negative s i f (match_unsigned_complete s i f p),
      units_of_exact i f 12 l,
    )

normalize-AreWeights :
    (ws : List AllocationWeight) (ns : List ℕ) (seen : List Text)
    → AreWeights ws ns seen
    → (es : List Entry) × (normalize ws seen ≡ ok es) × (total_weight es ≡ sum_of ns)
unfolding normalize
normalize-AreWeights [] [] seen h = ([], refl, refl)
normalize-AreWeights [] (n ∷ ns) seen h = absurd h
normalize-AreWeights (w ∷ ws) [] seen h = absurd h
normalize-AreWeights (w ∷ ws) (n ∷ ns) seen ((named, fresh, spelled), rest) =
    let (es, e, total) = normalize-AreWeights ws ns (w.participant_id ∷ seen) rest in
    let no_sign : ltb_ℤ (pos n) (pos 0) ≡ false = ground arith in
    let whole : magnitude (pos n) ≡ n = omega arith in
    (
      record { participant_id = w.participant_id; weight = magnitude (pos n) } ∷ es,
      rw
          (
            not_empty w.participant_id named,
            not_seen w.participant_id seen fresh,
            weight_read w.weight n spelled,
            no_sign,
            e,
          )
          refl,
      omega (arith, whole, total),
    )

-- A valid amount is always allocated by weights of distinct named participants, of which each spells a
-- number that is not below 0 with twelve decimals at most, and which are not all zero.
pub allocate_proportionally_total :
    (locale_compare : Text → Text → Sign) (d : Money) (ws : List AllocationWeight) (ns : List ℕ)
    → IsValid d
    → AreWeights ws ns []
    → 0 < sum_of ns
    → (rs : List AllocationResult) × (allocate_proportionally locale_compare d ws ≡ ok rs)
allocate_proportionally_total locale_compare d ws ns v weights some_weight =
    let (es, e, total) = normalize-AreWeights ws ns [] weights in
    allocate_normalized_total locale_compare d ws v e
      (subst (λ (n : ℕ). 0 < n) (sym total) some_weight)
