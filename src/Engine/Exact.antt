-- ===== src/Engine/Exact.antt =====
-- What the engines in libs/engine/src rely on in decimal.js: a text is read exactly, comparisons go by
-- value, and a sum or a difference is exact where it has no more digits than the precision.
use pms_backend.Base.{
  ℕ, ◌^◌, ◌≤◌, ◌<◌, ◌≡◌, refl, sym, ap, ◌∙◌, subst, Bool, true, false, not, Bool-cases, inl, inr,
  some, length,
}
use pms_backend.Base.Int.{ℤ, pos, magnitude, ltb_ℤ, ◌+ℤ◌, ◌-ℤ◌, ◌≤ℤ◌}
use pms_backend.Fault.{
  ok, throw_if, >>=_returns, ok_injective, engine_not_positive, engine_not_canonical,
}
use pms_backend.Text.{Text}
use pms_backend.Decimal.{match_unsigned, match_signed, units_of}
use pms_backend.Money.{apply_sign}
use pms_backend.Money.RoundTrip.{match_signed_positive}
use pms_backend.Loss.{is_zero}
use pms_backend.Engine.{Decimals, is_matched, non_negative, signed, positive}

-- The values that are whole numbers of units with the given decimals. A value counts one number at
-- most. A sum or a difference is rounded to `precision` digits, so that it is exact below ten to it.
-- A zero may carry either sign.
pub record ExactSums (d : Decimals) (decimals precision : ℕ) : Type 1 where
  pub Counts : d.Value → ℤ → Type 0
  pub text_counts :
      {t : Text} {negative : Bool} {i f : Text}
      → match_signed t ≡ some (negative, i, f)
      → length f ≤ decimals
      → Counts (d.of_text t) (apply_sign negative (units_of i f decimals))
  pub plus_counts :
      {a b : d.Value} {m n : ℤ}
      → Counts a m
      → Counts b n
      → magnitude (m +ℤ n) < 10 ^ precision
      → Counts (d.plus a b) (m +ℤ n)
  pub minus_counts :
      {a b : d.Value} {m n : ℤ}
      → Counts a m
      → Counts b n
      → magnitude (m -ℤ n) < 10 ^ precision
      → Counts (d.minus a b) (m -ℤ n)
  pub greater_than_lem :
      {a b : d.Value} {m n : ℤ} → Counts a m → Counts b n → d.greater_than a b ≡ ltb_ℤ n m
  pub is_zero_lem : {a : d.Value} {m : ℤ} → Counts a m → d.is_zero a ≡ is_zero m
  pub negative_lem : {a : d.Value} {m : ℤ} → Counts a m → d.is_negative a ≡ true → m ≤ℤ pos 0
  pub not_negative_lem : {a : d.Value} {m : ℤ} → Counts a m → d.is_negative a ≡ false → pos 0 ≤ℤ m

-- A text that spells a number of units with the given decimals, with a sign or without one.
abbrev pub Signed : ℕ → Text → ℤ → Type 0
Signed decimals t n =
    (negative : Bool) × (i : Text) × (f : Text) × (match_signed t ≡ some (negative, i, f))
    × (length f ≤ decimals)
    × (n ≡ apply_sign negative (units_of i f decimals))

abbrev pub Unsigned : ℕ → Text → ℕ → Type 0
Unsigned decimals t n =
    (i : Text) × (f : Text) × (match_unsigned t ≡ some (i, f))
    × (length f ≤ decimals)
    × (n ≡ units_of i f decimals)

-- `isPositive` is true of every value whose text has no sign, 0 included.
abbrev pub UnsignedIsPositive : Decimals → Type 0
UnsignedIsPositive d =
    (t : Text) → is_matched (match_unsigned t) ≡ true → d.is_positive (d.of_text t) ≡ true

-- `positive` refuses nothing that `nonNegative` accepts: it accepts 0.
pub positive-non_negative :
    (d : Decimals) → UnsignedIsPositive d → (t : Text) → positive d t ≡ non_negative d t
unfolding positive non_negative
positive-non_negative d sign t = elim (Bool-cases (is_matched (match_unsigned t))) [
  | inl matched ↦ rw (matched, sign t matched) refl
  | inr other ↦ rw other refl
]

non_negative_value :
    (d : Decimals) (t : Text) (v : d.Value) → non_negative d t ≡ ok v → d.of_text t ≡ v
unfolding non_negative
non_negative_value d t v h =
    let (_, _, h1) =
      >>=_returns (throw_if (not (is_matched (match_unsigned t))) engine_not_canonical) _ h in
    ok_injective h1

-- `positive` reads its text.
pub positive_value : (d : Decimals) (t : Text) (v : d.Value) → positive d t ≡ ok v → d.of_text t ≡ v
unfolding positive
positive_value d t v h =
    let (p, e, h1) = >>=_returns (non_negative d t) _ h in
    let (_, _, h2) = >>=_returns (throw_if (not (d.is_positive p)) engine_not_positive) _ h1 in
    non_negative_value d t p e ∙ ok_injective h2

-- `signed` and `amount` read their text.
pub signed_value : (d : Decimals) (t : Text) (v : d.Value) → signed d t ≡ ok v → d.of_text t ≡ v
unfolding signed
signed_value d t v h =
    let (_, _, h1) =
      >>=_returns (throw_if (not (is_matched (match_signed t))) engine_not_canonical) _ h in
    ok_injective h1

unsigned_plain : (n : ℕ) → apply_sign false n ≡ pos n
unfolding apply_sign
unsigned_plain n = refl

-- A value that is read from a text counts what the text spells.
module _ {d : Decimals} {decimals precision : ℕ} (exact : ExactSums d decimals precision) where
  open exact use {Counts}

  pub signed_counts :
      (t : Text) (v : d.Value) (n : ℤ) → d.of_text t ≡ v → Signed decimals t n → Counts v n
  signed_counts t v n read (negative, i, f, e, short, count) =
      subst (λ w. Counts w n) read
        (subst (λ z. Counts (d.of_text t) z) (sym count) (exact.text_counts e short))

  pub unsigned_counts :
      (t : Text) (v : d.Value) (n : ℕ) → d.of_text t ≡ v → Unsigned decimals t n → Counts v (pos n)
  unsigned_counts t v n read (i, f, e, short, count) = signed_counts t v (pos n) read (
    false,
    i,
    f,
    match_signed_positive t i f e,
    short,
    ap pos count ∙ sym (unsigned_plain (units_of i f decimals)),
  )
