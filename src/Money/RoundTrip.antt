-- ===== src/Money/RoundTrip.antt =====
-- `Money.parse` after `toDecimalString`.
use pms_backend.Base.{◌≤◌, ◌≡◌, ap, true, false, Bool-cases, inl, inr, some, [], ◌∷◌, arith}
use pms_backend.Base.Int.{ℤ, pos, negate, magnitude, ltb_ℤ}
use pms_backend.Fault.{ok}
use pms_backend.Number.{num}
use pms_backend.Text.{Text, is_currency}
use pms_backend.Decimal.{match_unsigned, match_signed, print_unsigned}
use pms_backend.Decimal.Scan.{print_matched, match_unsigned_minus, match_unsigned_empty}
use pms_backend.Money.{Money, parse, apply_sign, to_decimal_string}

-- What every amount made by `parse` or `fromMinorUnits` satisfies.
pub record IsValid (m : Money) : Type 0 where
  pub currency : is_currency m.currency ≡ true
  pub scale : m.scale ≤ 12

pub match_signed_positive :
    (s i f : Text) → match_unsigned s ≡ some (i, f) → match_signed s ≡ some (false, i, f)
unfolding match_signed
match_signed_positive [] i f h = cc match_unsigned_empty
match_signed_positive (c ∷ s) i f h = ground (arith, match_unsigned_minus s)

pub match_signed_negative :
    (s i f : Text) → match_unsigned s ≡ some (i, f) → match_signed (b'-' ∷ s) ≡ some (true, i, f)
unfolding match_signed
match_signed_negative s i f h = ground arith

pub match_signed-to_decimal_string :
    (m : Money) (i f : Text)
    → match_unsigned (print_unsigned (magnitude m.minor_units) m.scale) ≡ some (i, f)
    → match_signed (to_decimal_string m) ≡ some (ltb_ℤ m.minor_units (pos 0), i, f)
unfolding to_decimal_string
match_signed-to_decimal_string m i f h =
    let value = print_unsigned (magnitude m.minor_units) m.scale in
    elim (Bool-cases (ltb_ℤ m.minor_units (pos 0))) [
      | inl negative ↦ rw negative (match_signed_negative value i f h)
      | inr positive ↦ rw positive (match_signed_positive value i f h)
    ]

pub apply_sign-magnitude : (z : ℤ) → apply_sign (ltb_ℤ z (pos 0)) (magnitude z) ≡ z
unfolding apply_sign negate
apply_sign-magnitude z = ground arith

-- An amount with an ISO currency and a scale of at most 12 is read back from its print.
pub parse-to_decimal_string :
    (m : Money) → IsValid m → parse (to_decimal_string m) m.currency (num m.scale) ≡ ok m
unfolding parse
parse-to_decimal_string m v =
    let (i, f, matched, short, exact) = print_matched (magnitude m.minor_units) m.scale in
    ground (
      arith,
      match_signed-to_decimal_string m i f matched,
      apply_sign-magnitude m.minor_units,
      ap (apply_sign (ltb_ℤ m.minor_units (pos 0))) exact,
    )
