-- ===== src/Engine/Units.antt =====
-- `decimalToUnits` after `unitsToDecimal` in libs/engine/src.
use pms_backend.Base.{[], refl, ℕ, ◌≡◌, ap, arith}
use pms_backend.Base.Int.{ℤ, pos, magnitude, ltb_ℤ}
use pms_backend.Fault.{ok}
use pms_backend.Decimal.Scan.{print_matched}
use pms_backend.Money.{Money, apply_sign, to_decimal_string}
use pms_backend.Money.RoundTrip.{match_signed-to_decimal_string, apply_sign-magnitude}
use pms_backend.Engine.{signed_units, matched_units, units_to_decimal}

-- The engines print an amount as `Money` does.
units_to_decimal-Money :
    (u : ℤ) (s : ℕ)
    → units_to_decimal u s
      ≡ to_decimal_string (record { currency = []; minor_units = u; scale = s })
unfolding units_to_decimal to_decimal_string
units_to_decimal-Money u s = refl

pub signed_units-units_to_decimal : (u : ℤ) (s : ℕ) → signed_units (units_to_decimal u s) s ≡ ok u
unfolding matched_units
signed_units-units_to_decimal u s =
    let m : Money = record { currency = []; minor_units = u; scale = s } in
    let (i, f, matched, short, exact) = print_matched (magnitude u) s in
    rw (units_to_decimal-Money u s) (
      ground (
        arith,
        match_signed-to_decimal_string m i f matched,
        apply_sign-magnitude u,
        ap (apply_sign (ltb_ℤ u (pos 0))) exact,
      ))
