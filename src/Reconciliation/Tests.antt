-- ===== src/Reconciliation/Tests.antt =====
-- Reconciliations at concrete inputs.
use pms_backend.Base.{◌≡◌, refl}
use pms_backend.Base.Int.{◌-ℤ◌, ◌+ℤ◌}
use pms_backend.Fault.{ok, err, exact_scale}
use pms_backend.Text.{codes, is_currency, text_eq}
use pms_backend.Decimal.{running}
use pms_backend.Money.{parse, subtract, to_decimal_string}
use pms_backend.Reconciliation.{matched, Reconciliation, normalize_matched, reconcile_amounts}
use pms_backend.Reconciliation.Difference.{Reconciled, reconcile_amounts_sound}

unfoldable reconciling : Unit {0}
unfolding running is_currency text_eq ◌+ℤ◌ ◌-ℤ◌ parse subtract to_decimal_string normalize_matched
    reconcile_amounts
reconciling = tt

abbrev matched_amounts : Reconciliation
matched_amounts = record { difference = codes "0.00"; state = matched }

trailing_zeros_matched :
    reconcile_amounts (codes "-10.500") (codes "-10.5") (codes "TND") 2 ≡ ok matched_amounts
unfolding reconciling
trailing_zeros_matched = refl

extra_digits_refused :
    reconcile_amounts (codes "10.501") (codes "10.5") (codes "TND") 2 ≡ err exact_scale
unfolding reconciling
extra_digits_refused = refl

reconcile_amounts_sound_example :
    Reconciled (codes "-10.500") (codes "-10.5") (codes "TND") 2 matched_amounts
reconcile_amounts_sound_example =
    reconcile_amounts_sound (codes "-10.500") (codes "-10.5") (codes "TND") 2 matched_amounts
      trailing_zeros_matched
