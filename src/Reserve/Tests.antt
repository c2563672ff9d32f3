-- ===== src/Reserve/Tests.antt =====
-- Reserve movements at concrete inputs.
use pms_backend.Base.{◌≡◌, refl, true, none, some}
use pms_backend.Base.Int.{◌+ℤ◌}
use pms_backend.Fault.{ok, err, approval_missing}
use pms_backend.Number.{num}
use pms_backend.Text.{codes, is_currency, text_eq, is_blank}
use pms_backend.Decimal.{running}
use pms_backend.Money.{parse, add, compare, from_minor_units, to_decimal_string}
use pms_backend.Reserve.{
  per, fund, GovernedReserveMovementInput, GovernedReserveMovement, calculate_reserve_movement,
  closing_shares, needs_approval, authorize_reserve_movement,
}
use pms_backend.Reserve.Governed.{Authorized, authorize_reserve_movement_sound}

unfoldable moving : Unit {0}
unfolding running is_currency text_eq is_blank ◌+ℤ◌ parse add compare from_minor_units
    to_decimal_string calculate_reserve_movement closing_shares needs_approval
    authorize_reserve_movement
moving = tt

abbrev funding : GovernedReserveMovementInput
funding = record {
  base = record {
    reserve_type = per;
    kind = fund;
    opening_balance = codes "10.00";
    movement_amount = codes "5.50";
    currency = codes "TND";
    scale = num 2;
  };
  pool_id = codes "P";
  investor_opening_balance = codes "6";
  bank_opening_balance = codes "4";
  investor_movement_amount = codes "5.5";
  bank_movement_amount = codes "0";
  minimum_balance = codes "0";
  maximum_balance = codes "15";
  approval_threshold = codes "100";
  approval_id = some (codes "A1");
}

abbrev funded : GovernedReserveMovement
funded = record {
  base = record { input = funding.base; closing_balance = codes "15.50" };
  pool_id = codes "P";
  investor_closing_balance = codes "11.50";
  bank_closing_balance = codes "4.00";
  approval_required = true;
  approval_id = some (codes "A1");
}

funding_authorized : authorize_reserve_movement funding ≡ ok funded
unfolding moving
funding_authorized = refl

unapproved_refused :
    authorize_reserve_movement (record funding { approval_id = none }) ≡ err approval_missing
unfolding moving
unapproved_refused = refl

authorize_reserve_movement_sound_example : Authorized funding funded
authorize_reserve_movement_sound_example =
    authorize_reserve_movement_sound funding funded funding_authorized
