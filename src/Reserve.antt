-- ===== src/Reserve.antt =====
-- src/modules/reserves/domain/reserve-movement.ts: movements of the PER and IRR reserves.
pub mod Movement
pub mod Governed
mod Tests
use pms_backend.Base.{ℕ, Bool, true, false, ◌||◌, not, Option, none, some, if◌then◌else◌}
use pms_backend.Base.Int.{ℤ, pos, negate, ltb_ℤ}
use pms_backend.Fault.{
  Result, ok, err, ◌>>=◌, ◌>>◌, throw_if, reserve_negative, funding_not_positive,
  release_not_negative, pool_required, opening_shares, movement_shares, shares_negative,
  minimum_above_maximum, approval_missing,
}
use pms_backend.Number.{Number, Sign, is_more, is_same, is_less}
use pms_backend.Text.{Text, codes, is_blank}
use pms_backend.Money.{Money, parse, from_minor_units, add, compare, to_decimal_string}

pub data ReserveType : Type 0 where
  per irr : ReserveType

pub data ReserveMovementKind : Type 0 where
  fund release utilize adjust : ReserveMovementKind

-- `Omit<ReserveMovement, 'closingBalance'>`
pub record ReserveMovementInput : Type 0 where
  pub reserve_type : ReserveType
  pub kind : ReserveMovementKind
  pub opening_balance : Text
  pub movement_amount : Text
  pub currency : Text
  pub scale : Number

pub record ReserveMovement : Type 0 where
  pub input : ReserveMovementInput
  pub closing_balance : Text

-- `base` holds the fields that the input inherits.
pub record GovernedReserveMovementInput : Type 0 where
  pub base : ReserveMovementInput
  pub pool_id : Text
  pub investor_opening_balance : Text
  pub bank_opening_balance : Text
  pub investor_movement_amount : Text
  pub bank_movement_amount : Text
  pub minimum_balance : Text
  pub maximum_balance : Text
  pub approval_threshold : Text
  pub approval_id : Option Text

pub record GovernedReserveMovement : Type 0 where
  pub base : ReserveMovement
  pub pool_id : Text
  pub investor_closing_balance : Text
  pub bank_closing_balance : Text
  pub approval_required : Bool
  pub approval_id : Option Text

-- The sign of a movement, for its kind.
unfoldable pub check_kind : ReserveMovementKind → Sign → Result (Unit {0})
check_kind fund sign = throw_if (is_less sign) funding_not_positive
check_kind adjust sign = ok tt
check_kind _ sign = throw_if (is_more sign) release_not_negative

-- `calculateReserveMovement`
unfoldable pub calculate_reserve_movement : ReserveMovementInput → Result ReserveMovement
unfolding check_kind
calculate_reserve_movement input = do
  opening ← parse input.opening_balance input.currency input.scale
  movement ← parse input.movement_amount input.currency input.scale
  closing ← add opening movement
  zero ← parse (codes "0") input.currency input.scale
  closing_sign ← compare closing zero
  throw_if (is_less closing_sign) reserve_negative
  movement_sign ← compare movement zero
  check_kind input.kind movement_sign
  ok (record { input = input; closing_balance = to_decimal_string closing })

-- The closing shares, with the checks of `authorizeReserveMovement` on the shares.
unfoldable pub closing_shares :
    GovernedReserveMovementInput → Money → Money → Result (Money × Money)
closing_shares input opening movement = do
  let currency = input.base.currency
  let scale = input.base.scale
  investor_opening ← parse input.investor_opening_balance currency scale
  bank_opening ← parse input.bank_opening_balance currency scale
  investor_movement ← parse input.investor_movement_amount currency scale
  bank_movement ← parse input.bank_movement_amount currency scale
  opening_sum ← add investor_opening bank_opening
  opening_sign ← compare opening_sum opening
  throw_if (not (is_same opening_sign)) opening_shares
  movement_sum ← add investor_movement bank_movement
  movement_sign ← compare movement_sum movement
  throw_if (not (is_same movement_sign)) movement_shares
  investor_closing ← add investor_opening investor_movement
  bank_closing ← add bank_opening bank_movement
  zero ← parse (codes "0") currency scale
  investor_sign ← compare investor_closing zero
  bank_sign ← compare bank_closing zero
  throw_if (is_less investor_sign || is_less bank_sign) shares_negative
  ok (investor_closing, bank_closing)

abbrev pub absolute : ℤ → ℤ
absolute units = if ltb_ℤ units (pos 0) then negate units else units

-- `approvalRequired`, with the check of the bounds.
unfoldable pub needs_approval : GovernedReserveMovementInput → Money → Money → Result Bool
needs_approval input movement closing = do
  let currency = input.base.currency
  let scale = input.base.scale
  minimum ← parse input.minimum_balance currency scale
  maximum ← parse input.maximum_balance currency scale
  threshold ← parse input.approval_threshold currency scale
  bounds ← compare minimum maximum
  throw_if (is_more bounds) minimum_above_maximum
  absolute_movement ← from_minor_units (absolute movement.minor_units) currency scale
  above_threshold ← compare absolute_movement threshold
  below_minimum ← compare closing minimum
  above_maximum ← compare closing maximum
  ok (is_more above_threshold || is_less below_minimum || is_more above_maximum)

-- `!input.approvalId?.trim()`
abbrev pub approval_absent : Option Text → Bool
approval_absent none = true
approval_absent (some id) = is_blank id

-- `authorizeReserveMovement`
unfoldable pub authorize_reserve_movement :
    GovernedReserveMovementInput → Result GovernedReserveMovement
unfolding calculate_reserve_movement closing_shares needs_approval
authorize_reserve_movement input = do
  let currency = input.base.currency
  let scale = input.base.scale
  throw_if (is_blank input.pool_id) pool_required
  base ← calculate_reserve_movement input.base
  opening ← parse input.base.opening_balance currency scale
  movement ← parse input.base.movement_amount currency scale
  (investor_closing, bank_closing) ← closing_shares input opening movement
  closing ← parse base.closing_balance currency scale
  approval_required ← needs_approval input movement closing
  throw_if (if approval_required then approval_absent input.approval_id else false) approval_missing
  ok (record {
    base = base;
    pool_id = input.pool_id;
    investor_closing_balance = to_decimal_string investor_closing;
    bank_closing_balance = to_decimal_string bank_closing;
    approval_required = approval_required;
    approval_id = input.approval_id;
  })
