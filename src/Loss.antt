-- ===== src/Loss.antt =====
-- libs/engine/src/loss-classification.ts: who bears a loss, and which buffer absorbs it first.
pub mod Cascade
pub mod Liable
pub mod Classified
mod Tests
use pms_backend.Base.{
  ℕ, zero, ◌-◌, Bool, true, false, Option, none, some, List, [], ◌∷◌, ◌++◌, ltb, ◌==◌,
  if◌then◌else◌, length, not,
}
use pms_backend.Base.Int.{ℤ, pos, ◌-ℤ◌, negsuc}
use pms_backend.Fault.{
  Result, ok, err, ◌>>=◌, ◌>>◌, throw_if, loss_scale, loss_not_positive, loss_not_canonical,
  loss_exceeds_scale, loss_conservation,
}
use pms_backend.Number.{Number, num, integer_within}
use pms_backend.Text.{Text}
use pms_backend.Decimal.{match_unsigned, units_of, print_unsigned}

pub data LossCause : Type 0 where
  ordinary_market_loss credit_loss external_operational_event manager_fault_or_negligence
        mandate_violation sharia_non_compliance :
      LossCause

pub data IrrAbsorptionPolicy : Type 0 where
  approved not_approved not_applicable : IrrAbsorptionPolicy

pub record LossAbsorptionInput : Type 0 where
  pub loss_amount : Text
  pub cause : LossCause
  pub irr_policy : IrrAbsorptionPolicy
  pub available_irr : Text
  pub available_per : Text
  pub available_depositor_capital : Text
  pub currency_scale : Option Number

pub data Liability : Type 0 where
  bank investors : Liability

-- The entries of `appliedCascade`.
pub data CascadeStep : Type 0 where
  bank_causal_liability irr per depositor_capital : CascadeStep

pub record LossAbsorptionResult : Type 0 where
  pub cause : LossCause
  pub liability : Liability
  pub irr_absorption : Text
  pub per_absorption : Text
  pub depositor_capital_absorption : Text
  pub bank_absorption : Text
  pub unabsorbed_loss : Text
  pub conservation_difference : Text
  pub applied_cascade : List CascadeStep

-- `isBankLiabilityCause`
unfoldable pub is_bank_liability_cause : LossCause → Bool
is_bank_liability_cause manager_fault_or_negligence = true
is_bank_liability_cause mandate_violation = true
is_bank_liability_cause sharia_non_compliance = true
is_bank_liability_cause _ = false

-- `take`
unfoldable pub take_available : ℕ → ℕ → ℕ
take_available available required = if ltb available required then available else required

units_matched : Option (Text × Text) → ℕ → Result ℕ
units_matched none scale = err loss_not_canonical
units_matched (some (integer, fraction)) scale =
    if ltb scale (length fraction)
    then err loss_exceeds_scale
    else ok (units_of integer fraction scale)

-- `units`
unfoldable pub units : Text → ℕ → Result ℕ
unfolding units_matched
units value scale = units_matched (match_unsigned value) scale

-- `decimal`
unfoldable pub decimal : ℕ → ℕ → Text
decimal value scale = print_unsigned value scale

-- The amounts that `classifyLossAbsorption` hands to `result`, in units.
pub record Absorption : Type 0 where
  pub irr_units : ℕ
  pub per_units : ℕ
  pub capital_units : ℕ
  pub bank_units : ℕ
  pub unabsorbed : ℕ
  pub cascade : List CascadeStep

-- What `result` returns.
unfoldable pub printed : LossCause → Absorption → ℕ → LossAbsorptionResult
printed cause a scale = record {
  cause = cause;
  liability = if is_bank_liability_cause cause then bank else investors;
  irr_absorption = decimal a.irr_units scale;
  per_absorption = decimal a.per_units scale;
  depositor_capital_absorption = decimal a.capital_units scale;
  bank_absorption = decimal a.bank_units scale;
  unabsorbed_loss = decimal a.unabsorbed scale;
  conservation_difference = decimal 0 scale;
  applied_cascade = a.cascade;
}

abbrev pub is_zero : ℤ → Bool
is_zero (pos zero) = true
is_zero _ = false

-- `result`
unfoldable pub result : LossCause → ℕ → Absorption → ℕ → Result LossAbsorptionResult
result cause loss a scale =
    let difference =
      pos loss
      -ℤ pos a.irr_units
      -ℤ pos a.per_units
      -ℤ pos a.capital_units
      -ℤ pos a.bank_units
      -ℤ pos a.unabsorbed in
    if is_zero difference then ok (printed cause a scale) else err loss_conservation

when_positive : ℕ → CascadeStep → List CascadeStep
when_positive amount step = if ltb 0 amount then step ∷ [] else []

-- The branch on the cause, and the three steps on `remaining`.
unfoldable pub absorb : LossCause → IrrAbsorptionPolicy → ℕ → ℕ → ℕ → ℕ → Absorption
unfolding when_positive take_available
absorb cause policy loss available_irr available_per available_capital =
    if is_bank_liability_cause cause
    then record {
      irr_units = 0;
      per_units = 0;
      capital_units = 0;
      bank_units = loss;
      unabsorbed = 0;
      cascade = bank_causal_liability ∷ [];
    }
    else let remaining : ℕ = loss in
      let i : ℕ = elim policy [ approved ↦ take_available available_irr remaining | _ ↦ 0 ] in
      let remaining = remaining - i in
      let p = take_available available_per remaining in
      let remaining = remaining - p in
      let c = take_available available_capital remaining in
      let remaining = remaining - c in
      record {
        irr_units = i;
        per_units = p;
        capital_units = c;
        bank_units = 0;
        unabsorbed = remaining;
        cascade = when_positive i irr ++ (when_positive p per ++ when_positive c depositor_capital);
      }

abbrev default_scale : Option Number → Number
default_scale none = num 2
default_scale (some n) = n

-- `classifyLossAbsorption`
unfoldable pub classify_loss_absorption : LossAbsorptionInput → Result LossAbsorptionResult
classify_loss_absorption input = do
  scale ← integer_within 12 loss_scale (default_scale input.currency_scale)
  loss ← units input.loss_amount scale
  throw_if (loss == 0) loss_not_positive
  available_irr ← units input.available_irr scale
  available_per ← units input.available_per scale
  available_capital ← units input.available_depositor_capital scale
  result input.cause loss
      (absorb input.cause input.irr_policy loss available_irr available_per available_capital) scale
