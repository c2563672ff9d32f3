-- ===== src/Loss/Tests.antt =====
-- A loss of 100.00 against an IRR of 30.00, a PER of 20.00 and a capital of 40.00.
use pms_backend.Base.{ℕ, ◌≡◌, refl, none, [], ◌∷◌}
use pms_backend.Fault.{ok}
use pms_backend.Number.{integer_within}
use pms_backend.Text.{codes}
use pms_backend.Base.Int.{◌-ℤ◌}
use pms_backend.Decimal.{running}
use pms_backend.Loss.{
  LossAbsorptionInput, LossAbsorptionResult, Absorption, credit_loss, mandate_violation, approved,
  investors, irr, per, depositor_capital, units, decimal, absorb, result, printed,
  is_bank_liability_cause, classify_loss_absorption,
}
use pms_backend.Loss.Liable.{IsBankCause, is_bank_liability_cause_iff}
use pms_backend.Loss.Cascade.{IsCascade, total, total-absorb, absorb_bank, absorb-IsCascade}
use pms_backend.Loss.Classified.{classify_loss_absorption-conserves}

abbrev input : LossAbsorptionInput
input = record {
  loss_amount = codes "100";
  cause = credit_loss;
  irr_policy = approved;
  available_irr = codes "30.00";
  available_per = codes "20";
  available_depositor_capital = codes "40.5";
  currency_scale = none;
}

abbrev outcome : LossAbsorptionResult
outcome = record {
  cause = credit_loss;
  liability = investors;
  irr_absorption = codes "30.00";
  per_absorption = codes "20.00";
  depositor_capital_absorption = codes "40.50";
  bank_absorption = codes "0.00";
  unabsorbed_loss = codes "9.50";
  conservation_difference = codes "0.00";
  applied_cascade = irr ∷ per ∷ depositor_capital ∷ [];
}

classify_input : classify_loss_absorption input ≡ ok outcome
unfolding classify_loss_absorption units absorb result printed is_bank_liability_cause decimal
    integer_within running ◌-ℤ◌
classify_input = refl

total-absorb_example : total (absorb credit_loss approved 100 30 20 40) ≡ 100
total-absorb_example = total-absorb credit_loss approved 100 30 20 40

absorb_bank_example :
    ((absorb mandate_violation approved 100 30 20 40).bank_units ≡ 100)
    × ((absorb mandate_violation approved 100 30 20 40).irr_units ≡ 0)
    × ((absorb mandate_violation approved 100 30 20 40).per_units ≡ 0)
    × ((absorb mandate_violation approved 100 30 20 40).capital_units ≡ 0)
unfolding is_bank_liability_cause
absorb_bank_example = absorb_bank mandate_violation approved 100 30 20 40 refl

not_caused : IsBankCause credit_loss → ⊥
unfolding is_bank_liability_cause
not_caused c = let liable = (is_bank_liability_cause_iff credit_loss).1 c in cc liable

absorb-IsCascade_example :
    IsCascade approved 100 30 20 40 (absorb credit_loss approved 100 30 20 40)
    × ((absorb credit_loss approved 100 30 20 40).bank_units ≡ 0)
absorb-IsCascade_example = absorb-IsCascade credit_loss approved 100 30 20 40 not_caused

classify_loss_absorption-conserves_example :
    (s : ℕ) × (a : Absorption) × (units (codes "30.00") s ≡ ok a.irr_units)
    × (units (codes "20.00") s ≡ ok a.per_units)
    × (units (codes "40.50") s ≡ ok a.capital_units)
    × (units (codes "0.00") s ≡ ok a.bank_units)
    × (units (codes "9.50") s ≡ ok a.unabsorbed)
    × (units (codes "100") s ≡ ok (total a))
classify_loss_absorption-conserves_example =
    classify_loss_absorption-conserves input outcome classify_input
