-- ===== src/Loss/Cascade.antt =====
-- The cascade conserves the loss, takes no more than is available, and in order.
use pms_backend.Base.{ℕ, ◌+◌, ◌≤◌, ◌<◌, ◌≡◌, true, false, arith, Bool-cases, inl, inr}
use pms_backend.Loss.Liable.{IsBankCause, is_bank_liability_cause_iff}
use pms_backend.Loss.{
  LossCause, IrrAbsorptionPolicy, approved, Absorption, is_bank_liability_cause, absorb,
}

abbrev pub total : Absorption → ℕ
total a = a.irr_units + a.per_units + a.capital_units + a.bank_units + a.unabsorbed

-- What the cascade promises: the stages sum to the loss, each takes no more than its buffer holds,
-- and a stage hands a loss on only once its buffer is used up.
pub record IsCascade (policy : IrrAbsorptionPolicy) (loss i p c : ℕ) (a : Absorption) : Type 0 where
  pub conserved : a.irr_units + a.per_units + a.capital_units + a.unabsorbed ≡ loss
  pub irr_within : a.irr_units ≤ i
  pub per_within : a.per_units ≤ p
  pub capital_within : a.capital_units ≤ c
  pub irr_needs_approval : 0 < a.irr_units → policy ≡ approved
  pub irr_first :
      policy ≡ approved → 0 < a.per_units + a.capital_units + a.unabsorbed → a.irr_units ≡ i
  pub per_second : 0 < a.capital_units + a.unabsorbed → a.per_units ≡ p
  pub capital_third : 0 < a.unabsorbed → a.capital_units ≡ c

module _ (cause : LossCause) (policy : IrrAbsorptionPolicy) (loss i p c : ℕ) where
  -- What is absorbed, borne by the bank and left over sums to the loss.
  pub total-absorb : total (absorb cause policy loss i p c) ≡ loss
  unfolding absorb
  total-absorb = ground arith

  -- A loss for which the bank is liable is borne by the bank alone.
  pub absorb_bank :
      is_bank_liability_cause cause ≡ true
      → ((absorb cause policy loss i p c).bank_units ≡ loss)
        × ((absorb cause policy loss i p c).irr_units ≡ 0)
        × ((absorb cause policy loss i p c).per_units ≡ 0)
        × ((absorb cause policy loss i p c).capital_units ≡ 0)
  unfolding absorb
  absorb_bank h = ground arith

  absorb_unliable :
      is_bank_liability_cause cause ≡ false
      → IsCascade policy loss i p c (absorb cause policy loss i p c)
        × ((absorb cause policy loss i p c).bank_units ≡ 0)
  unfolding absorb
  absorb_unliable h = ground arith

  -- A loss that the bank has not caused goes down the cascade whole, and the bank bears none of it.
  pub absorb-IsCascade :
      (IsBankCause cause → ⊥)
      → IsCascade policy loss i p c (absorb cause policy loss i p c)
        × ((absorb cause policy loss i p c).bank_units ≡ 0)
  absorb-IsCascade other = elim (Bool-cases (is_bank_liability_cause cause)) [
    | inl liable ↦ absurd (other ((is_bank_liability_cause_iff cause).0 liable))
    | inr free ↦ absorb_unliable free
  ]
