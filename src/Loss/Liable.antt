-- ===== src/Loss/Liable.antt =====
-- The causes for which a bank bears a loss, as the engines test them.
use pms_backend.Base.{◌≡◌, ◌↔◌, ◌⊎◌, true, Option, none, some, arith}
use pms_backend.Loss.{
  LossCause, manager_fault_or_negligence, mandate_violation, sharia_non_compliance,
  is_bank_liability_cause,
}

-- A loss that the bank has caused: by a fault, against the mandate, or against the Sharia.
abbrev pub IsBankCause : LossCause → Type 0
IsBankCause cause =
    (cause ≡ manager_fault_or_negligence)
    ⊎ ((cause ≡ mandate_violation) ⊎ (cause ≡ sharia_non_compliance))

-- The bank is liable for a cause that is known and its own.
abbrev pub IsBankLiable : Option LossCause → Type 0
IsBankLiable none = ⊥
IsBankLiable (some cause) = IsBankCause cause

pub is_bank_liability_cause_iff :
    (cause : LossCause) → (is_bank_liability_cause cause ≡ true) ↔ IsBankCause cause
unfolding is_bank_liability_cause
is_bank_liability_cause_iff cause = ground arith
