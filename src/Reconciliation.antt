-- ===== src/Reconciliation.antt =====
-- src/modules/accounting/domain/reconciliation.ts: the subledger against the general ledger.
pub mod Difference
pub mod Exact
mod Tests
use pms_backend.Base.{
  ℕ, zero, suc, ◌-◌, Bool, true, false, not, Option, none, some, List, [], ◌∷◌, ◌++◌, leb, ◌==◌,
  if◌then◌else◌, length, take, drop, some_of,
}
use pms_backend.Fault.{Result, ok, err, ◌>>=◌, exact_scale}
use pms_backend.Number.{num}
use pms_backend.Text.{Text, codes, text_eq}
use pms_backend.Decimal.{match_signed}
use pms_backend.Money.{Money, parse, subtract, to_decimal_string}

pub data ReconciliationState : Type 0 where
  matched variance : ReconciliationState

pub record Reconciliation : Type 0 where
  pub difference : Text
  pub state : ReconciliationState

-- The text of the last `return`.
abbrev pub cut_text : Bool → Text → Text → ℕ → Text
cut_text negative whole fraction zero = (if negative then b'-' ∷ [] else []) ++ whole
cut_text negative whole fraction (suc k) =
    (if negative then b'-' ∷ [] else []) ++ whole ++ b'.' ∷ take (suc k) fraction

-- `normalizeExactScale` behind `exec`, on a scale that is a natural number.
unfoldable pub normalize_matched : Text → Option (Bool × Text × Text) → ℕ → Result Text
normalize_matched amount none scale = ok amount
normalize_matched amount (some (negative, whole, fraction)) scale =
    if leb (length fraction) scale
    then ok amount
    else if some_of (λ c. not (c == b'0')) (drop scale fraction)
    then err exact_scale
    else ok (cut_text negative whole fraction scale)

abbrev pub normalize_exact_scale : Text → ℕ → Result Text
normalize_exact_scale amount scale = normalize_matched amount (match_signed amount) scale

-- `reconcileAmounts`
unfoldable pub reconcile_amounts : Text → Text → Text → ℕ → Result Reconciliation
unfolding normalize_matched
reconcile_amounts subledger_amount general_ledger_amount currency scale = do
  subledger_text ← normalize_exact_scale subledger_amount scale
  subledger ← parse subledger_text currency (num scale)
  general_ledger_text ← normalize_exact_scale general_ledger_amount scale
  general_ledger ← parse general_ledger_text currency (num scale)
  difference ← subtract subledger general_ledger
  zero_amount ← parse (codes "0") currency (num scale)
  let text = to_decimal_string difference
  ok (record {
    difference = text;
    state = if text_eq text (to_decimal_string zero_amount) then matched else variance;
  })
