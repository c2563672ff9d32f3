-- ===== src/Accounting/Tests.antt =====
-- Accounting events at concrete inputs.
use pms_backend.Base.{◌≡◌, refl, List, [], ◌∷◌, arith}
use pms_backend.Fault.{ok, err, acknowledgement_transition}
use pms_backend.Text.{Text, codes, is_blank}
use pms_backend.Accounting.{
  revenue, pending, acknowledged, rejected, retried, reversed, AccountingAcknowledgementState,
  AccountingSourceKey, accounting_source_key, allowed, next_acknowledgement_state,
}
use pms_backend.Accounting.Acknowledgement.{acknowledge_all, Answered, acknowledge_all-Answered}
use pms_backend.Accounting.SourceKey.{accounting_source_key_injective}

unfoldable posting : Unit {0}
unfolding is_blank accounting_source_key allowed next_acknowledgement_state acknowledge_all
posting = tt

abbrev answers : List AccountingAcknowledgementState
answers = rejected ∷ retried ∷ rejected ∷ retried ∷ reversed ∷ []

answers_accepted : acknowledge_all pending answers ≡ ok reversed
unfolding posting
answers_accepted = refl

acknowledged_stays :
    next_acknowledgement_state acknowledged reversed ≡ err acknowledgement_transition
unfolding posting
acknowledged_stays = refl

acknowledge_all-Answered_example : Answered pending answers reversed
acknowledge_all-Answered_example =
    acknowledge_all-Answered pending answers reversed answers_accepted

abbrev source : Text → Text → AccountingSourceKey
source run pool = record {
  run_id = run;
  pool_id = pool;
  product_id = codes "P";
  event_type = revenue;
  event_id = codes "1:2";
}

-- Identifiers that hold a colon can give two sources one key.
key_shared :
    accounting_source_key (source (codes "a:b") (codes "c"))
    ≡ accounting_source_key (source (codes "a") (codes "b:c"))
unfolding posting
key_shared = refl

plain_key : accounting_source_key (source (codes "a") (codes "b")) ≡ ok (codes "a:b:P:REVENUE:1:2")
unfolding posting
plain_key = refl

accounting_source_key_injective_example :
    source (codes "a") (codes "b") ≡ source (codes "a") (codes "b")
accounting_source_key_injective_example =
    accounting_source_key_injective (source (codes "a") (codes "b"))
      (source (codes "a") (codes "b")) (omega arith, omega arith, omega arith)
      (omega arith, omega arith, omega arith) plain_key plain_key
