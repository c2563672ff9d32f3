-- ===== src/Journal/Tests.antt =====
-- Journals at concrete inputs.
use pms_backend.Base.{All, ◌≡◌, refl, ◌≤◌, none, List, [], ◌∷◌, map, length}
use pms_backend.Fault.{ok, err, one_positive_side, journal_not_balanced}
use pms_backend.Base.Int.{◌+ℤ◌}
use pms_backend.Number.{num}
use pms_backend.Text.{Text, codes, is_currency, text_eq}
use pms_backend.Decimal.{running}
use pms_backend.Money.{parse, add, compare, from_minor_units, to_decimal_string}
use pms_backend.Journal.{
  JournalLineDraft, assert_balanced_journal, allocation_journal_lines, reverse_journal_lines,
  swap_sides, is_account_code, add_line, add_lines, check_totals, get_total, set_total,
  allocation_lines, pool_line,
}
use pms_backend.Journal.Balance.{assert_balanced_journal_sound, debit_sum, credit_sum}
use pms_backend.Allocation.{AllocationResult}
use pms_backend.Journal.Shares.{IsPostable, allocation_journal_lines-IsPostable}
use pms_backend.Journal.Reversal.{reverse_journal_lines_lem}

unfoldable booking : Unit {0}
unfolding running is_currency text_eq ◌+ℤ◌ parse add compare from_minor_units to_decimal_string
    is_account_code add_line add_lines check_totals get_total set_total assert_balanced_journal
    allocation_lines pool_line allocation_journal_lines
booking = tt

abbrev line : Text → Text → Text → JournalLineDraft
line account debit credit = record {
  account_code = account;
  currency = codes "TND";
  debit = debit;
  credit = credit;
  participant_id = none;
}

abbrev sample : List JournalLineDraft
sample =
    line (codes "POOL:A") (codes "10.5") (codes "0")
    ∷ line (codes "INV:1") (codes "0") (codes "4.25")
    ∷ line (codes "INV:2") (codes "0") (codes "6.25")
    ∷ []

sample_accepted : assert_balanced_journal sample (num 2) ≡ ok tt
unfolding booking
sample_accepted = refl

unbalanced_refused :
    assert_balanced_journal
      (line (codes "AA") (codes "1") (codes "0") ∷ line (codes "BB") (codes "0") (codes "2") ∷ [])
      (num 2)
    ≡ err (journal_not_balanced (codes "TND"))
unfolding booking
unbalanced_refused = refl

-- A participant whose share is 0 makes the journal of an allocation impossible.
zero_share_refused :
    allocation_journal_lines
      (record { participant_id = codes "P1"; amount = codes "1.00"; currency = codes "TND" }
        ∷ record { participant_id = codes "P2"; amount = codes "0.00"; currency = codes "TND" }
        ∷ [])
      (codes "1.00")
      (codes "TND")
      (num 2)
    ≡ err one_positive_side
unfolding booking
zero_share_refused = refl

assert_balanced_journal_sound_example :
    (2 ≤ length sample) × ((c : Text) → debit_sum c (num 2) sample ≡ credit_sum c (num 2) sample)
assert_balanced_journal_sound_example = assert_balanced_journal_sound sample (num 2) sample_accepted

reverse_journal_lines_lem_example :
    (reverse_journal_lines sample (num 2) ≡ ok (map swap_sides sample))
    × (reverse_journal_lines (map swap_sides sample) (num 2) ≡ ok sample)
reverse_journal_lines_lem_example = reverse_journal_lines_lem sample (num 2) sample_accepted

abbrev posted : List AllocationResult
posted =
    record { participant_id = codes "P1"; amount = codes "0.75"; currency = codes "TND" }
    ∷ record { participant_id = codes "P2"; amount = codes "0.25"; currency = codes "TND" }
    ∷ []

abbrev posted_lines : List JournalLineDraft
posted_lines =
    line (codes "POOL:DISTRIBUTABLE") (codes "1.00") (codes "0")
    ∷ line (codes "INVESTMENT:P1") (codes "0") (codes "0.75")
    ∷ line (codes "INVESTMENT:P2") (codes "0") (codes "0.25")
    ∷ []

posted_accepted :
    allocation_journal_lines posted (codes "1") (codes "TND") (num 2) ≡ ok posted_lines
unfolding booking
posted_accepted = refl

allocation_journal_lines-IsPostable_example : All (IsPostable (codes "TND") (num 2)) posted
allocation_journal_lines-IsPostable_example =
    allocation_journal_lines-IsPostable posted (codes "1") (codes "TND") (num 2) posted_lines
      posted_accepted
