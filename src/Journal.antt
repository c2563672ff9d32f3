-- ===== src/Journal.antt =====
-- src/modules/accounting/domain/balanced-journal.ts: journals that balance in each currency.
pub mod Balance
pub mod Reversal
pub mod Shares
mod Tests
use pms_backend.Base.{
  ℕ, Bool, true, false, ◌&&◌, ◌||◌, not, Option, none, some, List, [], ◌∷◌, ◌++◌, map, ltb, leb,
  ◌==◌, if◌then◌else◌, length, every,
}
use pms_backend.Base.Int.{negate}
use pms_backend.Fault.{
  Result, ok, err, ◌>>=◌, ◌>>◌, throw_if, too_few_lines, ledger_account_code, one_positive_side,
  journal_not_balanced, allocation_currency,
}
use pms_backend.Number.{Number, Sign, less, same, more, is_more, is_same, is_less}
use pms_backend.Text.{Text, codes, text_eq, is_upper, is_digit}
use pms_backend.Money.{Money, parse, from_minor_units, add, compare, to_decimal_string}
use pms_backend.Allocation.{AllocationResult}

-- `participantId` is `none` where it is absent or null: nothing here tells these apart.
pub record JournalLineDraft : Type 0 where
  pub account_code : Text
  pub currency : Text
  pub debit : Text
  pub credit : Text
  pub participant_id : Option Text

is_account_char : ℕ → Bool
is_account_char c =
    is_upper c || is_digit c || (leb b'a' c && leb c b'f') || c == b':' || c == b'_' || c == b'-'

-- `/^[A-Z0-9a-f:_-]{2,128}$/`
unfoldable pub is_account_code : Text → Bool
unfolding is_account_char
is_account_code s = leb 2 (length s) && leb (length s) 128 && every is_account_char s

-- An entry of the map `totals`.
pub record Total : Type 0 where
  pub currency : Text
  pub debit : Money
  pub credit : Money

-- `totals.get(currency) ?? { debit: zero, credit: zero }`
unfoldable pub get_total : Text → Money → List Total → Total
get_total c zero [] = record { currency = c; debit = zero; credit = zero }
get_total c zero (t ∷ ts) = if text_eq t.currency c then t else get_total c zero ts

-- `totals.set(currency, total)`: in place, or behind the other keys.
unfoldable pub set_total : Total → List Total → List Total
set_total t [] = t ∷ []
set_total t (u ∷ us) = if text_eq u.currency t.currency then t ∷ us else u ∷ set_total t us

-- The body of the first loop of `assertBalancedJournal`.
unfoldable pub add_line : Number → JournalLineDraft → List Total → Result (List Total)
add_line scale line totals = do
  throw_if (not (is_account_code line.account_code)) ledger_account_code
  debit ← parse line.debit line.currency scale
  credit ← parse line.credit line.currency scale
  zero ← parse (codes "0") line.currency scale
  debit_sign ← compare debit zero
  credit_sign ← compare credit zero
  throw_if (if is_more debit_sign then is_more credit_sign else not (is_more credit_sign))
      one_positive_side
  let current = get_total line.currency zero totals
  debit_total ← add current.debit debit
  credit_total ← add current.credit credit
  ok (
      set_total (record { currency = line.currency; debit = debit_total; credit = credit_total })
        totals)

unfoldable pub add_lines : Number → List JournalLineDraft → List Total → Result (List Total)
add_lines scale [] totals = ok totals
add_lines scale (line ∷ lines) totals = do
  totals' ← add_line scale line totals
  add_lines scale lines totals'

-- The second loop.
unfoldable pub check_totals : List Total → Result (Unit {0})
check_totals [] = ok tt
check_totals (t ∷ ts) = do
  sign ← compare t.debit t.credit
  throw_if (not (is_same sign)) (journal_not_balanced t.currency)
  check_totals ts

-- `assertBalancedJournal`
unfoldable pub assert_balanced_journal : List JournalLineDraft → Number → Result (Unit {0})
assert_balanced_journal lines scale = do
  throw_if (ltb (length lines) 2) too_few_lines
  totals ← add_lines scale lines []
  check_totals totals

abbrev pub swap_sides : JournalLineDraft → JournalLineDraft
swap_sides line = record line { debit = line.credit; credit = line.debit }

-- `reverseJournalLines`
unfoldable pub reverse_journal_lines :
    List JournalLineDraft → Number → Result (List JournalLineDraft)
reverse_journal_lines lines scale = do
  assert_balanced_journal lines scale
  let reversed = map swap_sides lines
  assert_balanced_journal reversed scale
  ok reversed

-- `amount.compare(zero) < 0 ? Money.fromMinorUnits(-units).toDecimalString() : …`
unfoldable pub absolute_text : Sign → Money → Text → Number → Result Text
absolute_text less m currency scale = do
  opposite ← from_minor_units (negate m.minor_units) currency scale
  ok (to_decimal_string opposite)
absolute_text _ m currency scale = ok (to_decimal_string m)

-- A line with its amount on the debit or the credit side, and `0` on the other.
abbrev pub one_sided : Bool → Text → Text → Text → JournalLineDraft
one_sided on_debit account currency amount = record {
  account_code = account;
  currency = currency;
  debit = if on_debit then amount else codes "0";
  credit = if on_debit then codes "0" else amount;
  participant_id = none;
}

-- The loop over the allocations.
unfoldable pub allocation_lines :
    Bool → Money → Text → Number → List AllocationResult → Result (List JournalLineDraft)
unfolding absolute_text
allocation_lines profit zero currency scale [] = ok []
allocation_lines profit zero currency scale (a ∷ others) = do
  throw_if (not (text_eq a.currency currency)) allocation_currency
  amount ← parse a.amount currency scale
  sign ← compare amount zero
  absolute ← absolute_text sign amount currency scale
  rest ← allocation_lines profit zero currency scale others
  ok (one_sided (not profit) (codes "INVESTMENT:" ++ a.participant_id) currency absolute ∷ rest)

-- The first line: the total on its side, its opposite on the credit side for a loss.
unfoldable pub pool_line : Bool → Money → Text → Number → Result JournalLineDraft
pool_line profit total currency scale =
    if profit
    then ok (one_sided true (codes "POOL:DISTRIBUTABLE") currency (to_decimal_string total))
    else (do
      opposite ← from_minor_units (negate total.minor_units) currency scale
      ok (one_sided false (codes "POOL:DISTRIBUTABLE") currency (to_decimal_string opposite)))

-- `allocationJournalLines`
unfoldable pub allocation_journal_lines :
    List AllocationResult → Text → Text → Number → Result (List JournalLineDraft)
unfolding pool_line
allocation_journal_lines allocations distributable_amount currency scale = do
  total ← parse distributable_amount currency scale
  zero ← parse (codes "0") currency scale
  sign ← compare total zero
  let profit = not (is_less sign)
  first ← pool_line profit total currency scale
  rest ← allocation_lines profit zero currency scale allocations
  assert_balanced_journal (first ∷ rest) scale
  ok (first ∷ rest)
