-- ===== src/Account.antt =====
-- src/modules/investment-accounts/domain/investment-account.ts: `class InvestmentAccount`.
pub mod Life
mod Tests
use pms_backend.Base.{
  ℕ, Bool, true, false, ◌&&◌, ◌||◌, not, Option, none, some, List, [], ◌∷◌, ◌++◌, leb, ◌==◌,
  if◌then◌else◌, length, every, take, drop,
}
use pms_backend.Base.Int.{ℤ}
use pms_backend.Fault.{
  Result, ok, err, ◌>>=◌, ◌>>◌, throw_if, account_state, account_not_uuid, customer_not_token,
  product_code_invalid, account_currency, business_date, closed_on_missing, account_before_opening,
}
use pms_backend.Text.{
  Text, codes, text_eq, text_lt, is_upper, is_lower, is_digit, is_empty, is_currency,
}
use pms_backend.Text.Uuid.{is_uuid}

pub data InvestmentAccountStatus : Type 0 where
  active suspended closed : InvestmentAccountStatus

pub record InvestmentAccountState : Type 0 where
  pub account_id : Text
  pub customer_token : Text
  pub product_code : Text
  pub currency : Text
  pub opened_on : Text
  pub status : InvestmentAccountStatus
  pub closed_on : Option Text

-- `Omit<InvestmentAccountState, 'status' | 'closedOn'>`
pub record InvestmentAccountInput : Type 0 where
  pub account_id : Text
  pub customer_token : Text
  pub product_code : Text
  pub currency : Text
  pub opened_on : Text

abbrev is_token_char : ℕ → Bool
is_token_char c = is_upper c || is_lower c || is_digit c || c == b'_' || c == b'-'

-- `/^tok_[A-Za-z0-9_-]{16,}$/`
unfoldable pub is_token : Text → Bool
is_token s =
    text_eq (take 4 s) (codes "tok_")
    && leb 16 (length (drop 4 s))
    && every is_token_char (drop 4 s)

abbrev is_code_char : ℕ → Bool
is_code_char c = is_upper c || is_digit c || c == b'_' || c == b'-'

-- `/^[A-Z0-9_-]{2,32}$/`
unfoldable pub is_product_code : Text → Bool
is_product_code s = leb 2 (length s) && leb (length s) 32 && every is_code_char s

-- `/^\d{4}-\d{2}-\d{2}$/`
unfoldable pub is_date_text : Text → Bool
is_date_text (a ∷ b ∷ c ∷ d ∷ h ∷ e ∷ f ∷ i ∷ g ∷ j ∷ []) =
    every is_digit (a ∷ b ∷ c ∷ d ∷ e ∷ f ∷ g ∷ j ∷ []) && h == b'-' && i == b'-'
is_date_text _ = false

abbrev pub is_active : InvestmentAccountStatus → Bool
is_active active = true
is_active _ = false

abbrev pub is_suspended : InvestmentAccountStatus → Bool
is_suspended suspended = true
is_suspended _ = false

abbrev pub is_closed : InvestmentAccountStatus → Bool
is_closed closed = true
is_closed _ = false

-- `!state.closedOn`
abbrev pub date_absent : Option Text → Bool
date_absent none = true
date_absent (some d) = is_empty d

-- `suspend`
unfoldable pub suspend : InvestmentAccountState → Result InvestmentAccountState
suspend state = do
  throw_if (not (is_active state.status)) account_state
  ok (record state { status = suspended })

-- `reactivate`
unfoldable pub reactivate : InvestmentAccountState → Result InvestmentAccountState
reactivate state = do
  throw_if (not (is_suspended state.status)) account_state
  ok (record state { status = active })

-- `Date.parse` (`none` where it gives NaN) is the platform's.
module _ (parse_date : Text → Option ℤ) where
  abbrev pub is_parsed : Text → Bool
  is_parsed value = elim (parse_date (value ++ codes "T00:00:00Z")) [ none ↦ false | some t ↦ true ]

  -- `assertDate`
  abbrev pub assert_date : Text → Result (Unit {0})
  assert_date value = throw_if (not (is_date_text value && is_parsed value)) business_date

  -- `validate`
  unfoldable pub validate : InvestmentAccountInput → Result (Unit {0})
  validate input = do
    throw_if (not (is_uuid input.account_id)) account_not_uuid
    throw_if (not (is_token input.customer_token)) customer_not_token
    throw_if (not (is_product_code input.product_code)) product_code_invalid
    throw_if (not (is_currency input.currency)) account_currency
    assert_date input.opened_on

  -- `InvestmentAccount.open`
  unfoldable pub open_account : InvestmentAccountInput → Result InvestmentAccountState
  unfolding validate
  open_account input = do
    validate input
    ok (record {
      account_id = input.account_id;
      customer_token = input.customer_token;
      product_code = input.product_code;
      currency = input.currency;
      opened_on = input.opened_on;
      status = active;
      closed_on = none;
    })

  abbrev pub input_of : InvestmentAccountState → InvestmentAccountInput
  input_of state = record {
    account_id = state.account_id;
    customer_token = state.customer_token;
    product_code = state.product_code;
    currency = state.currency;
    opened_on = state.opened_on;
  }

  -- `InvestmentAccount.restore`
  unfoldable pub restore : InvestmentAccountState → Result InvestmentAccountState
  unfolding validate
  restore state = do
    validate (input_of state)
    throw_if (is_closed state.status && date_absent state.closed_on) closed_on_missing
    ok state

  -- `close`
  unfoldable pub close_account : InvestmentAccountState → Text → Result InvestmentAccountState
  close_account state date = do
    assert_date date
    throw_if (is_closed state.status) account_state
    throw_if (text_lt date state.opened_on) account_before_opening
    ok (record state { status = closed; closed_on = some date })
