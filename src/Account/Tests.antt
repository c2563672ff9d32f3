-- ===== src/Account/Tests.antt =====
-- An account at concrete inputs.
use pms_backend.Base.{◌≡◌, refl, Option, none, some, [], ◌∷◌, length}
use pms_backend.Base.Int.{ℤ, pos}
use pms_backend.Fault.{ok, err, account_before_opening}
use pms_backend.Text.{Text, codes, text_eq, text_lt, is_currency}
use pms_backend.Text.Uuid.{is_uuid}
use pms_backend.Account.{
  active, closed, InvestmentAccountState, InvestmentAccountInput, is_token, is_product_code,
  is_date_text, validate, open_account, close_account,
}
use pms_backend.Account.Life.{Reachable, opened, after_close, IsSound, reachable-IsSound}

unfoldable banking : Unit {0}
unfolding text_eq text_lt is_currency is_uuid is_token is_product_code is_date_text validate
    open_account close_account
banking = tt

-- A stand-in for the platform's `Date.parse`: the length of the text.
abbrev parse_length : Text → Option ℤ
parse_length [] = none
parse_length (c ∷ s) = some (pos (length (c ∷ s)))

abbrev input : InvestmentAccountInput
input = record {
  account_id = codes "123e4567-e89b-42d3-a456-426614174000";
  customer_token = codes "tok_ABCDEFGHIJKLMNOP";
  product_code = codes "MUDARABA_1";
  currency = codes "TND";
  opened_on = codes "2024-01-31";
}

abbrev first : InvestmentAccountState
first = record {
  account_id = input.account_id;
  customer_token = input.customer_token;
  product_code = input.product_code;
  currency = input.currency;
  opened_on = input.opened_on;
  status = active;
  closed_on = none;
}

abbrev last : InvestmentAccountState
last = record first { status = closed; closed_on = some (codes "2024-02-01") }

first_opened : open_account parse_length input ≡ ok first
unfolding banking
first_opened = refl

last_closed : close_account parse_length first (codes "2024-02-01") ≡ ok last
unfolding banking
last_closed = refl

early_refused : close_account parse_length first (codes "2023-12-31") ≡ err account_before_opening
unfolding banking
early_refused = refl

abbrev run : Reachable parse_length input last
run = after_close first last (codes "2024-02-01") (opened first first_opened) last_closed

reachable-IsSound_example : IsSound parse_length input last
reachable-IsSound_example = reachable-IsSound parse_length input run
