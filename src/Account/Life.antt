-- ===== src/Account/Life.antt =====
-- The life of an account that was opened.
use pms_backend.Base.{
  ◌≡◌, refl, ap, subst, ◌∙◌, Bool, true, false, ◌&&◌, not, Option, none, some, [], ◌∷◌, arith,
}
use pms_backend.Base.Int.{ℤ}
use pms_backend.Fault.{
  ok, throw_if, >>=_returns, ok_injective, account_state, business_date, account_before_opening,
  closed_on_missing,
}
use pms_backend.Text.{Text, text_lt, is_empty}
use pms_backend.Account.{
  InvestmentAccountStatus, InvestmentAccountState, InvestmentAccountInput, is_active, is_suspended,
  is_closed, is_date_text, is_parsed, suspend, reactivate, assert_date, validate, open_account,
  restore, input_of, close_account, date_absent,
}

module _ (parse_date : Text → Option ℤ) where
  -- What can be reached from an opening.
  pub data Reachable (input : InvestmentAccountInput) : InvestmentAccountState → Type 0 where
    opened : (s : InvestmentAccountState) → open_account parse_date input ≡ ok s → Reachable input s
    after_suspend :
        (s t : InvestmentAccountState) → Reachable input s → suspend s ≡ ok t → Reachable input t
    after_reactivate :
        (s t : InvestmentAccountState) → Reachable input s → reactivate s ≡ ok t → Reachable input t
    after_close :
        (s t : InvestmentAccountState) (date : Text)
        → Reachable input s
        → close_account parse_date s date ≡ ok t
        → Reachable input t

  -- The dates of an account: a closing date is a date from the opening date on, and only a closed
  -- account has one.
  abbrev pub Dated : InvestmentAccountState → Type 0
  Dated s =
      (is_closed s.status ≡ true
        → (d : Text) × (s.closed_on ≡ some d)
          × (is_date_text d ≡ true)
          × (is_parsed parse_date d ≡ true)
          × (text_lt d s.opened_on ≡ false))
      × (is_closed s.status ≡ false → s.closed_on ≡ none)

  abbrev pub IsSound : InvestmentAccountInput → InvestmentAccountState → Type 0
  IsSound input s = (validate parse_date input ≡ ok tt) × (input_of parse_date s ≡ input) × Dated s

  opened-IsSound :
      (input : InvestmentAccountInput) (s : InvestmentAccountState)
      → open_account parse_date input ≡ ok s
      → IsSound input s
  unfolding open_account
  opened-IsSound input s h =
      let (_, v, h1) = >>=_returns (validate parse_date input) _ h in
      subst (IsSound input) (ok_injective h1) (v, refl, (λ c. cc, λ c. refl))

  open_after : (b c : Bool) → throw_if (not b) account_state ≡ ok tt → b ≡ true
  open_after b c h = ground arith

  active_open : (s : InvestmentAccountStatus) → is_active s ≡ true → is_closed s ≡ false
  active_open s h = ground arith

  suspended_open : (s : InvestmentAccountStatus) → is_suspended s ≡ true → is_closed s ≡ false
  suspended_open s h = ground arith

  suspend-IsSound :
      (input : InvestmentAccountInput) (s t : InvestmentAccountState)
      → IsSound input s
      → suspend s ≡ ok t
      → IsSound input t
  unfolding suspend
  suspend-IsSound input s t (v, same, (_, d)) h =
      let (_, a, h1) = >>=_returns (throw_if (not (is_active s.status)) account_state) _ h in
      let still_open = active_open s.status (open_after (is_active s.status) true a) in
      subst (IsSound input) (ok_injective h1) (v, same, (λ c. cc, λ c. d still_open))

  reactivate-IsSound :
      (input : InvestmentAccountInput) (s t : InvestmentAccountState)
      → IsSound input s
      → reactivate s ≡ ok t
      → IsSound input t
  unfolding reactivate
  reactivate-IsSound input s t (v, same, (_, d)) h =
      let (_, a, h1) = >>=_returns (throw_if (not (is_suspended s.status)) account_state) _ h in
      let still_open = suspended_open s.status (open_after (is_suspended s.status) true a) in
      subst (IsSound input) (ok_injective h1) (v, same, (λ c. cc, λ c. d still_open))

  date_shape :
      (a b : Bool) → throw_if (not (a && b)) business_date ≡ ok tt → (a ≡ true) × (b ≡ true)
  date_shape a b h = ground arith

  ordered_shape : (b : Bool) → throw_if b account_before_opening ≡ ok tt → b ≡ false
  ordered_shape b h = ground arith

  close-IsSound :
      (input : InvestmentAccountInput) (s t : InvestmentAccountState) (date : Text)
      → IsSound input s
      → close_account parse_date s date ≡ ok t
      → IsSound input t
  unfolding close_account
  close-IsSound input s t date (v, same, _) h =
      let (_, a, h1) = >>=_returns (assert_date parse_date date) _ h in
      let (_, _, h2) = >>=_returns (throw_if (is_closed s.status) account_state) _ h1 in
      let (_, o, h3) =
        >>=_returns (throw_if (text_lt date s.opened_on) account_before_opening) _ h2 in
      let (spelled, parsed) = date_shape (is_date_text date) (is_parsed parse_date date) a in
      subst (IsSound input) (ok_injective h3) (
        v,
        same,
        (λ c. (date, refl, spelled, parsed, ordered_shape (text_lt date s.opened_on) o), λ c. cc),
      )

  -- An account that was opened keeps its identity and its opening date whatever is done with it; it has
  -- a closing date exactly while it is closed, and that date is not before the opening date.
  pub reachable-IsSound :
      (input : InvestmentAccountInput) {s : InvestmentAccountState}
      → Reachable input s
      → IsSound input s
  reachable-IsSound input (opened s h) = opened-IsSound input s h
  reachable-IsSound input (after_suspend s t run h) =
      suspend-IsSound input s t (reachable-IsSound input run) h
  reachable-IsSound input (after_reactivate s t run h) =
      reactivate-IsSound input s t (reachable-IsSound input run) h
  reachable-IsSound input (after_close s t date run h) =
      close-IsSound input s t date (reachable-IsSound input run) h

  dated_present : (d : Text) → is_date_text d ≡ true → is_empty d ≡ false
  unfolding is_date_text
  dated_present [] h = cc
  dated_present (c ∷ d) h = refl

  closing_present :
      (b : Bool) (o : Option Text)
      → (b ≡ true → (d : Text) × (o ≡ some d) × (is_date_text d ≡ true))
      → throw_if (b && date_absent o) closed_on_missing ≡ ok tt
  closing_present false o h = refl
  closing_present true o h = let (d, e, spelled) = h refl in rw (e, dated_present d spelled) refl

  -- The snapshot of an account that was opened is restored unchanged.
  pub restore-Reachable :
      (input : InvestmentAccountInput) {s : InvestmentAccountState}
      → Reachable input s
      → restore parse_date s ≡ ok s
  unfolding restore
  restore-Reachable input {s} run =
      let (v, same, dated) = reachable-IsSound input run in
      let (on_close, _) = dated in
      let kept : validate parse_date (input_of parse_date s) ≡ ok tt =
        ap (validate parse_date) same ∙ v in
      let passed =
        closing_present (is_closed s.status) s.closed_on
          (λ c. let (d, e, spelled, _, _) = on_close c in (d, e, spelled)) in
      rw (kept, passed) refl
