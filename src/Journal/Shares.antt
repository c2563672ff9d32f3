-- ===== src/Journal/Shares.antt =====
-- Which allocations can be posted.
use pms_backend.Base.{
  ◌≡◌, ◌≢◌, sym, ap, subst, ◌∙◌, Bool, true, false, not, List, [], ◌∷◌, ◌++◌, All, arith,
  if◌then◌else◌, length, ltb,
}
use pms_backend.Base.Int.{ℤ, pos, ltb_ℤ}
use pms_backend.Fault.{
  ok, throw_if, >>=_returns, ok_injective, ledger_account_code, one_positive_side, too_few_lines,
  allocation_currency,
}
use pms_backend.Number.{Number, Sign, less, same, more, is_more, is_less}
use pms_backend.Text.{Text, codes, text_eq, text_eq_iff}
use pms_backend.Money.{Money, parse, compare, to_decimal_string}
use pms_backend.Journal.{
  JournalLineDraft, Total, add_line, add_lines, assert_balanced_journal, is_account_code, one_sided,
  absolute_text, allocation_lines, pool_line, allocation_journal_lines,
}
use pms_backend.Journal.Balance.{parse_zero}
use pms_backend.Journal.Reversal.{one_side}
use pms_backend.Money.Amounts.{parse-InUnits, parse_printed, compare-is_more}
use pms_backend.Allocation.{AllocationResult}

-- Exactly one side of a line is positive.
abbrev pub Sided : Number → JournalLineDraft → Type 0
Sided scale l =
    (d : Money) × (k : Money) × (parse l.debit l.currency scale ≡ ok d)
    × (parse l.credit l.currency scale ≡ ok k)
    × (ltb_ℤ (pos 0) k.minor_units ≡ not (ltb_ℤ (pos 0) d.minor_units))

add_line-Sided :
    (scale : Number) (line : JournalLineDraft) (totals : List Total) {after : List Total}
    → add_line scale line totals ≡ ok after
    → Sided scale line
unfolding add_line
add_line-Sided scale line totals {after} h =
    let (_, code, h1) =
      >>=_returns (throw_if (not (is_account_code line.account_code)) ledger_account_code) _ h in
    let (d, pd, h2) = >>=_returns (parse line.debit line.currency scale) _ h1 in
    let (k, pk, h3) = >>=_returns (parse line.credit line.currency scale) _ h2 in
    let (z, pz, h4) = >>=_returns (parse (codes "0") line.currency scale) _ h3 in
    let (s, sd, h5) = >>=_returns (compare d z) _ h4 in
    let (r, sr, h6) = >>=_returns (compare k z) _ h5 in
    let (_, one, h7) =
      >>=_returns (throw_if (if is_more s then is_more r else not (is_more r)) one_positive_side) _
        h6 in
    let zero = parse_zero line.currency scale pz in
    let debit_sign = compare-is_more d z s sd ∙ ap (λ u. ltb_ℤ u d.minor_units) zero in
    let credit_sign = compare-is_more k z r sr ∙ ap (λ u. ltb_ℤ u k.minor_units) zero in
    (d, k, pd, pk, sym credit_sign ∙ one_side (is_more s) (is_more r) one ∙ ap not debit_sign)

add_lines-Sided :
    (scale : Number) (lines : List JournalLineDraft) (totals : List Total) {after : List Total}
    → add_lines scale lines totals ≡ ok after
    → All (Sided scale) lines
unfolding add_lines
add_lines-Sided scale [] totals h = tt
add_lines-Sided scale (line ∷ lines) totals {after} h =
    let (mid, here, rest) = >>=_returns (add_line scale line totals) _ h in
    (add_line-Sided scale line totals here, add_lines-Sided scale lines mid rest)

assert-Sided :
    (lines : List JournalLineDraft) (scale : Number)
    → assert_balanced_journal lines scale ≡ ok tt
    → All (Sided scale) lines
unfolding assert_balanced_journal
assert-Sided lines scale h =
    let (_, enough, h1) = >>=_returns (throw_if (ltb (length lines) 2) too_few_lines) _ h in
    let (ts, added, checked) = >>=_returns (add_lines scale lines []) _ h1 in
    add_lines-Sided scale lines [] added

-- A share that can be posted.
abbrev pub IsPostable : Text → Number → AllocationResult → Type 0
IsPostable currency scale a =
    (m : Money) × (a.currency ≡ currency)
    × (parse a.amount currency scale ≡ ok m)
    × (m.minor_units ≢ pos 0)

clash : (x y : ℤ) → x ≡ pos 0 → y ≡ pos 0 → ltb_ℤ (pos 0) y ≡ not (ltb_ℤ (pos 0) x) → ⊥
clash x y ex ey h = ground arith

-- A line whose amount counts no units has no positive side.
zero_line-refused :
    (on_debit : Bool) (account currency text : Text) (scale : Number) (m : Money)
    → parse text currency scale ≡ ok m
    → m.minor_units ≡ pos 0
    → ¬ (Sided scale (one_sided on_debit account currency text))
zero_line-refused true account currency text scale m pm e (d, k, pd, pk, one) =
    let dz = ap (λ (x : Money). x.minor_units) (ok_injective (sym pd ∙ pm)) ∙ e in
    let kz = parse_zero currency scale pk in clash d.minor_units k.minor_units dz kz one
zero_line-refused false account currency text scale m pm e (d, k, pd, pk, one) =
    let kz = ap (λ (x : Money). x.minor_units) (ok_injective (sym pk ∙ pm)) ∙ e in
    let dz = parse_zero currency scale pd in clash d.minor_units k.minor_units dz kz one

-- Of an amount without units the text is its print.
text_of_zero :
    (m z : Money) (s : Sign) (c text : Text) (n : Number)
    → compare m z ≡ ok s
    → m.minor_units ≡ pos 0
    → z.minor_units ≡ pos 0
    → absolute_text s m c n ≡ ok text
    → to_decimal_string m ≡ text
unfolding compare absolute_text
text_of_zero m z less c text n h em ez t = absurd (ground arith)
text_of_zero m z same c text n h em ez t = ok_injective t
text_of_zero m z more c text n h em ez t = ok_injective t

same_currency : (a c : Text) → throw_if (not (text_eq a c)) allocation_currency ≡ ok tt → a ≡ c
same_currency a c h = ground (arith, text_eq_iff a c)

allocation_lines-IsPostable :
    (profit : Bool) (zero : Money) (currency : Text) (scale : Number)
    (shares : List AllocationResult) (lines : List JournalLineDraft)
    → zero.minor_units ≡ pos 0
    → allocation_lines profit zero currency scale shares ≡ ok lines
    → All (Sided scale) lines
    → All (IsPostable currency scale) shares
unfolding allocation_lines
allocation_lines-IsPostable profit zero currency scale [] lines z h sided = tt
allocation_lines-IsPostable profit zero currency scale (a ∷ others) lines z h sided =
    let (_, cur, h1) =
      >>=_returns (throw_if (not (text_eq a.currency currency)) allocation_currency) _ h in
    let (amount, pa, h2) = >>=_returns (parse a.amount currency scale) _ h1 in
    let (sign, cs, h3) = >>=_returns (compare amount zero) _ h2 in
    let (text, at, h4) = >>=_returns (absolute_text sign amount currency scale) _ h3 in
    let (rest, more_lines, h5) =
      >>=_returns (allocation_lines profit zero currency scale others) _ h4 in
    let both = subst (All (Sided scale)) (sym (ok_injective h5)) sided in
    (
      (
        amount,
        same_currency a.currency currency cur,
        pa,
        λ e.
            let printed = text_of_zero amount zero sign currency text scale cs e z at in
            let read =
              ap (λ (t : Text). parse t currency scale) (sym printed)
              ∙ parse_printed currency scale amount
                  (parse-InUnits a.amount currency scale amount pa) in
            zero_line-refused (not profit) (codes "INVESTMENT:" ++ a.participant_id) currency text
              scale amount read e both.0,
      ),
      allocation_lines-IsPostable profit zero currency scale others rest z more_lines both.1,
    )

-- Allocations are posted only where every one of them is in the journal's currency and counts some
-- units: a single share of 0 is enough for the whole journal to be refused.
pub allocation_journal_lines-IsPostable :
    (shares : List AllocationResult) (amount currency : Text) (scale : Number)
    (lines : List JournalLineDraft)
    → allocation_journal_lines shares amount currency scale ≡ ok lines
    → All (IsPostable currency scale) shares
unfolding allocation_journal_lines
allocation_journal_lines-IsPostable shares amount currency scale lines h =
    let (total, pt, h1) = >>=_returns (parse amount currency scale) _ h in
    let (zero, pz, h2) = >>=_returns (parse (codes "0") currency scale) _ h1 in
    let (sign, cs, h3) = >>=_returns (compare total zero) _ h2 in
    let profit = not (is_less sign) in
    let (first, pf, h4) = >>=_returns (pool_line profit total currency scale) _ h3 in
    let (rest, al, h5) = >>=_returns (allocation_lines profit zero currency scale shares) _ h4 in
    let (_, checked, _) = >>=_returns (assert_balanced_journal (first ∷ rest) scale) _ h5 in
    allocation_lines-IsPostable profit zero currency scale shares rest
      (parse_zero currency scale pz) al (assert-Sided (first ∷ rest) scale checked).1
