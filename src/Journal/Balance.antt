-- ===== src/Journal/Balance.antt =====
-- What an accepted journal satisfies.
use pms_backend.Base.{
  ℕ, ◌≤◌, ◌≡◌, refl, ap, sym, ◌∙◌, false, List, [], ◌∷◌, arith, length, if◌then◌else◌, not, ltb,
}
use pms_backend.Base.Int.{ℤ, pos, ◌+ℤ◌, int_laws, eq_of_parts}
use pms_backend.Fault.{
  Result, ok, err, throw_if, >>=_returns, ledger_account_code, one_positive_side, too_few_lines,
  ok_injective,
}
use pms_backend.Number.{Number, is_more}
use pms_backend.Text.{Text, codes, text_eq, text_eq_iff}
use pms_backend.Text.Digits.{big_int}
use pms_backend.Decimal.{match_signed, units_of}
use pms_backend.Decimal.Spelling.{units_of_exact}
use pms_backend.Money.{Money, apply_sign, parse, add, compare}
use pms_backend.Money.Parsing.{parse_ok_guards, parse_matched_ok}
use pms_backend.Money.Arithmetic.{add_iff}
use pms_backend.Journal.{
  JournalLineDraft, Total, get_total, set_total, add_line, add_lines, check_totals,
  assert_balanced_journal, is_account_code,
}

-- The units of a parsed text; a text that is refused counts for nothing.
unfoldable pub units_or_zero : Result Money → ℤ
units_or_zero (ok m) = m.minor_units
units_or_zero (err e) = pos 0

abbrev pub amount_in : Text → Text → Text → Number → ℤ
amount_in c text currency scale =
    if text_eq currency c then units_or_zero (parse text currency scale) else pos 0

-- The sums of the two sides in one currency.
abbrev pub debit_sum : Text → Number → List JournalLineDraft → ℤ
debit_sum c scale [] = pos 0
debit_sum c scale (l ∷ ls) = amount_in c l.debit l.currency scale +ℤ debit_sum c scale ls

abbrev pub credit_sum : Text → Number → List JournalLineDraft → ℤ
credit_sum c scale [] = pos 0
credit_sum c scale (l ∷ ls) = amount_in c l.credit l.currency scale +ℤ credit_sum c scale ls

-- The units of a currency in the map, on each side.
abbrev pub debit_of : Text → List Total → ℤ
debit_of c [] = pos 0
debit_of c (t ∷ ts) = if text_eq t.currency c then t.debit.minor_units else debit_of c ts

abbrev pub credit_of : Text → List Total → ℤ
credit_of c [] = pos 0
credit_of c (t ∷ ts) = if text_eq t.currency c then t.credit.minor_units else credit_of c ts

debit_of-set_total :
    (c : Text) (t : Total) (ts : List Total)
    → debit_of c (set_total t ts)
      ≡ (if text_eq t.currency c then t.debit.minor_units else debit_of c ts)
unfolding set_total
debit_of-set_total c t [] = refl
debit_of-set_total c t (u ∷ us) = ground (
  arith,
  debit_of-set_total c t us,
  text_eq_iff u.currency t.currency,
  text_eq_iff t.currency c,
  text_eq_iff u.currency c,
)

credit_of-set_total :
    (c : Text) (t : Total) (ts : List Total)
    → credit_of c (set_total t ts)
      ≡ (if text_eq t.currency c then t.credit.minor_units else credit_of c ts)
unfolding set_total
credit_of-set_total c t [] = refl
credit_of-set_total c t (u ∷ us) = ground (
  arith,
  credit_of-set_total c t us,
  text_eq_iff u.currency t.currency,
  text_eq_iff t.currency c,
  text_eq_iff u.currency c,
)

get_total_units :
    (c : Text) (zero : Money) (ts : List Total)
    → zero.minor_units ≡ pos 0
    → ((get_total c zero ts).debit.minor_units ≡ debit_of c ts)
      × ((get_total c zero ts).credit.minor_units ≡ credit_of c ts)
unfolding get_total
get_total_units c zero [] z = (z, z)
get_total_units c zero (t ∷ ts) z = ground (arith, get_total_units c zero ts z)

zero_units : (s : ℕ) → apply_sign false (units_of (codes "0") [] s) ≡ pos 0
unfolding apply_sign big_int
zero_units s = ap pos (units_of_exact (codes "0") [] s (omega arith) ∙ omega arith)

-- `Money.parse('0', …)` has no units.
pub parse_zero :
    (currency : Text) (scale : Number) {z : Money}
    → parse (codes "0") currency scale ≡ ok z
    → z.minor_units ≡ pos 0
unfolding match_signed
parse_zero currency scale {z} h =
    let (s, _, _, _, matched) = parse_ok_guards (codes "0") currency scale z h in
    let (_, _, _, e) = parse_matched_ok false (codes "0") [] currency s z matched in
    e ∙ zero_units s

+ℤ_zero : (a : ℤ) → a +ℤ pos 0 ≡ a
+ℤ_zero a = omega int_laws

+ℤ_assoc : (a b c : ℤ) → a +ℤ b +ℤ c ≡ a +ℤ (b +ℤ c)
+ℤ_assoc a b c = omega int_laws

-- One line adds its two amounts to the totals of its currency, and changes no other.
module _ (scale : Number) (line : JournalLineDraft) (totals : List Total) where
  add_line_parts :
      {after : List Total}
      → add_line scale line totals ≡ ok after
      → (d : Money) × (k : Money) × (z : Money) × (t : Total) × (parse line.debit line.currency
            scale
          ≡ ok d)
        × (parse line.credit line.currency scale ≡ ok k)
        × (parse (codes "0") line.currency scale ≡ ok z)
        × (t.currency ≡ line.currency)
        × (t.debit.minor_units
            ≡ (get_total line.currency z totals).debit.minor_units +ℤ d.minor_units)
        × (t.credit.minor_units
            ≡ (get_total line.currency z totals).credit.minor_units +ℤ k.minor_units)
        × (after ≡ set_total t totals)
  unfolding add_line
  add_line_parts {after} h =
      let (_, code, h1) =
        >>=_returns (throw_if (not (is_account_code line.account_code)) ledger_account_code) _ h in
      let (d, pd, h2) = >>=_returns (parse line.debit line.currency scale) _ h1 in
      let (k, pk, h3) = >>=_returns (parse line.credit line.currency scale) _ h2 in
      let (z, pz, h4) = >>=_returns (parse (codes "0") line.currency scale) _ h3 in
      let (s, sd, h5) = >>=_returns (compare d z) _ h4 in
      let (r, sr, h6) = >>=_returns (compare k z) _ h5 in
      let (_, one, h7) =
        >>=_returns (throw_if (if is_more s then is_more r else not (is_more r)) one_positive_side)
          _ h6 in
      let cur = get_total line.currency z totals in
      let (a, ad, h8) = >>=_returns (add cur.debit d) _ h7 in
      let (b, ak, h9) = >>=_returns (add cur.credit k) _ h8 in
      (
        d,
        k,
        z,
        record { currency = line.currency; debit = a; credit = b },
        pd,
        pk,
        pz,
        refl,
        ap (λ (m : Money). m.minor_units) ((add_iff cur.debit d a).0 ad).1,
        ap (λ (m : Money). m.minor_units) ((add_iff cur.credit k b).0 ak).1,
        sym (ok_injective h9),
      )

  add_line_sums :
      (c : Text)
      → {after : List Total} → add_line scale line totals ≡ ok after
      → (debit_of c after ≡ debit_of c totals +ℤ amount_in c line.debit line.currency scale)
        × (credit_of c after ≡ credit_of c totals +ℤ amount_in c line.credit line.currency scale)
  unfolding units_or_zero
  add_line_sums c {after} h =
      let (d, k, z, t, pd, pk, pz, cur, ed, ek, done) = add_line_parts h in
      let (gd, gk) = get_total_units line.currency z totals (parse_zero line.currency scale pz) in
      (
        ap (debit_of c) done
            ∙ debit_of-set_total c t totals
            ∙ ground (
              arith,
              text_eq_iff t.currency c,
              text_eq_iff line.currency c,
              +ℤ_zero (debit_of c totals),
            ),
        ap (credit_of c) done
            ∙ credit_of-set_total c t totals
            ∙ ground (
              arith,
              text_eq_iff t.currency c,
              text_eq_iff line.currency c,
              +ℤ_zero (credit_of c totals),
            ),
      )

-- Over a whole journal.
add_lines_sums :
    (scale : Number) (c : Text) (lines : List JournalLineDraft) (totals : List Total)
    {after : List Total}
    → add_lines scale lines totals ≡ ok after
    → (debit_of c after ≡ debit_of c totals +ℤ debit_sum c scale lines)
      × (credit_of c after ≡ credit_of c totals +ℤ credit_sum c scale lines)
unfolding add_lines
add_lines_sums scale c [] totals {after} h =
    ground (arith, +ℤ_zero (debit_of c totals), +ℤ_zero (credit_of c totals))
add_lines_sums scale c (line ∷ lines) totals {after} h =
    let (mid, here, rest) = >>=_returns (add_line scale line totals) _ h in
    let (d1, k1) = add_line_sums scale line totals c here in
    let (d2, k2) = add_lines_sums scale c lines mid rest in
    (rw (d2, d1) (+ℤ_assoc _ _ _), rw (k2, k1) (+ℤ_assoc _ _ _))

zero_plus : (a : ℤ) → a ≡ pos 0 +ℤ a
zero_plus a = omega int_laws

check_totals_sound :
    (c : Text) (ts : List Total) → check_totals ts ≡ ok tt → debit_of c ts ≡ credit_of c ts
unfolding check_totals compare
check_totals_sound c [] h = refl
check_totals_sound c (t ∷ ts) h =
    ground (arith, check_totals_sound c ts, eq_of_parts t.debit.minor_units t.credit.minor_units)

-- An accepted journal has at least two lines, and in every currency its debits and its credits,
-- each text parsed at the scale, have the same sum.
pub assert_balanced_journal_sound :
    (lines : List JournalLineDraft) (scale : Number)
    → assert_balanced_journal lines scale ≡ ok tt
    → (2 ≤ length lines) × ((c : Text) → debit_sum c scale lines ≡ credit_sum c scale lines)
unfolding assert_balanced_journal
assert_balanced_journal_sound lines scale h =
    let (_, enough, h1) = >>=_returns (throw_if (ltb (length lines) 2) too_few_lines) _ h in
    let (ts, added, checked) = >>=_returns (add_lines scale lines []) _ h1 in
    (
      ground arith,
      λ c.
          let (d, k) = add_lines_sums scale c lines [] added in
          zero_plus _ ∙ sym d ∙ check_totals_sound c ts checked ∙ k ∙ sym (zero_plus _),
    )
