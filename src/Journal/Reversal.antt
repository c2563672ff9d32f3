-- ===== src/Journal/Reversal.antt =====
-- A reversal of an accepted journal is accepted, and reversing twice gives the journal back.
use pms_backend.Base.{
  ◌≡◌, refl, ap, ◌∙◌, Bool, true, List, [], ◌∷◌, map, arith, length, length-map, if◌then◌else◌, not,
  ltb,
}
use pms_backend.Fault.{
  ok, throw_if, >>=_returns, ok_injective, too_few_lines, ledger_account_code, one_positive_side,
  journal_not_balanced,
}
use pms_backend.Number.{Number, Sign, less, same, more, is_more, is_same}
use pms_backend.Text.{Text, codes, text_eq_iff}
use pms_backend.Money.{Money, parse, add, compare}
use pms_backend.Journal.{
  JournalLineDraft, Total, get_total, set_total, add_line, add_lines, check_totals,
  assert_balanced_journal, swap_sides, reverse_journal_lines, is_account_code,
}

abbrev swap_total : Total → Total
swap_total t = record t { debit = t.credit; credit = t.debit }

get_total-swap :
    (c : Text) (zero : Money) (ts : List Total)
    → get_total c zero (map swap_total ts) ≡ swap_total (get_total c zero ts)
unfolding get_total
get_total-swap c zero [] = refl
get_total-swap c zero (t ∷ ts) = ground (arith, get_total-swap c zero ts)

set_total-swap :
    (t : Total) (ts : List Total)
    → set_total (swap_total t) (map swap_total ts) ≡ map swap_total (set_total t ts)
unfolding set_total
set_total-swap t [] = refl
set_total-swap t (u ∷ us) = ground (arith, set_total-swap t us)

-- The steps of an accepted line, put together.
sides_pass : (p : Bool) → throw_if (if p then not p else not (not p)) one_positive_side ≡ ok tt
sides_pass p = ground arith

add_line_lem :
    (scale : Number) (line : JournalLineDraft) (totals : List Total) {d k z a b : Money}
    {s r : Sign}
    → is_account_code line.account_code ≡ true
    → parse line.debit line.currency scale ≡ ok d
    → parse line.credit line.currency scale ≡ ok k
    → parse (codes "0") line.currency scale ≡ ok z
    → compare d z ≡ ok s
    → compare k z ≡ ok r
    → is_more r ≡ not (is_more s)
    → add (get_total line.currency z totals).debit d ≡ ok a
    → add (get_total line.currency z totals).credit k ≡ ok b
    → add_line scale line totals
      ≡ ok (set_total (record { currency = line.currency; debit = a; credit = b }) totals)
unfolding add_line
add_line_lem scale line totals {d} {k} {z} {a} {b} {s} {r} code pd pk pz sd sr one ad ak =
    rw (code, pd, pk, pz, sd, sr, one, sides_pass (is_more s), ad, ak) refl

not_thrown : (test : Bool) → throw_if (not test) ledger_account_code ≡ ok tt → test ≡ true
not_thrown test h = ground arith

not_swap : (p q : Bool) → q ≡ not p → p ≡ not q
not_swap p q h = ground arith

pub one_side :
    (p q : Bool) → throw_if (if p then q else not q) one_positive_side ≡ ok tt → q ≡ not p
one_side p q h = ground arith

-- A swapped line does to swapped totals what the line does to the totals.
add_line-swap :
    (scale : Number) (line : JournalLineDraft) (totals : List Total) {after : List Total}
    → add_line scale line totals ≡ ok after
    → add_line scale (swap_sides line) (map swap_total totals) ≡ ok (map swap_total after)
unfolding add_line
add_line-swap scale line totals {after} h =
    let (_, code, h1) =
      >>=_returns (throw_if (not (is_account_code line.account_code)) ledger_account_code) _ h in
    let (d, pd, h2) = >>=_returns (parse line.debit line.currency scale) _ h1 in
    let (k, pk, h3) = >>=_returns (parse line.credit line.currency scale) _ h2 in
    let (z, pz, h4) = >>=_returns (parse (codes "0") line.currency scale) _ h3 in
    let (s, sd, h5) = >>=_returns (compare d z) _ h4 in
    let (r, sr, h6) = >>=_returns (compare k z) _ h5 in
    let (_, one, h7) =
      >>=_returns (throw_if (if is_more s then is_more r else not (is_more r)) one_positive_side) _
        h6 in
    let cur = get_total line.currency z totals in
    let (a, ad, h8) = >>=_returns (add cur.debit d) _ h7 in
    let (b, ak, h9) = >>=_returns (add cur.credit k) _ h8 in
    let has = not_thrown (is_account_code line.account_code) code in
    let opposite = one_side (is_more s) (is_more r) one in
    let swapped = get_total-swap line.currency z totals in
    add_line_lem scale (swap_sides line) (map swap_total totals) has pk pd pz sr sd
      (not_swap (is_more s) (is_more r) opposite) (ap (λ (t : Total). add t.debit k) swapped ∙ ak)
      (ap (λ (t : Total). add t.credit d) swapped ∙ ad)
    ∙ ap ok (
        set_total-swap (record { currency = line.currency; debit = a; credit = b }) totals
        ∙ ap (map swap_total) (ok_injective h9))

add_lines-swap :
    (scale : Number) (lines : List JournalLineDraft) (totals : List Total) {after : List Total}
    → add_lines scale lines totals ≡ ok after
    → add_lines scale (map swap_sides lines) (map swap_total totals) ≡ ok (map swap_total after)
unfolding add_lines
add_lines-swap scale [] totals h = ap ok (ap (map swap_total) (ok_injective h))
add_lines-swap scale (line ∷ lines) totals {after} h =
    let (mid, here, rest) = >>=_returns (add_line scale line totals) _ h in
    rw (add_line-swap scale line totals here) (add_lines-swap scale lines mid rest)

compare_same : (m n : Money) → compare m n ≡ ok same → compare n m ≡ ok same
unfolding compare
compare_same m n h =
    ground (arith, text_eq_iff m.currency n.currency, text_eq_iff n.currency m.currency)

same_passes :
    (s : Sign) (c : Text) → throw_if (not (is_same s)) (journal_not_balanced c) ≡ ok tt → s ≡ same
same_passes less c h = cc
same_passes same c h = refl
same_passes more c h = cc

check_totals-swap :
    (ts : List Total) → check_totals ts ≡ ok tt → check_totals (map swap_total ts) ≡ ok tt
unfolding check_totals
check_totals-swap [] h = refl
check_totals-swap (t ∷ ts) h =
    let (s, cs, h1) = >>=_returns (compare t.debit t.credit) _ h in
    let (_, st, h2) =
      >>=_returns (throw_if (not (is_same s)) (journal_not_balanced t.currency)) _ h1 in
    let balanced = compare_same t.debit t.credit (cs ∙ ap ok (same_passes s t.currency st)) in
    rw (balanced) (check_totals-swap ts h2)

assert_swapped :
    (lines : List JournalLineDraft) (scale : Number)
    → assert_balanced_journal lines scale ≡ ok tt
    → assert_balanced_journal (map swap_sides lines) scale ≡ ok tt
unfolding assert_balanced_journal
assert_swapped lines scale h =
    let (_, enough, h1) = >>=_returns (throw_if (ltb (length lines) 2) too_few_lines) _ h in
    let (ts, added, checked) = >>=_returns (add_lines scale lines []) _ h1 in
    rw (length-map swap_sides lines, enough, add_lines-swap scale lines [] added)
      (check_totals-swap ts checked)

map_swap_twice : (lines : List JournalLineDraft) → map swap_sides (map swap_sides lines) ≡ lines
map_swap_twice [] = refl
map_swap_twice (l ∷ ls) = ap (l ∷◌) (map_swap_twice ls)

-- The reversal of an accepted journal is accepted: each line is kept but for its two sides, which
-- are exchanged, and reversing the reversal gives the journal back.
pub reverse_journal_lines_lem :
    (lines : List JournalLineDraft) (scale : Number)
    → assert_balanced_journal lines scale ≡ ok tt
    → (reverse_journal_lines lines scale ≡ ok (map swap_sides lines))
      × (reverse_journal_lines (map swap_sides lines) scale ≡ ok lines)
unfolding reverse_journal_lines
reverse_journal_lines_lem lines scale h =
    let swapped = assert_swapped lines scale h in
    (rw (h, swapped) refl, rw (swapped, map_swap_twice lines, h) refl)
