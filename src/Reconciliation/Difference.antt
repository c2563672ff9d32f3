-- ===== src/Reconciliation/Difference.antt =====
-- When two ledgers match.
use pms_backend.Base.{ℕ, ◌≡◌, ◌↔◌, sym, ap, subst, ◌∙◌, Bool, true, arith, if◌then◌else◌}
use pms_backend.Base.Int.{ℤ, pos, ◌-ℤ◌, ◌+ℤ◌, int_laws}
use pms_backend.Fault.{ok, >>=_returns, ok_injective}
use pms_backend.Number.{Number, num}
use pms_backend.Text.{Text, codes, text_eq, text_eq_iff}
use pms_backend.Money.{Money, parse, subtract, to_decimal_string}
use pms_backend.Money.Amounts.{InUnits, parse-InUnits, parse_printed}
use pms_backend.Journal.Balance.{parse_zero}
use pms_backend.Reconciliation.Exact.{Spells, num_injective, normalize_exact_scale-Spells}
use pms_backend.Reconciliation.{
  matched, variance, Reconciliation, normalize_exact_scale, reconcile_amounts,
}

subtract_shape :
    (m n d : Money)
    → subtract m n ≡ ok d
    → d ≡ record m { minor_units = m.minor_units -ℤ n.minor_units }
unfolding subtract
subtract_shape m n d h = ground arith

subtract-InUnits :
    (c : Text) (n : Number) (x y d : Money) → subtract x y ≡ ok d → InUnits c n x → InUnits c n d
subtract-InUnits c n x y d h (v, ec, en) =
    subst (InUnits c n) (sym (subtract_shape x y d h))
      (record { currency = v.currency; scale = v.scale }, ec, en)

minus_plus : (a b : ℤ) → a -ℤ b +ℤ b ≡ a
minus_plus a b = omega int_laws

zero_plus : (b : ℤ) → pos 0 +ℤ b ≡ b
zero_plus b = omega int_laws

minus_self : (b : ℤ) → b -ℤ b ≡ pos 0
minus_self b = omega int_laws

difference_zero : (a b : ℤ) → a -ℤ b ≡ pos 0 → a ≡ b
difference_zero a b h = sym (minus_plus a b) ∙ ap (◌+ℤ b) h ∙ zero_plus b

zero_difference : (a b : ℤ) → a ≡ b → a -ℤ b ≡ pos 0
zero_difference a b h = ap (◌-ℤ b) h ∙ minus_self b

-- Two amounts of one currency and scale have one print only if they count the same units.
print_injective :
    (c : Text) (n : Number) (x y : Money)
    → InUnits c n x
    → InUnits c n y
    → to_decimal_string x ≡ to_decimal_string y
    → x ≡ y
print_injective c n x y ux uy h =
    ok_injective
      (sym (parse_printed c n x ux) ∙ ap (λ (t : Text). parse t c n) h ∙ parse_printed c n y uy)

same_amount :
    (c : Text) (n : Number) (x y : Money)
    → InUnits c n x
    → InUnits c n y
    → x.minor_units ≡ y.minor_units
    → x ≡ y
same_amount c n x y (v, ec, en) (w, fc, fn) h =
    let currency = ec ∙ sym fc in
    let scale = num_injective x.scale y.scale (sym en ∙ fn) in
    λ i. record { currency = currency i; minor_units = h i; scale = scale i }

matched_shape : (b : Bool) → ((if b then matched else variance) ≡ matched) ↔ (b ≡ true)
matched_shape b = ground arith

-- What a reconciliation says of the two amounts.
abbrev pub Reconciled : Text → Text → Text → ℕ → Reconciliation → Type 0
Reconciled subledger_amount general_ledger_amount currency scale r =
    (s : Text) × (g : Text) × (subledger : Money) × (general_ledger : Money) × (difference : Money)
    × Spells subledger_amount scale subledger.minor_units
    × Spells general_ledger_amount scale general_ledger.minor_units
    × (normalize_exact_scale subledger_amount scale ≡ ok s)
    × (normalize_exact_scale general_ledger_amount scale ≡ ok g)
    × (parse s currency (num scale) ≡ ok subledger)
    × (parse g currency (num scale) ≡ ok general_ledger)
    × (parse r.difference currency (num scale) ≡ ok difference)
    × (difference.minor_units ≡ subledger.minor_units -ℤ general_ledger.minor_units)
    × ((r.state ≡ matched) ↔ (subledger.minor_units ≡ general_ledger.minor_units))

-- A reconciliation reads both amounts at the scale and loses no digit: the units of each are exactly
-- what its own text spells, also where the text has more decimals than the scale. It prints their
-- difference so that it reads back, and reports a match exactly where they count the same units.
pub reconcile_amounts_sound :
    (subledger_amount general_ledger_amount currency : Text) (scale : ℕ) (r : Reconciliation)
    → reconcile_amounts subledger_amount general_ledger_amount currency scale ≡ ok r
    → Reconciled subledger_amount general_ledger_amount currency scale r
unfolding reconcile_amounts
reconcile_amounts_sound sa ga c scale r h =
    let (s, ns, h1) = >>=_returns (normalize_exact_scale sa scale) _ h in
    let (x, px, h2) = >>=_returns (parse s c (num scale)) _ h1 in
    let (g, ng, h3) = >>=_returns (normalize_exact_scale ga scale) _ h2 in
    let (y, py, h4) = >>=_returns (parse g c (num scale)) _ h3 in
    let (d, sd, h5) = >>=_returns (subtract x y) _ h4 in
    let (z, pz, h6) = >>=_returns (parse (codes "0") c (num scale)) _ h5 in
    let n = num scale in
    let ud = subtract-InUnits c n x y d sd (parse-InUnits s c n x px) in
    let uz = parse-InUnits (codes "0") c n z pz in
    let units = ap (λ (m : Money). m.minor_units) (subtract_shape x y d sd) in
    let zero = parse_zero c n pz in
    let test = text_eq (to_decimal_string d) (to_decimal_string z) in
    let printed = text_eq_iff (to_decimal_string d) (to_decimal_string z) in
    subst (Reconciled sa ga c scale) (ok_injective h6) (
      s,
      g,
      x,
      y,
      d,
      normalize_exact_scale-Spells sa s c scale x ns px,
      normalize_exact_scale-Spells ga g c scale y ng py,
      ns,
      ng,
      px,
      py,
      parse_printed c n d ud,
      units,
      (
        λ m.
            let same = print_injective c n d z ud uz (printed.0 ((matched_shape test).0 m)) in
            difference_zero x.minor_units y.minor_units
              (sym units ∙ ap (λ (q : Money). q.minor_units) same ∙ zero),
        λ e.
            let none_left = units ∙ zero_difference x.minor_units y.minor_units e ∙ sym zero in
            (matched_shape test).1
              (printed.1 (ap to_decimal_string (same_amount c n d z ud uz none_left))),
      ),
    )
