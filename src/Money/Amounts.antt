-- ===== src/Money/Amounts.antt =====
-- Amounts as the steps of a computation leave them: what each step makes of the minor units.
use pms_backend.Base.{◌≡◌, refl, sym, ap, ap₂, subst, ◌∙◌, Bool, false, not, arith}
use pms_backend.Base.Int.{ℤ, ◌+ℤ◌, ltb_ℤ, eq_of_parts}
use pms_backend.Fault.{Fault, ok, throw_if, ok_injective}
use pms_backend.Number.{Number, num, Sign, is_same, is_less, is_more}
use pms_backend.Text.{Text}
use pms_backend.Money.{Money, parse, add, compare, from_minor_units, to_decimal_string}
use pms_backend.Money.Arithmetic.{add_iff}
use pms_backend.Money.Parsing.{parse_iff}
use pms_backend.Money.RoundTrip.{IsValid, parse-to_decimal_string}

pub compare_equal_units :
    (m n : Money) (s : Sign) (e : Fault)
    → compare m n ≡ ok s
    → throw_if (not (is_same s)) e ≡ ok tt
    → m.minor_units ≡ n.minor_units
unfolding compare
compare_equal_units m n s e h k = ground (arith, eq_of_parts m.minor_units n.minor_units)

pub compare_not_less :
    (m n : Money) (s : Sign)
    → compare m n ≡ ok s
    → is_less s ≡ false
    → ltb_ℤ m.minor_units n.minor_units ≡ false
unfolding compare
compare_not_less m n s h k = ground arith

pub not_thrown : (b : Bool) (e : Fault) → throw_if b e ≡ ok tt → b ≡ false
not_thrown b e h = ground arith

pub add_units : (m n s : Money) → add m n ≡ ok s → s.minor_units ≡ m.minor_units +ℤ n.minor_units
add_units m n s h = ap (λ (x : Money). x.minor_units) ((add_iff m n s).0 h).1

-- An amount of one currency and scale, which its print gives back.
abbrev pub InUnits : Text → Number → Money → Type 0
InUnits c n m = IsValid m × (m.currency ≡ c) × (n ≡ num m.scale)

pub parse-InUnits : (a c : Text) (n : Number) (m : Money) → parse a c n ≡ ok m → InUnits c n m
parse-InUnits a c n m h = let (v, ec, en, _) = (parse_iff a c n m).0 h in (v, ec, en)

pub add-InUnits :
    (c : Text) (n : Number) (x y s : Money) → add x y ≡ ok s → InUnits c n x → InUnits c n s
add-InUnits c n x y s h u =
    let (v, ec, en) = u in
    subst (InUnits c n) (sym ((add_iff x y s).0 h).1)
      (record { currency = v.currency; scale = v.scale }, ec, en)

pub parse_printed :
    (c : Text) (n : Number) (m : Money) → InUnits c n m → parse (to_decimal_string m) c n ≡ ok m
parse_printed c n m u =
    let (v, ec, en) = u in
    ap₂ (parse (to_decimal_string m)) (sym ec) en ∙ parse-to_decimal_string m v

pub compare-is_more :
    (x y : Money) (s : Sign) → compare x y ≡ ok s → is_more s ≡ ltb_ℤ y.minor_units x.minor_units
unfolding compare
compare-is_more x y s h = ground arith

pub compare-is_less :
    (x y : Money) (s : Sign) → compare x y ≡ ok s → is_less s ≡ ltb_ℤ x.minor_units y.minor_units
unfolding compare
compare-is_less x y s h = ground arith

made_plain :
    (u : ℤ) (base : Money)
    → IsValid base
    → from_minor_units u base.currency (num base.scale) ≡ ok (record base { minor_units = u })
unfolding from_minor_units
made_plain u base v = ground (arith, v.currency, v.scale)

pub made_InUnits :
    (u : ℤ) (c : Text) (n : Number) (m base : Money)
    → InUnits c n base
    → from_minor_units u c n ≡ ok m
    → InUnits c n m × (m.minor_units ≡ u)
made_InUnits u c n m base (v, ec, en) h =
    let same = ok_injective (sym h ∙ ap₂ (from_minor_units u) (sym ec) en ∙ made_plain u base v) in
    subst (λ (x : Money). InUnits c n x × (x.minor_units ≡ u)) (sym same)
      ((record { currency = v.currency; scale = v.scale }, ec, en), refl)
