-- ===== src/Allocation/Results.antt =====
-- `allocateProportionally` as its callers see it: the amounts that come back as texts.
use pms_backend.Base.{
  ℕ, ◌+◌, ◌<◌, ◌≡◌, refl, ap, sym, inl, inr, ◌∙◌, Bool, true, false, List, [], ◌∷◌, arith, length,
  ◌==◌,
}
use pms_backend.Base.Int.{ℤ, pos, negate, magnitude, ltb_ℤ, ◌+ℤ◌, int_laws}
use pms_backend.Fault.{Result, ok, ◌>>=◌, Result-cases}
use pms_backend.Number.{num, Sign}
use pms_backend.Text.{Text}
use pms_backend.Money.{Money, parse, apply_sign, from_minor_units, to_decimal_string}
use pms_backend.Money.RoundTrip.{IsValid, parse-to_decimal_string, apply_sign-magnitude}
use pms_backend.Allocation.{
  AllocationWeight, AllocationResult, Entry, Share, normalize, total_weight, sum_units,
  allocate_units, results_of, allocate_proportionally,
}
use pms_backend.Allocation.Fair.{sum_units-allocate_units}

-- The amounts of the results, parsed at the scale of the distributed amount and added up.
unfoldable pub sum_amounts : ℕ → List AllocationResult → Result ℤ
sum_amounts scale [] = ok (pos 0)
sum_amounts scale (r ∷ rs) = do
  m ← parse r.amount r.currency (num scale)
  rest ← sum_amounts scale rs
  ok (m.minor_units +ℤ rest)

from_minor_units-IsValid :
    (d : Money)
    → IsValid d
    → (z : ℤ) → from_minor_units z d.currency (num d.scale) ≡ ok (record d { minor_units = z })
unfolding from_minor_units
from_minor_units-IsValid d v z = ground (arith, v.currency, v.scale)

print_results : Money → Bool → List Share → List AllocationResult
print_results d negative [] = []
print_results d negative (s ∷ ss) =
    record {
      participant_id = s.participant_id;
      amount = to_decimal_string (record d { minor_units = apply_sign negative s.units });
      currency = d.currency;
    }
    ∷ print_results d negative ss

results_of-IsValid :
    (d : Money) (negative : Bool) (ss : List Share)
    → IsValid d
    → results_of d negative ss ≡ ok (print_results d negative ss)
unfolding results_of print_results
results_of-IsValid d negative [] v = refl
results_of-IsValid d negative (s ∷ ss) v =
    rw (
      from_minor_units-IsValid d v (apply_sign negative s.units),
      results_of-IsValid d negative ss v,
    )

apply_sign-add : (b : Bool) (m n : ℕ) → apply_sign b m +ℤ apply_sign b n ≡ apply_sign b (m + n)
unfolding apply_sign
apply_sign-add true m n = omega int_laws
apply_sign-add false m n = omega int_laws

apply_sign-zero : (b : Bool) → pos 0 ≡ apply_sign b 0
unfolding apply_sign negate
apply_sign-zero true = refl
apply_sign-zero false = refl

sum_amounts-print_results :
    (d : Money) (b : Bool) (ss : List Share)
    → IsValid d
    → sum_amounts d.scale (print_results d b ss) ≡ ok (apply_sign b (sum_units ss))
unfolding sum_amounts print_results
sum_amounts-print_results d b [] v = ap ok (apply_sign-zero b)
sum_amounts-print_results d b (s ∷ ss) v =
    let m : Money = record d { minor_units = apply_sign b s.units } in
    let mv : IsValid m = record { currency = v.currency; scale = v.scale } in
    rw (parse-to_decimal_string m mv, sum_amounts-print_results d b ss v)
      (ap ok (apply_sign-add b s.units (sum_units ss)))

weights_exist :
    (ws : List AllocationWeight) (es : List Entry)
    → normalize ws [] ≡ ok es
    → 0 < total_weight es
    → (length ws == 0) ≡ false
unfolding normalize
weights_exist [] [] e h = absurd (omega arith)
weights_exist [] (x ∷ es) e h = absurd (ground arith)
weights_exist (w ∷ ws) es e h = ground arith

module _ (locale_compare : Text → Text → Sign) (d : Money) (ws : List AllocationWeight) where
  -- The steps of a successful allocation.
  allocated :
      (rs : List AllocationResult)
      → allocate_proportionally locale_compare d ws ≡ ok rs
      → (es : List Entry) × (normalize ws [] ≡ ok es)
        × (0 < total_weight es)
        × (results_of d
              (ltb_ℤ d.minor_units (pos 0))
              (allocate_units locale_compare (magnitude d.minor_units) es)
            ≡ ok rs)
  unfolding allocate_proportionally
  allocated rs h = elim (Result-cases (normalize ws [])) [
    | inl (es, e) ↦ (es, e, ground arith, ground arith)
    | inr (f, e) ↦ absurd (ground arith)
  ]

  -- Of a valid amount every minor unit is distributed: the amounts returned, parsed back and
  -- added up, give exactly the distributed amount, its sign included.
  pub allocate_proportionally-conserves :
      {rs : List AllocationResult}
      → IsValid d
      → allocate_proportionally locale_compare d ws ≡ ok rs
      → sum_amounts d.scale rs ≡ ok d.minor_units
  allocate_proportionally-conserves {rs} v h =
      let (es, normal, positive, done) = allocated rs h in
      let b : Bool = ltb_ℤ d.minor_units (pos 0) in
      let ss = allocate_units locale_compare (magnitude d.minor_units) es in
      let printed : print_results d b ss ≡ rs = cc (results_of-IsValid d b ss v) in
      let whole = sum_units-allocate_units locale_compare (magnitude d.minor_units) es positive in
      ap (sum_amounts d.scale) (sym printed)
      ∙ sum_amounts-print_results d b ss v
      ∙ ap (λ u. ok (apply_sign b u)) whole
      ∙ ap ok (apply_sign-magnitude d.minor_units)

  -- Of a valid amount, weights that all normalise and are not all zero are always allocated.
  pub allocate_normalized_total :
      {es : List Entry}
      → IsValid d
      → normalize ws [] ≡ ok es
      → 0 < total_weight es
      → (rs : List AllocationResult) × (allocate_proportionally locale_compare d ws ≡ ok rs)
  unfolding allocate_proportionally
  allocate_normalized_total {es} v e h =
      let b : Bool = ltb_ℤ d.minor_units (pos 0) in
      let ss = allocate_units locale_compare (magnitude d.minor_units) es in
      (print_results d b ss, ground (arith, weights_exist ws es e h, results_of-IsValid d b ss v))
