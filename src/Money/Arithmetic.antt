-- ===== src/Money/Arithmetic.antt =====
-- `add`, `subtract` and `compare` on amounts of one currency and scale, and their refusal of others.
use pms_backend.Base.{◌+◌, ◌<◌, ◌≡◌, ◌↔◌, arith}
use pms_backend.Base.Int.{ℤ, pos_part, neg_part, ◌+ℤ◌, ◌-ℤ◌, eq_of_parts, int_laws}
use pms_backend.Fault.{ok, err, money_incompatible}
use pms_backend.Number.{less, same, more}
use pms_backend.Text.{text_eq_iff}
use pms_backend.Money.{Money, add, subtract, compare}

abbrev pub Compatible : Money → Money → Type 0
Compatible m n = (m.currency ≡ n.currency) × (m.scale ≡ n.scale)

-- `add` succeeds exactly on compatible amounts, with the exact sum and the first one's currency
-- and scale.
pub add_iff :
    (m n s : Money)
    → (add m n ≡ ok s)
      ↔ (Compatible m n × (s ≡ record m { minor_units = m.minor_units +ℤ n.minor_units }))
unfolding add
add_iff m n s = ground (arith, text_eq_iff m.currency n.currency)

-- Of incompatible amounts there is no sum, no difference and no comparison.
pub incompatible_refused :
    (m n : Money)
    → ¬ (Compatible m n)
    → (add m n ≡ err money_incompatible)
      × (subtract m n ≡ err money_incompatible)
      × (compare m n ≡ err money_incompatible)
unfolding add subtract compare
incompatible_refused m n h = ground (arith, text_eq_iff m.currency n.currency)

+ℤ_cancel : (a b : ℤ) → a +ℤ b -ℤ b ≡ a
+ℤ_cancel a b = omega int_laws

-- Subtracting what was added gives the first amount back.
pub subtract-add : (m n s : Money) → add m n ≡ ok s → subtract s n ≡ ok m
unfolding add subtract
subtract-add m n s h =
    ground (arith, text_eq_iff m.currency n.currency, +ℤ_cancel m.minor_units n.minor_units)

-- `compare` answers by the order of the minor units: each answer says exactly how they stand.
pub compare_iff :
    (m n : Money)
    → Compatible m n
    → ((compare m n ≡ ok less) ↔ (
        pos_part m.minor_units + neg_part n.minor_units
        < pos_part n.minor_units + neg_part m.minor_units))
      × ((compare m n ≡ ok same) ↔ (m.minor_units ≡ n.minor_units))
      × ((compare m n ≡ ok more) ↔ (
          pos_part n.minor_units + neg_part m.minor_units
          < pos_part m.minor_units + neg_part n.minor_units))
unfolding compare
compare_iff m n h =
    ground (arith, text_eq_iff m.currency n.currency, eq_of_parts m.minor_units n.minor_units)
