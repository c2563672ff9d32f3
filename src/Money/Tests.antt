-- ===== src/Money/Tests.antt =====
-- Runs of `Money` on concrete amounts, and the theorems at inputs that meet their hypotheses.
use pms_backend.Base.{◌≡◌, ◌↔◌, refl, arith}
use pms_backend.Base.Int.{pos, negsuc, ◌+ℤ◌}
use pms_backend.Fault.{ok, err, money_exceeds_scale, money_not_canonical, money_incompatible}
use pms_backend.Number.{num}
use pms_backend.Text.{codes, text_eq, is_currency}
use pms_backend.Decimal.{running}
use pms_backend.Money.{Money, parse, add, subtract, compare, to_decimal_string}
use pms_backend.Money.RoundTrip.{IsValid, parse-to_decimal_string}
use pms_backend.Money.Parsing.{Accepts, parse_iff}
use pms_backend.Money.Arithmetic.{Compatible, add_iff, incompatible_refused, subtract-add}

-- -12.34 EUR
abbrev debt : Money
debt = record { currency = codes "EUR"; minor_units = negsuc 1233; scale = 2 }

-- 0.05 EUR
abbrev cents : Money
cents = record { currency = codes "EUR"; minor_units = pos 5; scale = 2 }

abbrev dinars : Money
dinars = record { currency = codes "TND"; minor_units = pos 5; scale = 3 }

print_debt : to_decimal_string debt ≡ codes "-12.34"
unfolding to_decimal_string running
print_debt = refl

print_cents : to_decimal_string cents ≡ codes "0.05"
unfolding to_decimal_string running
print_cents = refl

parse-debt : parse (codes "-12.34") (codes "EUR") (num 2) ≡ ok debt
unfolding parse is_currency running
parse-debt = refl

parse_too_fine : parse (codes "0.005") (codes "EUR") (num 2) ≡ err money_exceeds_scale
unfolding parse is_currency running
parse_too_fine = refl

parse_leading_zero : parse (codes "007") (codes "EUR") (num 2) ≡ err money_not_canonical
unfolding parse is_currency running
parse_leading_zero = refl

debt-IsValid : IsValid debt
unfolding is_currency
debt-IsValid = record { currency = refl; scale = omega arith }

parse-to_decimal_string_example : parse (to_decimal_string debt) (codes "EUR") (num 2) ≡ ok debt
parse-to_decimal_string_example = parse-to_decimal_string debt debt-IsValid

parse_iff_example :
    (parse (codes "-12.34") (codes "EUR") (num 2) ≡ ok debt)
    ↔ Accepts (codes "-12.34") (codes "EUR") (num 2) debt
parse_iff_example = parse_iff (codes "-12.34") (codes "EUR") (num 2) debt

add_iff_example : (add debt cents ≡ ok (record debt { minor_units = negsuc 1228 })) ↔ (
    Compatible debt cents
    × (record debt { minor_units = negsuc 1228 }
        ≡ record debt { minor_units = negsuc 1233 +ℤ pos 5 }))
add_iff_example = add_iff debt cents (record debt { minor_units = negsuc 1228 })

incompatible_refused_example :
    (add cents dinars ≡ err money_incompatible)
    × (subtract cents dinars ≡ err money_incompatible)
    × (compare cents dinars ≡ err money_incompatible)
incompatible_refused_example = incompatible_refused cents dinars (λ h. omega (arith, h.1))

add-debt-cents : add debt cents ≡ ok (record debt { minor_units = negsuc 1228 })
unfolding add text_eq ◌+ℤ◌
add-debt-cents = refl

subtract-add_example : subtract (record debt { minor_units = negsuc 1228 }) cents ≡ ok debt
subtract-add_example =
    subtract-add debt cents (record debt { minor_units = negsuc 1228 }) add-debt-cents
