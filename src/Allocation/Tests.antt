-- ===== src/Allocation/Tests.antt =====
-- 100.01 EUR among three participants, one of which has no weight.
use pms_backend.Base.{
  false, ◌≢◌, ◌+◌, ◌*◌, ◌%◌, ◌≤◌, ◌<◌, ◌≡◌, refl, List, [], ◌∷◌, map, arith, if◌then◌else◌,
}
use pms_backend.Base.Int.{negsuc}
use pms_backend.Fault.{ok}
use pms_backend.Number.{Sign, less, same, more}
use pms_backend.Text.{text_eq_iff, Text, codes, text_eq, text_lt, includes, is_currency}
use pms_backend.Decimal.{running}
use pms_backend.Money.{Money, apply_sign, to_decimal_string, from_minor_units}
use pms_backend.Money.RoundTrip.{IsValid}
use pms_backend.Allocation.{
  AllocationWeight, AllocationResult, Entry, sum_units, normalize, decimal_to_units, share_of,
  positions, pick, bump, distribute, compare_shares, insert_sorted, sort_from, sort_shares,
  priority_of, allocate_units, results_of, allocate_proportionally,
}
use pms_backend.Allocation.Quota.{units_at}
use pms_backend.Allocation.Fair.{
  sum_units-allocate_units, allocate_units-quota, allocate_units-largest,
}
use pms_backend.Money.Parsing.{plain}
use pms_backend.Allocation.Valid.{AreWeights, allocate_proportionally_total}
use pms_backend.Allocation.Results.{sum_amounts, allocate_proportionally-conserves}

-- A collation by code units.
abbrev by_code_units : Text → Text → Sign
by_code_units a b = if text_lt a b then less else if text_lt b a then more else same

abbrev profit : Money
profit = record { currency = codes "EUR"; minor_units = negsuc 10000; scale = 2 }

abbrev weights : List AllocationWeight
weights =
    record { participant_id = codes "b"; weight = codes "1" }
    ∷ record { participant_id = codes "a"; weight = codes "1.0" }
    ∷ record { participant_id = codes "c"; weight = codes "0" }
    ∷ []

abbrev entries : List Entry
entries =
    record { participant_id = codes "b"; weight = 1000000000000 }
    ∷ record { participant_id = codes "a"; weight = 1000000000000 }
    ∷ record { participant_id = codes "c"; weight = 0 }
    ∷ []

abbrev results : List AllocationResult
results =
    record { participant_id = codes "b"; amount = codes "-50.00"; currency = codes "EUR" }
    ∷ record { participant_id = codes "a"; amount = codes "-50.01"; currency = codes "EUR" }
    ∷ record { participant_id = codes "c"; amount = codes "0.00"; currency = codes "EUR" }
    ∷ []

profit-IsValid : IsValid profit
unfolding is_currency
profit-IsValid = record { currency = refl; scale = omega arith }

-- What a run of the allocation opens.
unfoldable allocating : Unit {0}
unfolding share_of positions pick bump distribute compare_shares insert_sorted sort_from sort_shares
    priority_of allocate_units text_lt text_eq
allocating = tt

units_of_entries :
    map (λ s. s.units) (allocate_units by_code_units 10001 entries) ≡ 5000 ∷ 5001 ∷ 0 ∷ []
unfolding allocating
units_of_entries = refl

allocate_weights : allocate_proportionally by_code_units profit weights ≡ ok results
unfolding allocate_proportionally normalize decimal_to_units includes results_of from_minor_units
    to_decimal_string is_currency allocating running apply_sign
allocate_weights = refl

sum_units-allocate_units_example : sum_units (allocate_units by_code_units 10001 entries) ≡ 10001
sum_units-allocate_units_example =
    sum_units-allocate_units by_code_units 10001 entries (omega arith)

allocate_units-quota_example :
    (10001 * 1000000000000
      < (units_at 1 (allocate_units by_code_units 10001 entries) + 1) * 2000000000000)
    × (units_at 1 (allocate_units by_code_units 10001 entries) * 2000000000000
        < 10001 * 1000000000000 + 2000000000000)
allocate_units-quota_example =
    allocate_units-quota by_code_units 10001 entries (omega arith) 1 (omega arith)

allocate_units-largest_example : 10001 * 0 % 2000000000000 ≤ 10001 * 1000000000000 % 2000000000000
unfolding allocating
allocate_units-largest_example =
    allocate_units-largest by_code_units 10001 entries (omega arith) 1 2 (omega arith) (omega arith)
      refl refl

allocate_proportionally-conserves_example : sum_amounts 2 results ≡ ok (negsuc 10000)
allocate_proportionally-conserves_example =
    allocate_proportionally-conserves by_code_units profit weights profit-IsValid allocate_weights

apart : (a b : Text) → text_eq a b ≡ false → a ≢ b
apart a b h e = let same = (text_eq_iff a b).1 e in cc (h, same)

weights_valid : AreWeights weights (1000000000000 ∷ 1000000000000 ∷ 0 ∷ []) []
unfolding running text_eq
weights_valid = (
  (
    (λ e. absurd (cc e)),
    tt,
    plain (codes "1") []
        (record {
          text = refl;
          integer_digits = ((omega arith, omega arith), tt);
          canonical = tt;
          fraction_digits = tt;
        })
        (omega arith) refl,
  ),
  (
    (
      (λ e. absurd (cc e)),
      (apart (codes "b") (codes "a") refl, tt),
      plain (codes "1") (codes "0")
          (record {
            text = refl;
            integer_digits = ((omega arith, omega arith), tt);
            canonical = tt;
            fraction_digits = ((omega arith, omega arith), tt);
          })
          (omega arith) refl,
    ),
    (
      (
        (λ e. absurd (cc e)),
        (apart (codes "a") (codes "c") refl, (apart (codes "b") (codes "c") refl, tt)),
        plain (codes "0") []
            (record {
              text = refl;
              integer_digits = ((omega arith, omega arith), tt);
              canonical = tt;
              fraction_digits = tt;
            })
            (omega arith) refl,
      ),
      tt,
    ),
  ),
)

allocate_proportionally_total_example :
    (rs : List AllocationResult) × (allocate_proportionally by_code_units profit weights ≡ ok rs)
allocate_proportionally_total_example =
    allocate_proportionally_total by_code_units profit weights
      (1000000000000 ∷ 1000000000000 ∷ 0 ∷ []) profit-IsValid weights_valid (omega arith)
