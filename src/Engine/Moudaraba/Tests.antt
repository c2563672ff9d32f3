-- ===== src/Engine/Moudaraba/Tests.antt =====
-- A profit of 100.01 by 70 % and 30 %, of which two accounts share 70.01 by a fixed key.
use pms_backend.Base.{◌≡◌, refl, if◌then◌else◌, none, some, [], ◌∷◌}
use pms_backend.Base.Int.{◌+ℤ◌, ◌-ℤ◌, ◌*ℤ◌, negate}
use pms_backend.Fault.{ok}
use pms_backend.Number.{Sign, less, same, more, integer_within}
use pms_backend.Text.{Text, codes, text_eq, includes, text_lt}
use pms_backend.Decimal.{running}
use pms_backend.Money.{apply_sign, compare_units}
use pms_backend.Engine.{currency_scale, matched_units, non_negative}
use pms_backend.Engine.Fixed.{fixed, floor_div, quotient, text_value}
use pms_backend.Engine.Moudaraba.{
  MoudarabaAllocationInput, MoudarabaAllocationResult, fixed_category_key, Shares, assert_unique,
  account_allocation, checked_result, bases_of, parsed_keys, sum_from, members_of, check_known,
  check_used, allocate_categories, allocate_by_fixed_category_key, account_units, nisba_entries,
  allocate_moudaraba_profit,
}
use pms_backend.Engine.Moudaraba.Units.{
  UnitsMap, units_of_key, set_units, set_all, sum_values, int_text, printed_units, total_weight,
  shares_of, sum_units, positions, pick, bump, distribute, compare_shares, insert_sorted, sort_from,
  distributed, allocate_units,
}
use pms_backend.Engine.Moudaraba.Conserved.{Conserved, allocate_moudaraba_profit-Conserved}

abbrev by_codes : Text → Text → Sign
by_codes a b = if text_lt a b then less else if text_lt b a then more else same

abbrev input : MoudarabaAllocationInput
input = record {
  profit_after_per = codes "100.01";
  investor_nisba = codes "0.7";
  bank_nisba = codes "0.3";
  irr_allocation = codes "10";
  method = fixed_category_key;
  participants =
      record {
        account_id = codes "a";
        category_id = codes "x";
        weighted_participation_base = codes "1";
      }
      ∷ record {
        account_id = codes "b";
        category_id = codes "y";
        weighted_participation_base = codes "3";
      }
      ∷ [];
  category_keys = some (
      record { category_id = codes "x"; allocation_key = codes "0.4" }
      ∷ record { category_id = codes "y"; allocation_key = codes "0.6" }
      ∷ []);
  currency_scale = none;
}

abbrev outcome : MoudarabaAllocationResult
outcome = record {
  method = fixed_category_key;
  profit_after_per = codes "100.01";
  bank_share = codes "30.00";
  investor_share_before_irr = codes "70.01";
  irr_allocation = codes "10.00";
  investor_share_after_irr = codes "60.01";
  account_allocations =
      record {
        account_id = codes "a";
        category_id = codes "x";
        weighted_participation_base = codes "1";
        allocated_profit = codes "24.00";
      }
      ∷ record {
        account_id = codes "b";
        category_id = codes "y";
        weighted_participation_base = codes "3";
        allocated_profit = codes "36.01";
      }
      ∷ [];
  unallocated_remainder = codes "0.00";
}

allocate_input : allocate_moudaraba_profit fixed by_codes input ≡ ok outcome
unfolding allocate_moudaraba_profit account_units allocate_by_fixed_category_key allocate_categories
    check_used check_known members_of sum_from parsed_keys bases_of checked_result
    account_allocation assert_unique nisba_entries allocate_units distributed sort_from
    insert_sorted compare_shares distribute bump pick positions sum_units shares_of total_weight
    printed_units int_text sum_values set_all set_units units_of_key fixed floor_div quotient
    text_value matched_units apply_sign non_negative running integer_within compare_units text_eq
    includes text_lt ◌+ℤ◌ ◌-ℤ◌ ◌*ℤ◌ negate
allocate_input = refl

allocate_moudaraba_profit-Conserved_example :
    (s : Shares) × (units : UnitsMap) × (currency_scale none ≡ ok s.scale)
    × Conserved input outcome s units
allocate_moudaraba_profit-Conserved_example =
    allocate_moudaraba_profit-Conserved fixed by_codes input outcome allocate_input
