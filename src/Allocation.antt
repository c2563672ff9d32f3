-- ===== src/Allocation.antt =====
-- src/modules/profit-calculation/domain/proportional-allocation.ts: the largest remainder method.
pub mod Loop
pub mod Order
pub mod Quota
pub mod Picks
pub mod Fair
pub mod Results
pub mod Valid
mod Tests
use pms_backend.Base.{
  ℕ, zero, suc, ◌+◌, ◌-◌, ◌*◌, ◌/◌, ◌%◌, Bool, true, false, ◌||◌, Option, none, some, List, [], ◌∷◌,
  map, ltb, ◌==◌, if◌then◌else◌, length,
}
use pms_backend.Base.Int.{ℤ, pos, negate, magnitude, ltb_ℤ}
use pms_backend.Fault.{
  Result, ok, err, ◌>>=◌, ◌>>◌, throw_if, no_weight, duplicate_participant, weight_not_canonical,
  weight_exceeds_scale, negative_weight, zero_total_weight,
}
use pms_backend.Number.{num, Sign, less, more, is_more}
use pms_backend.Text.{Text, is_empty, includes}
use pms_backend.Decimal.{match_signed, units_of}
use pms_backend.Money.{Money, apply_sign, from_minor_units, to_decimal_string}

pub record AllocationWeight : Type 0 where
  pub participant_id : Text
  pub weight : Text

pub record AllocationResult : Type 0 where
  pub participant_id : Text
  pub amount : Text
  pub currency : Text

abbrev pub weight_scale : ℕ
weight_scale = 12

unfoldable pub weight_units : Option (Bool × Text × Text) → ℕ → Result ℤ
weight_units none scale = err weight_not_canonical
weight_units (some (negative, integer, fraction)) scale =
    if ltb scale (length fraction)
    then err weight_exceeds_scale
    else ok (apply_sign negative (units_of integer fraction scale))

-- `decimalToUnits`
unfoldable pub decimal_to_units : Text → ℕ → Result ℤ
unfolding weight_units
decimal_to_units value scale = weight_units (match_signed value) scale

-- An entry of `normalized`: the weight is not negative there, so it is a natural number.
pub record Entry : Type 0 where
  pub participant_id : Text
  pub weight : ℕ

-- `weights.map(...)` with the set `seen`.
unfoldable pub normalize : List AllocationWeight → List Text → Result (List Entry)
normalize [] seen = ok []
normalize (e ∷ es) seen = do
  throw_if (is_empty e.participant_id || includes seen e.participant_id) duplicate_participant
  weight ← decimal_to_units e.weight weight_scale
  throw_if (ltb_ℤ weight (pos 0)) negative_weight
  rest ← normalize es (e.participant_id ∷ seen)
  ok (record { participant_id = e.participant_id; weight = magnitude weight } ∷ rest)

abbrev pub total_weight : List Entry → ℕ
total_weight [] = 0
total_weight (e ∷ es) = e.weight + total_weight es

pub record Share : Type 0 where
  pub participant_id : Text
  pub units : ℕ
  pub remainder : ℕ

-- One entry's part of `total`: the quotient and the remainder by the total weight.
pub share_of : ℕ → ℕ → Entry → Share
share_of total weights e = record {
  participant_id = e.participant_id;
  units = total * e.weight / weights;
  remainder = total * e.weight % weights;
}

abbrev pub sum_units : List Share → ℕ
sum_units [] = 0
sum_units (s ∷ ss) = s.units + sum_units ss

-- `priority` holds the very objects of `shares`: an object is its position there.
abbrev pub Positioned : Type 0
Positioned = ℕ × Share

unfoldable pub positions : ℕ → List Share → List Positioned
positions i [] = []
positions i (s ∷ ss) = (i, s) ∷ positions (suc i) ss

-- `priority[k]`
unfoldable pub pick : List ℕ → ℕ → ℕ
pick [] k = 0
pick (p ∷ ps) zero = p
pick (p ∷ ps) (suc k) = pick ps k

-- `units += 1n` on the object at a position.
unfoldable pub bump : ℕ → List Share → List Share
bump i [] = []
bump zero (s ∷ ss) = record s { units = s.units + 1 } ∷ ss
bump (suc i) (s ∷ ss) = s ∷ bump i ss

-- `for (let index = 0; residual > 0n; index += 1, residual -= 1n)`
unfoldable pub distribute : ℕ → ℕ → List ℕ → List Share → List Share
distribute zero index priority shares = shares
distribute (suc residual) index priority shares =
    distribute residual (suc index) priority (bump (pick priority (index % length priority)) shares)

-- The last `map`: `Money.fromMinorUnits(entry.units * sign, …).toDecimalString()`.
unfoldable pub results_of : Money → Bool → List Share → Result (List AllocationResult)
results_of d negative [] = ok []
results_of d negative (s ∷ ss) = do
  m ← from_minor_units (apply_sign negative s.units) d.currency (num d.scale)
  rest ← results_of d negative ss
  ok (
      record {
        participant_id = s.participant_id;
        amount = to_decimal_string m;
        currency = d.currency;
      }
      ∷ rest)

-- `left.localeCompare(right)` depends on the locale of the host: a parameter.
module _ (locale_compare : Text → Text → Sign) where
  -- The comparator of the sort.
  pub compare_shares : Share → Share → Sign
  compare_shares left right =
      if left.remainder == right.remainder
      then locale_compare left.participant_id right.participant_id
      else if ltb right.remainder left.remainder
      then less
      else more

  -- `sort` is stable: an item goes before the first one that the comparator puts after it.
  pub insert_sorted : Positioned → List Positioned → List Positioned
  insert_sorted x [] = x ∷ []
  insert_sorted x (y ∷ ys) =
      if is_more (compare_shares y.1 x.1) then x ∷ y ∷ ys else y ∷ insert_sorted x ys

  pub sort_from : List Positioned → List Positioned → List Positioned
  sort_from sorted [] = sorted
  sort_from sorted (x ∷ xs) = sort_from (insert_sorted x sorted) xs

  pub sort_shares : List Positioned → List Positioned
  sort_shares xs = sort_from [] xs

  pub priority_of : List Share → List ℕ
  priority_of shares = map (λ p. p.0) (sort_shares (positions 0 shares))

  -- The whole units of each entry, whose sum is `total`.
  pub allocate_units : ℕ → List Entry → List Share
  allocate_units total entries =
      let shares = map (share_of total (total_weight entries)) entries in
      distribute (total - sum_units shares) 0 (priority_of shares) shares

  -- `allocateProportionally`
  pub allocate_proportionally : Money → List AllocationWeight → Result (List AllocationResult)
  allocate_proportionally distributable weights = do
    throw_if (length weights == 0) no_weight
    entries ← normalize weights []
    throw_if (total_weight entries == 0) zero_total_weight
    results_of distributable (ltb_ℤ distributable.minor_units (pos 0))
        (allocate_units (magnitude distributable.minor_units) entries)
