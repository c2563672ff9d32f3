-- ===== src/Engine/Moudaraba/Units.antt =====
-- `allocateUnits` of libs/engine/src/moudaraba-allocation.ts: the largest remainder method over
-- decimals.
use pms_backend.Base.{ℕ, zero, suc, ◌%◌, List, [], ◌∷◌, map, ◌==◌, if◌then◌else◌, length, not}
use pms_backend.Base.Int.{ℤ, pos, negsuc, pos_part, ◌+ℤ◌, ◌-ℤ◌}
use pms_backend.Fault.{Result, ok, ◌>>=◌, ◌>>◌, throw_if, weights_required, zero_weights}
use pms_backend.Number.{Sign, is_more, is_same}
use pms_backend.Text.{Text, text_eq, pad_start}
use pms_backend.Text.Digits.{to_string}
use pms_backend.Decimal.{place_point}
use pms_backend.Engine.{Decimals}

-- `Map<string, bigint>`, by the order of insertion.
abbrev pub UnitsMap : Type 0
UnitsMap = List (Text × ℤ)

-- `map.get(key) ?? 0n`
unfoldable pub units_of_key : Text → UnitsMap → ℤ
units_of_key key [] = pos 0
units_of_key key ((k, units) ∷ rest) = if text_eq k key then units else units_of_key key rest

-- `map.set(key, units)`
unfoldable pub set_units : Text → ℤ → UnitsMap → UnitsMap
set_units key units [] = (key, units) ∷ []
set_units key units ((k, old) ∷ rest) =
    let others = set_units key units rest in
    if text_eq k key then (k, units) ∷ rest else (k, old) ∷ others

-- A `set` for each entry, and `new Map(entries)` from an empty map.
unfoldable pub set_all : UnitsMap → UnitsMap → UnitsMap
unfolding set_units
set_all [] result = result
set_all ((key, units) ∷ entries) result = set_all entries (set_units key units result)

-- The sum of `map.values()`.
unfoldable pub sum_values : UnitsMap → ℤ
sum_values [] = pos 0
sum_values ((_, units) ∷ rest) = units +ℤ sum_values rest

-- `units.toString()`
unfoldable pub int_text : ℤ → Text
int_text (pos n) = to_string n
int_text (negsuc n) = b'-' ∷ to_string (suc n)

-- `unitsToDecimal`
unfoldable pub printed_units : ℤ → ℕ → Text
unfolding int_text
printed_units units scale = place_point (pad_start (int_text units) (suc scale) b'0') scale

module _ (d : Decimals) where
  open d use {
    Value, of_units, plus, minus, times, divided_by, compared_to, floor_units, is_positive,
  }

  pub record Entry : Type 0 where
    pub id : Text
    pub weight : Value

  -- An element of `shares`.
  pub record Share : Type 0 where
    pub id : Text
    pub units : ℤ
    pub remainder : Value

  -- `priority` holds the very objects of `shares`: an object is its position there.
  abbrev pub Positioned : Type 0
  Positioned = ℕ × Share

  unfoldable pub total_weight : Value → List Entry → Value
  total_weight total [] = total
  total_weight total (entry ∷ entries) = total_weight (plus total entry.weight) entries

  -- `entries.map(...)`
  unfoldable pub shares_of : ℤ → Value → List Entry → Result (List Share)
  shares_of total weights [] = ok []
  shares_of total weights (entry ∷ entries) =
      let exact = divided_by (times (of_units total) entry.weight) weights in
      do
        units ← floor_units exact
        rest ← shares_of total weights entries
        ok (
            record { id = entry.id; units = units; remainder = minus exact (of_units units) }
            ∷ rest)

  unfoldable pub sum_units : List Share → ℤ
  sum_units [] = pos 0
  sum_units (share ∷ shares) = share.units +ℤ sum_units shares

  unfoldable pub positions : ℕ → List Share → List Positioned
  positions i [] = []
  positions i (share ∷ shares) = (i, share) ∷ positions (suc i) shares

  -- `priority[k]`
  unfoldable pub pick : List Positioned → ℕ → ℕ
  pick [] k = 0
  pick (p ∷ ps) zero = p.0
  pick (p ∷ ps) (suc k) = pick ps k

  -- `units += 1n` on the object at a position.
  unfoldable pub bump : ℕ → List Share → List Share
  bump i [] = []
  bump zero (share ∷ shares) = record share { units = share.units +ℤ pos 1 } ∷ shares
  bump (suc i) (share ∷ shares) = share ∷ bump i shares

  -- The loop, with the rest of `residual`, which starts above 0 or does not run.
  unfoldable pub distribute : ℕ → ℕ → List Positioned → List Share → List Share
  unfolding pick bump
  distribute zero index priority shares = shares
  distribute (suc residual) index priority shares =
      distribute residual (suc index) priority
        (bump (pick priority (index % length priority)) shares)

  -- `shares.map((entry) => [entry.id, entry.units])`
  abbrev pub entries_of : List Share → UnitsMap
  entries_of shares = map (λ (s : Share). (s.id, s.units)) shares

  -- `left.localeCompare(right)` depends on the locale of the host: a parameter.
  module _ (locale_compare : Text → Text → Sign) where
    -- The comparator of the sort.
    unfoldable pub compare_shares : Share → Share → Sign
    compare_shares left right =
        let remainder_order = compared_to right.remainder left.remainder in
        if is_same remainder_order then locale_compare left.id right.id else remainder_order

    -- `sort` is stable: an item goes before the first one that the comparator puts after it.
    unfoldable pub insert_sorted : Positioned → List Positioned → List Positioned
    unfolding compare_shares
    insert_sorted x [] = x ∷ []
    insert_sorted x (y ∷ ys) =
        let rest = insert_sorted x ys in
        if is_more (compare_shares y.1 x.1) then x ∷ y ∷ ys else y ∷ rest

    unfoldable pub sort_from : List Positioned → List Positioned → List Positioned
    unfolding insert_sorted
    sort_from sorted [] = sorted
    sort_from sorted (x ∷ xs) = sort_from (insert_sorted x sorted) xs

    -- The shares after the loop.
    unfoldable pub distributed : ℤ → List Share → List Share
    unfolding sort_from positions distribute sum_units
    distributed total shares =
        distribute (pos_part (total -ℤ sum_units shares)) 0 (sort_from [] (positions 0 shares))
          shares

    -- `allocateUnits`
    unfoldable pub allocate_units : ℤ → List Entry → Result UnitsMap
    unfolding total_weight shares_of distributed set_all
    allocate_units total entries =
        let weights = total_weight (of_units (pos 0)) entries in
        do
          throw_if (length entries == 0) weights_required
          throw_if (not (is_positive weights)) zero_weights
          shares ← shares_of total weights entries
          ok (set_all (entries_of (distributed total shares)) [])
