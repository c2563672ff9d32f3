-- ===== src/Engine/Moudaraba.antt =====
-- libs/engine/src/moudaraba-allocation.ts: a profit between the bank, the reserve and the accounts.
pub mod Units
pub mod Maps
pub mod Loop
pub mod Conserved
mod Tests
use pms_backend.Base.{
  ℕ, zero, suc, ◌%◌, Bool, true, false, ◌&&◌, ◌||◌, not, Option, none, some, List, [], ◌∷◌, map,
  ltb, ◌==◌, if◌then◌else◌, length,
}
use pms_backend.Base.Int.{ℤ, pos, negsuc, ltb_ℤ, ◌+ℤ◌, ◌-ℤ◌}
use pms_backend.Fault.{
  Result, ok, err, ◌>>=◌, ◌>>◌, throw_if, participants_required, duplicate_id, engine_negative,
  nisba_total, irr_exceeds_share, keys_required, keys_total, missing_key, unused_key,
  moudaraba_conservation, profit_conservation,
}
use pms_backend.Number.{Number, Sign}
use pms_backend.Text.{Text, codes, text_eq, includes, is_empty}
use pms_backend.Loss.{is_zero}
use pms_backend.Engine.{Decimals, currency_scale, unsigned_units, non_negative}
use pms_backend.Engine.Moudaraba.Units.{
  UnitsMap, units_of_key, sum_values, printed_units, set_all, Entry, allocate_units,
}

pub data MoudarabaAllocationMethod : Type 0 where
  fixed_category_key weighted_average : MoudarabaAllocationMethod

pub record MoudarabaParticipant : Type 0 where
  pub account_id : Text
  pub category_id : Text
  pub weighted_participation_base : Text

pub record MoudarabaCategoryKey : Type 0 where
  pub category_id : Text
  pub allocation_key : Text

pub record MoudarabaAllocationInput : Type 0 where
  pub profit_after_per : Text
  pub investor_nisba : Text
  pub bank_nisba : Text
  pub irr_allocation : Text
  pub method : MoudarabaAllocationMethod
  pub participants : List MoudarabaParticipant
  pub category_keys : Option (List MoudarabaCategoryKey)
  pub currency_scale : Option Number

pub record MoudarabaAccountAllocation : Type 0 where
  pub account_id : Text
  pub category_id : Text
  pub weighted_participation_base : Text
  pub allocated_profit : Text

pub record MoudarabaAllocationResult : Type 0 where
  pub method : MoudarabaAllocationMethod
  pub profit_after_per : Text
  pub bank_share : Text
  pub investor_share_before_irr : Text
  pub irr_allocation : Text
  pub investor_share_after_irr : Text
  pub account_allocations : List MoudarabaAccountAllocation
  pub unallocated_remainder : Text

-- `assertUnique`, with the set `seen`.
unfoldable pub assert_unique : List Text → List Text → Result (Unit {0})
assert_unique [] seen = ok tt
assert_unique (value ∷ values) seen = do
  throw_if (is_empty value || includes seen value) duplicate_id
  assert_unique values (value ∷ seen)

abbrev pub account_ids : List MoudarabaParticipant → List Text
account_ids participants = map (λ (p : MoudarabaParticipant). p.account_id) participants

abbrev pub category_ids : List MoudarabaCategoryKey → List Text
category_ids keys = map (λ (k : MoudarabaCategoryKey). k.category_id) keys

-- `categoryKeys?.length`
abbrev pub or_no_keys : Option (List MoudarabaCategoryKey) → List MoudarabaCategoryKey
or_no_keys none = []
or_no_keys (some keys) = keys

-- The amounts of a result in units.
pub record Shares : Type 0 where
  pub scale : ℕ
  pub profit : ℤ
  pub bank : ℤ
  pub investor : ℤ
  pub irr : ℤ

-- An entry of `accountAllocations`.
unfoldable pub account_allocation : ℕ → UnitsMap → MoudarabaParticipant → MoudarabaAccountAllocation
account_allocation scale units participant = record {
  account_id = participant.account_id;
  category_id = participant.category_id;
  weighted_participation_base = participant.weighted_participation_base;
  allocated_profit = printed_units (units_of_key participant.account_id units) scale;
}

-- The end of `allocateMoudarabaProfit`: the two checks, and the result.
unfoldable pub checked_result :
    MoudarabaAllocationMethod
    → List MoudarabaParticipant
    → Shares
    → UnitsMap
    → Result MoudarabaAllocationResult
unfolding account_allocation
checked_result method participants s units =
    let after_irr = s.investor -ℤ s.irr in
    let allocated = sum_values units in
    let remainder = after_irr -ℤ allocated in
    do
      throw_if (not (is_zero remainder)) moudaraba_conservation
      throw_if (not (is_zero (s.bank +ℤ s.irr +ℤ allocated -ℤ s.profit))) profit_conservation
      ok (record {
        method = method;
        profit_after_per = printed_units s.profit s.scale;
        bank_share = printed_units s.bank s.scale;
        investor_share_before_irr = printed_units s.investor s.scale;
        irr_allocation = printed_units s.irr s.scale;
        investor_share_after_irr = printed_units after_irr s.scale;
        account_allocations = map (account_allocation s.scale units) participants;
        unallocated_remainder = printed_units remainder s.scale;
      })

module _ (d : Decimals) (locale_compare : Text → Text → Sign) where
  open d use {Value, of_units, plus, equals}

  -- `bases`: the base of each participant.
  pub record Member : Type 0 where
    pub account_id : Text
    pub category_id : Text
    pub basis : Value

  unfoldable pub bases_of : List MoudarabaParticipant → Result (List Member)
  bases_of [] = ok []
  bases_of (participant ∷ participants) = do
    basis ← non_negative d participant.weighted_participation_base
    rest ← bases_of participants
    ok (
        record {
          account_id = participant.account_id;
          category_id = participant.category_id;
          basis = basis;
        }
        ∷ rest)

  -- `parsedKeys`
  unfoldable pub parsed_keys : List MoudarabaCategoryKey → Result (List (Entry d))
  parsed_keys [] = ok []
  parsed_keys (key ∷ keys) = do
    weight ← non_negative d key.allocation_key
    rest ← parsed_keys keys
    ok (record { id = key.category_id; weight = weight } ∷ rest)

  unfoldable pub sum_from : Value → List (Entry d) → Value
  sum_from total [] = total
  sum_from total (entry ∷ entries) = sum_from (plus total entry.weight) entries

  -- `participants.filter(...)` by the category.
  unfoldable pub members_of : Text → List Member → List Member
  members_of category [] = []
  members_of category (member ∷ members) =
      let rest = members_of category members in
      if text_eq member.category_id category then member ∷ rest else rest

  abbrev pub member_entry : Member → Entry d
  member_entry member = record { id = member.account_id; weight = member.basis }

  -- The loop over the participants: every category has a key.
  unfoldable pub check_known : List Text → List Member → Result (Unit {0})
  check_known known [] = ok tt
  check_known known (member ∷ members) = do
    throw_if (not (includes known member.category_id)) missing_key
    check_known known members

  -- The loop over the keys: one without a participant is 0.
  unfoldable pub check_used : List Member → List (Entry d) → Result (Unit {0})
  check_used members [] = ok tt
  check_used members (key ∷ keys) = do
    throw_if (length (members_of key.id members) == 0 && not (d.is_zero key.weight)) unused_key
    check_used members keys

  -- The last loop: the units of each category go to its members.
  unfoldable pub allocate_categories :
      UnitsMap → List Member → List (Entry d) → UnitsMap → Result UnitsMap
  allocate_categories category_units members [] result = ok result
  allocate_categories category_units members (key ∷ keys) result =
      let chosen = members_of key.id members in
      if length chosen == 0 then allocate_categories category_units members keys result else (do
        allocations ←
            allocate_units d locale_compare (units_of_key key.id category_units)
              (map member_entry chosen)
        allocate_categories category_units members keys (set_all allocations result))

  -- `allocateByFixedCategoryKey`
  unfoldable pub allocate_by_fixed_category_key :
      ℤ → List Member → Option (List MoudarabaCategoryKey) → Result UnitsMap
  allocate_by_fixed_category_key total members category_keys = do
    throw_if (length (or_no_keys category_keys) == 0) keys_required
    assert_unique (category_ids (or_no_keys category_keys)) []
    keys ← parsed_keys (or_no_keys category_keys)
    throw_if (not (equals (sum_from (of_units (pos 0)) keys) (of_units (pos 1)))) keys_total
    check_known (map (λ (k : Entry d). k.id) keys) members
    check_used members keys
    category_units ← allocate_units d locale_compare total keys
    allocate_categories category_units members keys []

  -- `accountUnits`
  unfoldable pub account_units : MoudarabaAllocationInput → ℤ → List Member → Result UnitsMap
  account_units input total members = elim input.method [
    | weighted_average ↦ allocate_units d locale_compare total (map member_entry members)
    | fixed_category_key ↦ allocate_by_fixed_category_key total members input.category_keys
  ]

  -- The entries of the first call of `allocateUnits`.
  unfoldable pub nisba_entries : Value → Value → List (Entry d)
  nisba_entries investor bank =
      record { id = codes "INVESTOR"; weight = investor }
      ∷ record { id = codes "BANK"; weight = bank }
      ∷ []

  -- `allocateMoudarabaProfit`
  unfoldable pub allocate_moudaraba_profit :
      MoudarabaAllocationInput → Result MoudarabaAllocationResult
  allocate_moudaraba_profit input = do
    scale ← currency_scale input.currency_scale
    throw_if (length input.participants == 0) participants_required
    assert_unique (account_ids input.participants) []
    profit ← unsigned_units input.profit_after_per scale
    throw_if (ltb_ℤ profit (pos 0)) engine_negative
    irr ← unsigned_units input.irr_allocation scale
    throw_if (ltb_ℤ irr (pos 0)) engine_negative
    investor_nisba ← non_negative d input.investor_nisba
    bank_nisba ← non_negative d input.bank_nisba
    throw_if (not (equals (plus investor_nisba bank_nisba) (of_units (pos 1)))) nisba_total
    nisba ← allocate_units d locale_compare profit (nisba_entries investor_nisba bank_nisba)
    let investor = units_of_key (codes "INVESTOR") nisba
    let bank = units_of_key (codes "BANK") nisba
    throw_if (ltb_ℤ investor irr) irr_exceeds_share
    members ← bases_of input.participants
    units ← account_units input (investor -ℤ irr) members
    checked_result input.method input.participants
        (record { scale = scale; profit = profit; bank = bank; investor = investor; irr = irr })
        units
