-- ===== src/Engine/Moudaraba/Conserved.antt =====
-- `allocateMoudarabaProfit` hands out the whole profit.
use pms_backend.Base.{
  ◌≡◌, refl, sym, ap, ◌∙◌, subst, false, not, Option, List, [], ◌∷◌, map, arith, length, Bool-cases,
  inl, inr, ◌==◌,
}
use pms_backend.Base.Int.{ℤ, pos, ltb_ℤ, ◌+ℤ◌, ◌-ℤ◌, int_laws, pos_part, neg_part}
use pms_backend.Fault.{
  ok, throw_if, >>=_returns, ok_injective, participants_required, engine_negative, nisba_total,
  irr_exceeds_share, keys_required, keys_total, moudaraba_conservation, profit_conservation,
}
use pms_backend.Number.{Sign}
use pms_backend.Text.{Text, codes, text_eq}
use pms_backend.Loss.{is_zero}
use pms_backend.Money.Amounts.{not_thrown}
use pms_backend.Engine.{Decimals, currency_scale, unsigned_units, non_negative}
use pms_backend.Engine.Moudaraba.{
  MoudarabaAllocationMethod, MoudarabaParticipant, MoudarabaCategoryKey, MoudarabaAllocationInput,
  MoudarabaAllocationResult, weighted_average, fixed_category_key, assert_unique, account_ids,
  category_ids, or_no_keys, Shares, account_allocation, checked_result, Member, bases_of,
  parsed_keys, sum_from, members_of, member_entry, check_known, check_used, allocate_categories,
  allocate_by_fixed_category_key, account_units, nisba_entries, allocate_moudaraba_profit,
}
use pms_backend.Engine.Moudaraba.Units.{
  UnitsMap, Entry, units_of_key, sum_values, set_all, printed_units, allocate_units,
}
use pms_backend.Engine.Moudaraba.Maps.{
  keys_of, Distinct, Known, Known-refl, Known-cons, Known-trans, set_all-Distinct, set_all-Known,
  sum_found, sum_found-sum_values, assert_unique-Distinct,
}
use pms_backend.Engine.Moudaraba.Loop.{allocate_units_lem}

is_zero_sound : (a : ℤ) → not (is_zero a) ≡ false → a ≡ pos 0
is_zero_sound a h = ground arith

difference_zero : (a b : ℤ) → a -ℤ b ≡ pos 0 → a ≡ b
difference_zero a b h = omega (int_laws, ap pos_part h, ap neg_part h)

-- The units of a result: all of the profit goes to the bank, the reserve and the accounts,
-- and the accounts together get what the reserve leaves the investors.
pub record Conserved (input : MoudarabaAllocationInput) (r : MoudarabaAllocationResult) (s : Shares)
    (units : UnitsMap) : Type 0 where
  pub profit_read : unsigned_units input.profit_after_per s.scale ≡ ok s.profit
  pub irr_read : unsigned_units input.irr_allocation s.scale ≡ ok s.irr
  pub bank : r.bank_share ≡ printed_units s.bank s.scale
  pub investor : r.investor_share_before_irr ≡ printed_units s.investor s.scale
  pub irr : r.irr_allocation ≡ printed_units s.irr s.scale
  pub accounts : r.account_allocations ≡ map (account_allocation s.scale units) input.participants
  pub irr_bounded : ltb_ℤ s.investor s.irr ≡ false
  pub conserved : s.bank +ℤ s.irr +ℤ sum_found units (account_ids input.participants) ≡ s.profit
  pub left : sum_found units (account_ids input.participants) ≡ s.investor -ℤ s.irr

-- Distinct keys, all of them ids.
abbrev pub IsAllocation : List Text → UnitsMap → Type 0
IsAllocation ids units = Distinct (keys_of units) × Known ids (keys_of units)

checked_result-Conserved :
    (input : MoudarabaAllocationInput) (s : Shares) (units : UnitsMap)
    (r : MoudarabaAllocationResult)
    → unsigned_units input.profit_after_per s.scale ≡ ok s.profit
    → unsigned_units input.irr_allocation s.scale ≡ ok s.irr
    → ltb_ℤ s.investor s.irr ≡ false
    → Distinct (account_ids input.participants)
    → IsAllocation (account_ids input.participants) units
    → checked_result input.method input.participants s units ≡ ok r
    → Conserved input r s units
unfolding checked_result
checked_result-Conserved input s units r ep ei bounded unique (distinct, known) h =
    let after_irr = s.investor -ℤ s.irr in
    let allocated = sum_values units in
    let (_, e1, h1) =
      >>=_returns (throw_if (not (is_zero (after_irr -ℤ allocated))) moudaraba_conservation) _ h in
    let (_, e2, h2) =
      >>=_returns
        (throw_if (not (is_zero (s.bank +ℤ s.irr +ℤ allocated -ℤ s.profit))) profit_conservation) _
        h1 in
    let found = sum_found-sum_values units (account_ids input.participants) unique distinct known in
    let all =
      difference_zero (s.bank +ℤ s.irr +ℤ allocated) s.profit
        (is_zero_sound _ (not_thrown _ profit_conservation e2)) in
    let rest =
      difference_zero after_irr allocated
        (is_zero_sound _ (not_thrown _ moudaraba_conservation e1)) in
    subst (λ q. Conserved input q s units) (ok_injective h2)
      (record {
        profit_read = ep;
        irr_read = ei;
        bank = refl;
        investor = refl;
        irr = refl;
        accounts = refl;
        irr_bounded = bounded;
        conserved = ap (λ z. s.bank +ℤ s.irr +ℤ z) found ∙ all;
        left = found ∙ sym rest;
      })

module _ (d : Decimals) (locale_compare : Text → Text → Sign) where
  open d use {Value}

  abbrev pub member_ids : List (Member d locale_compare) → List Text
  member_ids members = map (λ (m : Member d locale_compare). m.account_id) members

  pub entry_ids :
      (members : List (Member d locale_compare))
      → map (λ (e : Entry d). e.id) (map (member_entry d locale_compare) members)
        ≡ member_ids members
  entry_ids [] = refl
  entry_ids (m ∷ ms) = ap (λ ids. m.account_id ∷ ids) (entry_ids ms)

  pub members_of-Known :
      (category : Text) (members : List (Member d locale_compare))
      → Known (member_ids members) (member_ids (members_of d locale_compare category members))
  unfolding members_of
  members_of-Known category [] = tt
  members_of-Known category (m ∷ ms) = elim (Bool-cases (text_eq m.category_id category)) [
    | inl same ↦ rw same (
      (Known-refl (member_ids (m ∷ ms))).0,
      Known-cons m.account_id (member_ids ms) _ (members_of-Known category ms),
    )
    | inr other ↦
        rw other (Known-cons m.account_id (member_ids ms) _ (members_of-Known category ms))
  ]

  pub bases_of-ids :
      (participants : List MoudarabaParticipant) (members : List (Member d locale_compare))
      → bases_of d locale_compare participants ≡ ok members
      → member_ids members ≡ account_ids participants
  unfolding bases_of
  bases_of-ids [] members h = ap member_ids (sym (ok_injective h))
  bases_of-ids (p ∷ ps) members h =
      let (basis, _, h1) = >>=_returns (non_negative d p.weighted_participation_base) _ h in
      let (rest, er, h2) = >>=_returns (bases_of d locale_compare ps) _ h1 in
      ap member_ids (sym (ok_injective h2))
      ∙ ap (λ ids. p.account_id ∷ ids) (bases_of-ids ps rest er)

  -- One category: its members' units are set in the map.
  category-IsAllocation :
      (total : ℤ) (members chosen : List (Member d locale_compare)) (result m : UnitsMap)
      → Known (member_ids members) (member_ids chosen)
      → IsAllocation (member_ids members) result
      → allocate_units d locale_compare total (map (member_entry d locale_compare) chosen) ≡ ok m
      → IsAllocation (member_ids members) (set_all m result)
  category-IsAllocation total members chosen result m part (distinct, known) h =
      let (_, keys) =
        allocate_units_lem d locale_compare total (map (member_entry d locale_compare) chosen) m
          h in
      (
        set_all-Distinct m result distinct,
        set_all-Known (member_ids members) m result
            (Known-trans (member_ids members) (member_ids chosen) (keys_of m) part
              (subst (λ ids. Known ids (keys_of m)) (entry_ids chosen) keys))
            known,
      )

  allocate_categories-IsAllocation :
      (categories : UnitsMap) (members : List (Member d locale_compare)) (keys : List (Entry d))
      (result units : UnitsMap)
      → IsAllocation (member_ids members) result
      → allocate_categories d locale_compare categories members keys result ≡ ok units
      → IsAllocation (member_ids members) units
  unfolding allocate_categories
  allocate_categories-IsAllocation categories members [] result units a h =
      subst (IsAllocation (member_ids members)) (ok_injective h) a
  allocate_categories-IsAllocation categories members (key ∷ keys) result units a h =
      let chosen = members_of d locale_compare key.id members in
      elim (Bool-cases (length chosen == 0)) [
        | inl empty ↦
            allocate_categories-IsAllocation categories members keys result units a (rw empty at h)
        | inr filled ↦
            let (m, em, h1) =
              >>=_returns
                (allocate_units d locale_compare (units_of_key key.id categories)
                  (map (member_entry d locale_compare) chosen))
                _ (rw filled at h) in
            allocate_categories-IsAllocation categories members keys (set_all m result) units
              (category-IsAllocation (units_of_key key.id categories) members chosen result m
                (members_of-Known key.id members) a em)
              h1
      ]

  fixed_key-IsAllocation :
      (total : ℤ) (members : List (Member d locale_compare))
      (category_keys : Option (List MoudarabaCategoryKey)) (units : UnitsMap)
      → allocate_by_fixed_category_key d locale_compare total members category_keys ≡ ok units
      → IsAllocation (member_ids members) units
  unfolding allocate_by_fixed_category_key
  fixed_key-IsAllocation total members category_keys units h =
      let given = or_no_keys category_keys in
      let (_, _, h1) = >>=_returns (throw_if (length given == 0) keys_required) _ h in
      let (_, _, h2) = >>=_returns (assert_unique (category_ids given) []) _ h1 in
      let (keys, _, h3) = >>=_returns (parsed_keys d locale_compare given) _ h2 in
      let (_, _, h4) =
        >>=_returns
          (throw_if
            (not
              (d.equals (sum_from d locale_compare (d.of_units (pos 0)) keys) (d.of_units (pos 1))))
            keys_total)
          _ h3 in
      let (_, _, h5) =
        >>=_returns (check_known d locale_compare (map (λ (k : Entry d). k.id) keys) members) _
          h4 in
      let (_, _, h6) = >>=_returns (check_used d locale_compare members keys) _ h5 in
      let (categories, _, h7) = >>=_returns (allocate_units d locale_compare total keys) _ h6 in
      allocate_categories-IsAllocation categories members keys [] units (tt, tt) h7

  account_units-IsAllocation :
      (method : MoudarabaAllocationMethod) (keys : Option (List MoudarabaCategoryKey)) (total : ℤ)
      (members : List (Member d locale_compare)) (units : UnitsMap)
      → (elim method [
        | weighted_average ↦
            allocate_units d locale_compare total (map (member_entry d locale_compare) members)
        | fixed_category_key ↦ allocate_by_fixed_category_key d locale_compare total members keys
      ])
        ≡ ok units
      → IsAllocation (member_ids members) units
  account_units-IsAllocation weighted_average keys total members units h =
      subst (λ ids. IsAllocation ids units) (entry_ids members)
        (allocate_units_lem d locale_compare total (map (member_entry d locale_compare) members)
          units h)
  account_units-IsAllocation fixed_category_key keys total members units h =
      fixed_key-IsAllocation total members keys units h

  -- An allocation that returns hands out the whole profit in units of the currency: the bank's
  -- share, the allocation to the IRR and the units that the result prints for the accounts, each
  -- account once, sum to the profit of the input, whichever the method is; and the IRR is
  -- taken from the investors' share.
  pub allocate_moudaraba_profit-Conserved :
      (input : MoudarabaAllocationInput) (r : MoudarabaAllocationResult)
      → allocate_moudaraba_profit d locale_compare input ≡ ok r
      → (s : Shares) × (units : UnitsMap) × (currency_scale input.currency_scale ≡ ok s.scale)
        × Conserved input r s units
  unfolding allocate_moudaraba_profit account_units
  allocate_moudaraba_profit-Conserved input r h =
      let (scale, es, h1) = >>=_returns (currency_scale input.currency_scale) _ h in
      let (_, _, h2) =
        >>=_returns (throw_if (length input.participants == 0) participants_required) _ h1 in
      let (_, unique, h3) = >>=_returns (assert_unique (account_ids input.participants) []) _ h2 in
      let (profit, ep, h4) = >>=_returns (unsigned_units input.profit_after_per scale) _ h3 in
      let (_, _, h5) = >>=_returns (throw_if (ltb_ℤ profit (pos 0)) engine_negative) _ h4 in
      let (irr, ei, h6) = >>=_returns (unsigned_units input.irr_allocation scale) _ h5 in
      let (_, _, h7) = >>=_returns (throw_if (ltb_ℤ irr (pos 0)) engine_negative) _ h6 in
      let (investor_nisba, _, h8) = >>=_returns (non_negative d input.investor_nisba) _ h7 in
      let (bank_nisba, _, h9) = >>=_returns (non_negative d input.bank_nisba) _ h8 in
      let (_, _, h10) =
        >>=_returns
          (throw_if (not (d.equals (d.plus investor_nisba bank_nisba) (d.of_units (pos 1))))
            nisba_total)
          _ h9 in
      let (nisba, _, h11) =
        >>=_returns
          (allocate_units d locale_compare profit
            (nisba_entries d locale_compare investor_nisba bank_nisba))
          _ h10 in
      let investor = units_of_key (codes "INVESTOR") nisba in
      let bank = units_of_key (codes "BANK") nisba in
      let (_, bounded, h12) = >>=_returns (throw_if (ltb_ℤ investor irr) irr_exceeds_share) _ h11 in
      let (members, em, h13) = >>=_returns (bases_of d locale_compare input.participants) _ h12 in
      let (units, eu, h14) =
        >>=_returns (account_units d locale_compare input (investor -ℤ irr) members) _ h13 in
      let s : Shares = record {
        scale = scale;
        profit = profit;
        bank = bank;
        investor = investor;
        irr = irr;
      } in
      (
        s,
        units,
        es,
        checked_result-Conserved input s units r ep ei (not_thrown _ irr_exceeds_share bounded)
            (assert_unique-Distinct (account_ids input.participants) unique)
            (subst (λ ids. IsAllocation ids units) (bases_of-ids input.participants members em)
              (account_units-IsAllocation input.method input.category_keys (investor -ℤ irr) members
                units eu))
            h14,
      )
