-- ===== src/Engine/Musharaka/Split.antt =====
-- The two allocations of `allocateMusharakaResult`.
use pms_backend.Base.{
  ℕ, ◌≡◌, ◌↔◌, none, some, ◌≤◌, refl, sym, ap, subst, Bool, true, false, not, Option, inl, inr, ◌⊎◌,
  arith, if◌then◌else◌, ◌&&◌,
}
use pms_backend.Base.Int.{
  ℤ, pos, negate, ltb_ℤ, ◌+ℤ◌, ◌-ℤ◌, ◌≤ℤ◌, int_laws, ltb_ℤ_iff, pos_part, neg_part,
}
use pms_backend.Fault.{
  Fault, ok, throw_if, ◌>>=◌, >>=_returns, ok_injective, ratios_total, passive_bank,
  passive_partner, musharaka_conservation,
}
use pms_backend.Loss.{LossCause, is_zero}
use pms_backend.Loss.Liable.{IsBankLiable, is_bank_liability_cause_iff}
use pms_backend.Engine.{Decimals, currency_scale, signed_units, positive, ratio}
use pms_backend.Engine.Units.{signed_units-units_to_decimal}
use pms_backend.Money.Amounts.{not_thrown}
use pms_backend.Engine.Musharaka.{
  bank as bank_side, partner as partner_side, MusharakaPassivePartner, MusharakaAllocationInput,
  MusharakaAllocationResult, AppliedRule, negotiated_profit_ratio, capital_loss_ratio,
  causal_bank_liability, no_rule, result_type_of, causal_bank_liability_of, is_bank, is_partner,
  with_residual, split_units, allocation_result, allocate_units, allocate_musharaka_result,
}

is_zero_sound : (a : ℤ) → not (is_zero a) ≡ false → a ≡ pos 0
is_zero_sound a h = ground arith

negative : (a : ℤ) → is_zero a ≡ false → ltb_ℤ (pos 0) a ≡ false → ltb_ℤ a (pos 0) ≡ true
negative a h k = ground arith

-- The parts of a split against the floors of the exact parts.
abbrev pub Sums : ℤ → ℤ → ℤ → ℤ × ℤ → Type 0
Sums total first second (b, p) =
    (first +ℤ second ≤ℤ total → (b +ℤ p ≡ total) × (first ≤ℤ b) × (second ≤ℤ p))
    × ((b ≡ first) ⊎ (p ≡ second))
    × (total ≤ℤ first +ℤ second → (b ≡ first) × (p ≡ second))

not_positive : (a : ℤ) → ltb_ℤ (pos 0) a ≡ false → pos_part a ≤ neg_part a
not_positive a h = ground arith

done :
    (total first second : ℤ)
    → ltb_ℤ (pos 0) (total -ℤ first -ℤ second) ≡ false
    → first +ℤ second ≤ℤ total
    → first +ℤ second ≡ total
done total first second h low =
    let down = not_positive (total -ℤ first -ℤ second) h in omega int_laws

residual_shape :
    (total first second : ℤ) (more at_least : Bool)
    → ltb_ℤ (pos 0) (total -ℤ first -ℤ second) ≡ more
    → Sums total first second (
        let residual = total -ℤ first -ℤ second in
        if more
        then (if at_least then (first +ℤ residual, second) else (first, second +ℤ residual))
        else (first, second))
residual_shape total first second true true h =
    let up = (ltb_ℤ_iff (pos 0) (total -ℤ first -ℤ second)).0 h in
    (
      (λ low. (omega int_laws, omega int_laws, omega int_laws)),
      inr refl,
      (λ high. absurd (omega int_laws)),
    )
residual_shape total first second true false h =
    let up = (ltb_ℤ_iff (pos 0) (total -ℤ first -ℤ second)).0 h in
    (
      (λ low. (omega int_laws, omega int_laws, omega int_laws)),
      inl refl,
      (λ high. absurd (omega int_laws)),
    )
residual_shape total first second false at_least h = (
  (λ low. (done total first second h low, omega int_laws, omega int_laws)),
  inl refl,
  (λ high. (refl, refl)),
)

parts_sum : (t b p : ℤ) → t -ℤ b -ℤ p ≡ pos 0 → b +ℤ p ≡ t
parts_sum t b p h = omega (int_laws, ap pos_part h, ap neg_part h)

liable_iff :
    (cause : Option LossCause) → (causal_bank_liability_of cause ≡ true) ↔ IsBankLiable cause
unfolding causal_bank_liability_of
liable_iff none = ((λ h. cc h), (λ h. absurd h))
liable_iff (some cause) = is_bank_liability_cause_iff cause

not_liable :
    (cause : Option LossCause) → causal_bank_liability_of cause ≡ false → IsBankLiable cause → ⊥
not_liable cause h liable = let yes = (liable_iff cause).1 liable in cc (h, yes)

thrown_not : (b : Bool) (e : Fault) → throw_if (not b) e ≡ ok tt → b ≡ true
thrown_not b e h = ground arith

module _ (d : Decimals) where
  open d use {
    Value, of_units, plus, minus, times, divided_by, equals, greater_than, at_least, floor_units,
  }

  -- The ratios that the two partners contribute and agree on.
  pub record Ratios : Type 0 where
    pub bank_capital : Value
    pub partner_capital : Value
    pub bank_profit : Value
    pub partner_profit : Value

  -- Two parts of a total by two ratios: the floors of the exact parts, and the units that these leave
  -- for the part with the larger remainder, the first one on a tie.
  pub record SplitBy (total : ℤ) (first_ratio second_ratio : Value) (b p : ℤ) : Type 0 where
    pub first : ℤ
    pub second : ℤ
    pub first_floor : floor_units (times (of_units total) first_ratio) ≡ ok first
    pub second_floor : floor_units (times (of_units total) second_ratio) ≡ ok second
    pub sums : Sums total first second (b, p)
    pub first_larger :
        at_least
            (minus (times (of_units total) first_ratio) (of_units first))
            (minus (times (of_units total) second_ratio) (of_units second))
          ≡ true
        → p ≡ second
    pub second_larger :
        at_least
            (minus (times (of_units total) first_ratio) (of_units first))
            (minus (times (of_units total) second_ratio) (of_units second))
          ≡ false
        → b ≡ first

  -- What a rule gives: the sign of the result, and the parts of the two partners. A profit goes by
  -- the profit ratios, a loss for which the bank is not liable by the capital ratios.
  abbrev pub Follows : AppliedRule → ℤ → Option LossCause → Ratios → ℤ → ℤ → Type 0
  Follows no_rule total cause s b p = (total ≡ pos 0) × (b ≡ pos 0) × (p ≡ pos 0)
  Follows negotiated_profit_ratio total cause s b p =
      (ltb_ℤ (pos 0) total ≡ true) × SplitBy total s.bank_profit s.partner_profit b p
  Follows causal_bank_liability total cause s b p =
      (ltb_ℤ total (pos 0) ≡ true) × IsBankLiable cause × (b ≡ total) × (p ≡ pos 0)
  Follows capital_loss_ratio total cause s b p =
      (ltb_ℤ total (pos 0) ≡ true)
      × (IsBankLiable cause → ⊥)
      × (bank_loss : ℤ) × (partner_loss : ℤ) × SplitBy (negate total) s.bank_capital
          s.partner_capital bank_loss partner_loss
      × (b ≡ negate bank_loss)
      × (p ≡ negate partner_loss)

  -- An allocation of `total` units at a scale, as a caller reads it.
  pub record Allocated (scale : ℕ) (total : ℤ) (cause : Option LossCause) (s : Ratios)
      (r : MusharakaAllocationResult) : Type 0 where
    pub bank_units : ℤ
    pub partner_units : ℤ
    pub bank : signed_units r.bank_allocation scale ≡ ok bank_units
    pub partner : signed_units r.partner_allocation scale ≡ ok partner_units
    pub conserved : bank_units +ℤ partner_units ≡ total
    pub kind : r.result_type ≡ result_type_of total
    pub rule : Follows r.applied_rule total cause s bank_units partner_units

  -- The ratios are those of the input: the capital ratios are the shares in the sum of the capitals,
  -- the profit ratios sum to 1, and a passive partner gets no more profit than its capital ratio.
  pub record Agreed (input : MusharakaAllocationInput) (s : Ratios) : Type 0 where
    pub bank : Value
    pub partner : Value
    pub bank_read : positive d input.bank_capital ≡ ok bank
    pub partner_read : positive d input.partner_capital ≡ ok partner
    pub bank_capital_ratio : s.bank_capital ≡ divided_by bank (plus bank partner)
    pub partner_capital_ratio : s.partner_capital ≡ divided_by partner (plus bank partner)
    pub bank_profit_read : ratio d input.bank_profit_ratio ≡ ok s.bank_profit
    pub partner_profit_read : ratio d input.partner_profit_ratio ≡ ok s.partner_profit
    pub profit_total : equals (plus s.bank_profit s.partner_profit) (of_units (pos 1)) ≡ true
    pub bank_passive :
        input.passive_partner ≡ bank_side → greater_than s.bank_profit s.bank_capital ≡ false
    pub partner_passive :
        input.passive_partner ≡ partner_side
        → greater_than s.partner_profit s.partner_capital ≡ false

  larger_shape :
      (total first second : ℤ) (more at_least : Bool)
      → let residual = total -ℤ first -ℤ second in
        let parts : ℤ × ℤ =
          if more
          then (if at_least then (first +ℤ residual, second) else (first, second +ℤ residual))
          else (first, second) in
        (at_least ≡ true → parts.1 ≡ second) × (at_least ≡ false → parts.0 ≡ first)
  larger_shape total first second more at_least = ground arith

  split_units-SplitBy :
      (total : ℤ) (x y : Value) (parts : ℤ × ℤ)
      → split_units d total x y ≡ ok parts
      → SplitBy total x y parts.0 parts.1
  unfolding split_units with_residual
  split_units-SplitBy total x y parts h =
      let (first, ef, h1) = >>=_returns (floor_units (times (of_units total) x)) _ h in
      let (second, es, h2) = >>=_returns (floor_units (times (of_units total) y)) _ h1 in
      let more = ltb_ℤ (pos 0) (total -ℤ first -ℤ second) in
      let larger =
        at_least (minus (times (of_units total) x) (of_units first))
          (minus (times (of_units total) y) (of_units second)) in
      let (to_first, to_second) = larger_shape total first second more larger in
      subst (λ (q : ℤ × ℤ). SplitBy total x y q.0 q.1) (ok_injective h2)
        (record {
          first = first;
          second = second;
          first_floor = ef;
          second_floor = es;
          sums = residual_shape total first second more larger refl;
          first_larger = to_first;
          second_larger = to_second;
        })

  allocation_result-Allocated :
      (total b p : ℤ) (scale : ℕ) (bank_ratio partner_ratio : Value) (rule : AppliedRule)
      (cause : Option LossCause) (s : Ratios) (r : MusharakaAllocationResult)
      → Follows rule total cause s b p
      → allocation_result d total b p scale bank_ratio partner_ratio rule ≡ ok r
      → Allocated scale total cause s r
  unfolding allocation_result
  allocation_result-Allocated total b p scale bank_ratio partner_ratio rule cause s r follows h =
      let (_, balanced, h1) =
        >>=_returns (throw_if (not (is_zero (total -ℤ b -ℤ p))) musharaka_conservation) _ h in
      subst (Allocated scale total cause s) (ok_injective h1) (record {
        bank_units = b;
        partner_units = p;
        bank = signed_units-units_to_decimal b scale;
        partner = signed_units-units_to_decimal p scale;
        conserved = parts_sum total b p (is_zero_sound _ (ground arith));
        kind = refl;
        rule = follows;
      })

  split_case :
      (total amount : ℤ) (scale : ℕ) (cause : Option LossCause) (s : Ratios) (bc pc x y : Value)
      (sign : ℤ → ℤ) (rule : AppliedRule) (r : MusharakaAllocationResult)
      → ((b p : ℤ) → SplitBy amount x y b p → Follows rule total cause s (sign b) (sign p))
      → (split_units d amount x y >>= λ parts.
          allocation_result d total (sign parts.0) (sign parts.1) scale bc pc rule)
        ≡ ok r
      → Allocated scale total cause s r
  split_case total amount scale cause s bc pc x y sign rule r follows h =
      let (parts, es, h1) = >>=_returns (split_units d amount x y) _ h in
      allocation_result-Allocated total (sign parts.0) (sign parts.1) scale bc pc rule cause s r
        (follows parts.0 parts.1 (split_units-SplitBy amount x y parts es)) h1

  branch :
      (total : ℤ) (scale : ℕ) (cause : Option LossCause) (s : Ratios) (nothing up liable : Bool)
      (r : MusharakaAllocationResult)
      → is_zero total ≡ nothing
      → ltb_ℤ (pos 0) total ≡ up
      → causal_bank_liability_of cause ≡ liable
      → let bc = s.bank_capital in
        let pc = s.partner_capital in
        (if nothing
            then allocation_result d (pos 0) (pos 0) (pos 0) scale bc pc no_rule
            else if up
            then (split_units d total s.bank_profit s.partner_profit >>= λ parts.
                allocation_result d total parts.0 parts.1 scale bc pc negotiated_profit_ratio)
            else if liable
            then allocation_result d total total (pos 0) scale bc pc causal_bank_liability
            else (split_units d (negate total) bc pc >>= λ parts.
                allocation_result d total
                  (negate parts.0)
                  (negate parts.1)
                  scale
                  bc
                  pc
                  capital_loss_ratio))
          ≡ ok r
        → Allocated scale total cause s r
  branch total scale cause s true up liable r ez eu el h =
      let zero_total : total ≡ pos 0 = is_zero_sound total (ground arith) in
      subst (λ t. Allocated scale t cause s r) (sym zero_total)
        (allocation_result-Allocated (pos 0) (pos 0) (pos 0) scale s.bank_capital s.partner_capital
          no_rule cause s r (refl, refl, refl) h)
  branch total scale cause s false true liable r ez eu el h =
      split_case total total scale cause s s.bank_capital s.partner_capital s.bank_profit
        s.partner_profit (λ z. z) negotiated_profit_ratio r (λ b p split. (eu, split)) h
  branch total scale cause s false false true r ez eu el h =
      allocation_result-Allocated total total (pos 0) scale s.bank_capital s.partner_capital
        causal_bank_liability cause s r (negative total ez eu, (liable_iff cause).0 el, refl, refl)
        h
  branch total scale cause s false false false r ez eu el h =
      split_case total (negate total) scale cause s s.bank_capital s.partner_capital s.bank_capital
        s.partner_capital negate capital_loss_ratio r
        (λ b p split. (negative total ez eu, not_liable cause el, b, p, split, refl, refl)) h

  allocate_units-Allocated :
      (total : ℤ) (scale : ℕ) (cause : Option LossCause) (s : Ratios)
      (r : MusharakaAllocationResult)
      → allocate_units d total scale cause s.bank_capital s.partner_capital s.bank_profit
          s.partner_profit
        ≡ ok r
      → Allocated scale total cause s r
  unfolding allocate_units
  allocate_units-Allocated total scale cause s r h =
      branch total scale cause s (is_zero total) (ltb_ℤ (pos 0) total)
        (causal_bank_liability_of cause) r refl refl refl h

  passive_shape :
      (test over : Bool) (passive named : MusharakaPassivePartner)
      → (passive ≡ named → test ≡ true)
      → (test && over) ≡ false
      → passive ≡ named
      → over ≡ false
  passive_shape test over passive named is_it h e = let on = is_it e in ground arith

  -- An allocation that returns follows one of its rules, by the sign of the result and the cause of a
  -- loss, and its two amounts, read back at the scale of the input, sum to the result. A profit is
  -- split by the profit ratios and a loss for which the bank is not liable by the capital ratios: each
  -- gets the floor of its exact part, and the part with the larger remainder what is left. The ratios
  -- are those of the input, the profit ratios sum to 1, and a passive partner gets no larger ratio of
  -- the profit than of the capital.
  pub allocate_musharaka_result-Allocated :
      (input : MusharakaAllocationInput) (r : MusharakaAllocationResult)
      → allocate_musharaka_result d input ≡ ok r
      → (scale : ℕ) × (total : ℤ) × (currency_scale input.currency_scale ≡ ok scale)
        × (signed_units input.result scale ≡ ok total)
        × (s : Ratios) × Agreed input s
        × Allocated scale total input.loss_cause s r
  unfolding allocate_musharaka_result
  allocate_musharaka_result-Allocated input r h =
      let (scale, es, h1) = >>=_returns (currency_scale input.currency_scale) _ h in
      let (total, et, h2) = >>=_returns (signed_units input.result scale) _ h1 in
      let (bank, eb, h3) = >>=_returns (positive d input.bank_capital) _ h2 in
      let (partner, ep, h4) = >>=_returns (positive d input.partner_capital) _ h3 in
      let bank_capital = divided_by bank (plus bank partner) in
      let partner_capital = divided_by partner (plus bank partner) in
      let (bank_profit, erb, h5) = >>=_returns (ratio d input.bank_profit_ratio) _ h4 in
      let (partner_profit, erp, h6) = >>=_returns (ratio d input.partner_profit_ratio) _ h5 in
      let (_, ex, h7) =
        >>=_returns
          (throw_if (not (equals (plus bank_profit partner_profit) (of_units (pos 1))))
            ratios_total)
          _ h6 in
      let (_, ey, h8) =
        >>=_returns
          (throw_if (is_bank input.passive_partner && greater_than bank_profit bank_capital)
            passive_bank)
          _ h7 in
      let (_, ez, h9) =
        >>=_returns
          (throw_if
            (is_partner input.passive_partner && greater_than partner_profit partner_capital)
            passive_partner)
          _ h8 in
      let s : Ratios = record {
        bank_capital = bank_capital;
        partner_capital = partner_capital;
        bank_profit = bank_profit;
        partner_profit = partner_profit;
      } in
      (
        scale,
        total,
        es,
        et,
        s,
        record {
          bank = bank;
          partner = partner;
          bank_read = eb;
          partner_read = ep;
          bank_capital_ratio = refl;
          partner_capital_ratio = refl;
          bank_profit_read = erb;
          partner_profit_read = erp;
          profit_total = thrown_not _ ratios_total ex;
          bank_passive = λ e.
              passive_shape (is_bank input.passive_partner) (greater_than bank_profit bank_capital)
                input.passive_partner bank_side (ap is_bank) (not_thrown _ passive_bank ey) e;
          partner_passive = λ e.
              passive_shape (is_partner input.passive_partner)
                (greater_than partner_profit partner_capital) input.passive_partner partner_side
                (ap is_partner) (not_thrown _ passive_partner ez) e;
        },
        allocate_units-Allocated total scale input.loss_cause s r h9,
      )
