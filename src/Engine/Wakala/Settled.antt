-- ===== src/Engine/Wakala/Settled.antt =====
-- What `allocateWakalaProfit` pays to whom.
use pms_backend.Base.{
  ℕ, ◌≡◌, ◌↔◌, Option, none, some, ◌⊎◌, inl, inr, refl, sym, ◌∙◌, subst, Bool, true, false, ◌&&◌,
  Bool-cases, arith, if◌then◌else◌,
}
use pms_backend.Base.Int.{ℤ, pos, ltb_ℤ, ◌+ℤ◌, ◌-ℤ◌, ◌≤ℤ◌, int_laws, ltb_ℤ_iff}
use pms_backend.Fault.{
  Fault, Result, ok, err, throw_if, ◌>>=◌, >>=_returns, ok_injective, mandate_required,
  waiver_exceeds, waiver_undocumented,
}
use pms_backend.Text.{is_blank}
use pms_backend.Loss.{LossCause, is_zero}
use pms_backend.Loss.Liable.{IsBankLiable, is_bank_liability_cause_iff}
use pms_backend.Money.Amounts.{not_thrown}
use pms_backend.Engine.{Decimals, currency_scale, signed_units, unsigned_units, ratio}
use pms_backend.Engine.Units.{signed_units-units_to_decimal}
use pms_backend.Engine.Wakala.{
  WakalaAllocationInput, WakalaAllocationResult, WakalaUnits, WakalaSurplusPolicy,
  bank_performance_incentive, rounded_product, return_to_mandant, minimum, waiver_units,
  is_undocumented, attributed_to_bank, loss_result, surplus_of, profit_result, settled_with,
  incentive_of, settle, allocate_wakala_profit,
}

-- The four amounts of a result, as a caller reads them.
pub record Paid (scale : ℕ) (r : WakalaAllocationResult)
    (charged incentive mandant_part bank_part : ℤ) : Type 0 where
  pub charged_read : signed_units r.charged_fee scale ≡ ok charged
  pub incentive_read : signed_units r.performance_incentive scale ≡ ok incentive
  pub mandant_read : signed_units r.mandant_result scale ≡ ok mandant_part
  pub bank_read : signed_units r.bank_total_remuneration scale ≡ ok bank_part

-- The bank answers for a loss by its cause or, where no cause is known, by an established fault.
abbrev pub IsAttributed : WakalaAllocationInput → Type 0
IsAttributed input =
    IsBankLiable input.loss_cause
    ⊎ ((input.loss_cause ≡ none) × (input.bank_fault_established ≡ some true))

attributed_shape :
    (cause : Option LossCause) (fault : Option Bool)
    → (attributed_to_bank cause fault ≡ true)
      ↔ (IsBankLiable cause ⊎ ((cause ≡ none) × (fault ≡ some true)))
unfolding attributed_to_bank
attributed_shape none none = ground arith
attributed_shape none (some b) = ground arith
attributed_shape (some c) fault = ground (arith, is_bank_liability_cause_iff c)

difference_zero : (r c i : ℤ) → is_zero (r -ℤ (r -ℤ c -ℤ i) -ℤ (c +ℤ i)) ≡ true
difference_zero r c i =
    let zero : r -ℤ (r -ℤ c -ℤ i) -ℤ (c +ℤ i) ≡ pos 0 = omega int_laws in rw zero refl

parts_conserved : (r c i : ℤ) → (r -ℤ c -ℤ i) +ℤ (c +ℤ i) ≡ r
parts_conserved r c i = omega int_laws

right_zero : (a : ℤ) → a +ℤ pos 0 ≡ a
right_zero a = omega int_laws

left_zero : (a : ℤ) → pos 0 +ℤ a ≡ a
left_zero a = omega int_laws

clash : {b : Bool} → b ≡ true → b ≡ false → ⊥
clash h k = cc

below : (a b : ℤ) → ltb_ℤ a b ≡ true → a ≤ℤ b
below a b h = ground arith

not_below : (a b : ℤ) → ltb_ℤ a b ≡ false → b ≤ℤ a
not_below a b h = ground arith

minimum_shape :
    (a b : ℤ) (c : Bool)
    → ltb_ℤ a b ≡ c
    → let m = if c then a else b in (m ≤ℤ b) × (m ≤ℤ a) × ((m ≡ b) ⊎ (m ≡ a))
minimum_shape a b true h = (below a b h, omega arith, inr refl)
minimum_shape a b false h = (omega arith, not_below a b h, inl refl)

minimum_lem :
    (a b : ℤ) → (minimum a b ≤ℤ b) × (minimum a b ≤ℤ a) × ((minimum a b ≡ b) ⊎ (minimum a b ≡ a))
unfolding minimum
minimum_lem a b = minimum_shape a b (ltb_ℤ a b) refl

attributed :
    (input : WakalaAllocationInput)
    → IsAttributed input
    → attributed_to_bank input.loss_cause input.bank_fault_established ≡ true
attributed input it = (attributed_shape input.loss_cause input.bank_fault_established).1 it

is_attributed :
    (input : WakalaAllocationInput)
    → attributed_to_bank input.loss_cause input.bank_fault_established ≡ true
    → IsAttributed input
is_attributed input it = (attributed_shape input.loss_cause input.bank_fault_established).0 it

surplus_shape :
    (a e : ℤ) (more : Bool)
    → ltb_ℤ e a ≡ more
    → let s = if more then a -ℤ e else pos 0 in (a ≤ℤ e → s ≡ pos 0) × (e ≤ℤ a → e +ℤ s ≡ a)
surplus_shape a e true h =
    let up = (ltb_ℤ_iff e a).0 h in ((λ low. absurd (omega int_laws)), (λ high. omega int_laws))
surplus_shape a e false h = let down = not_below e a h in ((λ low. refl), (λ high. omega int_laws))

surplus_of_lem : (a e : ℤ) → (a ≤ℤ e → surplus_of a e ≡ pos 0) × (e ≤ℤ a → e +ℤ surplus_of a e ≡ a)
unfolding surplus_of
surplus_of_lem a e = surplus_shape a e (ltb_ℤ e a) refl

module _ (d : Decimals) where
  open d use {Value}

  -- The incentive that is earned: none where the surplus goes back to the mandant, and otherwise the
  -- rounded share of what the profit less the fee has above the expected profit.
  abbrev pub Earned : WakalaSurplusPolicy → WakalaUnits → Value → ℤ → ℤ → Type 0
  Earned return_to_mandant u rate charged incentive = incentive ≡ pos 0
  Earned bank_performance_incentive u rate charged incentive =
      (surplus : ℤ) × (u.realized -ℤ charged ≤ℤ u.expected → surplus ≡ pos 0)
      × (u.expected ≤ℤ u.realized -ℤ charged → u.expected +ℤ surplus ≡ u.realized -ℤ charged)
      × (d.rounded_units (d.times (d.of_units surplus) rate) ≡ ok incentive)

  -- A loss falls on one side whole, and the bank earns nothing. Otherwise the bank gets its fee, which
  -- the profit and the agreed fee bound and one of them attains, and the incentive it has earned.
  abbrev pub Rules : WakalaAllocationInput → WakalaUnits → Value → ℤ → ℤ → ℤ → ℤ → Bool → Type 0
  Rules input u rate charged incentive mandant_part bank_part true =
      (charged ≡ pos 0)
      × (incentive ≡ pos 0)
      × ((IsAttributed input → bank_part ≡ u.realized)
          × ((IsAttributed input → ⊥) → mandant_part ≡ u.realized))
  Rules input u rate charged incentive mandant_part bank_part false =
      (bank_part ≡ charged +ℤ incentive)
      × (charged ≤ℤ u.realized)
      × (charged ≤ℤ u.contractual_fee -ℤ u.waiver)
      × ((charged ≡ u.realized) ⊎ (charged ≡ u.contractual_fee -ℤ u.waiver))
      × Earned input.surplus_policy u rate charged incentive

  pub record Settled (input : WakalaAllocationInput) (u : WakalaUnits) (rate : Value)
      (r : WakalaAllocationResult) : Type 0 where
    pub charged : ℤ
    pub incentive : ℤ
    pub mandant_part : ℤ
    pub bank_part : ℤ
    pub paid : Paid u.scale r charged incentive mandant_part bank_part
    pub conserved : mandant_part +ℤ bank_part ≡ u.realized
    pub rules :
        Rules input u rate charged incentive mandant_part bank_part (ltb_ℤ u.realized (pos 0))

  loss_result-Settled :
      (input : WakalaAllocationInput) (u : WakalaUnits) (rate : Value) (to_bank : Bool)
      → attributed_to_bank input.loss_cause input.bank_fault_established ≡ to_bank
      → ltb_ℤ u.realized (pos 0) ≡ true
      → Settled input u rate (loss_result input.mandate_id u to_bank)
  unfolding loss_result
  loss_result-Settled input u rate true e h = record {
    charged = pos 0;
    incentive = pos 0;
    mandant_part = pos 0;
    bank_part = u.realized;
    paid = record {
      charged_read = signed_units-units_to_decimal (pos 0) u.scale;
      incentive_read = signed_units-units_to_decimal (pos 0) u.scale;
      mandant_read = signed_units-units_to_decimal (pos 0) u.scale;
      bank_read = signed_units-units_to_decimal u.realized u.scale;
    };
    conserved = left_zero u.realized;
    rules = rw h (refl, refl, ((λ _. refl), (λ no. absurd (no (is_attributed input e)))));
  }
  loss_result-Settled input u rate false e h = record {
    charged = pos 0;
    incentive = pos 0;
    mandant_part = u.realized;
    bank_part = pos 0;
    paid = record {
      charged_read = signed_units-units_to_decimal (pos 0) u.scale;
      incentive_read = signed_units-units_to_decimal (pos 0) u.scale;
      mandant_read = signed_units-units_to_decimal u.realized u.scale;
      bank_read = signed_units-units_to_decimal (pos 0) u.scale;
    };
    conserved = right_zero u.realized;
    rules = rw h (refl, refl, ((λ it. absurd (clash (attributed input it) e)), (λ _. refl)));
  }

  settled_with-Settled :
      (input : WakalaAllocationInput) (u : WakalaUnits) (rate : Value) (incentive : ℤ)
      → ltb_ℤ u.realized (pos 0) ≡ false
      → Earned input.surplus_policy u rate
          (minimum (u.contractual_fee -ℤ u.waiver) u.realized)
          incentive
      → let charged = minimum (u.contractual_fee -ℤ u.waiver) u.realized in
        (r : WakalaAllocationResult) × (settled_with input.mandate_id u charged incentive ≡ ok r)
        × Settled input u rate r
  unfolding settled_with
  settled_with-Settled input u rate incentive h kept =
      let charged = minimum (u.contractual_fee -ℤ u.waiver) u.realized in
      let (low, fee, attained) = minimum_lem (u.contractual_fee -ℤ u.waiver) u.realized in
      (
        profit_result input.mandate_id u charged incentive
            (u.realized -ℤ (u.realized -ℤ charged -ℤ incentive) -ℤ (charged +ℤ incentive)),
        rw (difference_zero u.realized charged incentive) refl,
        record {
          charged = charged;
          incentive = incentive;
          mandant_part = u.realized -ℤ charged -ℤ incentive;
          bank_part = charged +ℤ incentive;
          paid = record {
            charged_read = signed_units-units_to_decimal charged u.scale;
            incentive_read = signed_units-units_to_decimal incentive u.scale;
            mandant_read =
                signed_units-units_to_decimal (u.realized -ℤ charged -ℤ incentive) u.scale;
            bank_read = signed_units-units_to_decimal (charged +ℤ incentive) u.scale;
          };
          conserved = parts_conserved u.realized charged incentive;
          rules = rw h (refl, low, fee, attained, kept);
        },
      )

  -- The incentive that `settle` asks for.
  abbrev pub Incentive : WakalaAllocationInput → WakalaUnits → Value → Result ℤ
  Incentive input u rate =
      let charged = minimum (u.contractual_fee -ℤ u.waiver) u.realized in
      incentive_of d input.surplus_policy (surplus_of (u.realized -ℤ charged) u.expected) rate

  incentive_of-Earned :
      (policy : WakalaSurplusPolicy) (u : WakalaUnits) (rate : Value) (charged incentive : ℤ)
      → incentive_of d policy (surplus_of (u.realized -ℤ charged) u.expected) rate ≡ ok incentive
      → Earned policy u rate charged incentive
  unfolding incentive_of rounded_product
  incentive_of-Earned return_to_mandant u rate charged incentive h = sym (ok_injective h)
  incentive_of-Earned bank_performance_incentive u rate charged incentive h =
      let (low, high) = surplus_of_lem (u.realized -ℤ charged) u.expected in
      (surplus_of (u.realized -ℤ charged) u.expected, low, high, h)

  settle_profit :
      (input : WakalaAllocationInput) (u : WakalaUnits) (rate : Value) (asked : Result ℤ)
      → Incentive input u rate ≡ asked
      → ltb_ℤ u.realized (pos 0) ≡ false
      → let charged = minimum (u.contractual_fee -ℤ u.waiver) u.realized in
        let outcome = asked >>= settled_with input.mandate_id u charged in
        ((r : WakalaAllocationResult) × (outcome ≡ ok r) × Settled input u rate r)
        ⊎ ((f : Fault) × (outcome ≡ err f) × (asked ≡ err f))
  settle_profit input u rate (err f) e h = inr (f, refl, refl)
  settle_profit input u rate (ok incentive) e h = inl (
      settled_with-Settled input u rate incentive h
        (incentive_of-Earned input.surplus_policy u rate _ incentive e))

  -- Behind the checks of the input there is a settlement, or the error that rounding the incentive
  -- gives: never one of conservation.
  pub settle_lem :
      (input : WakalaAllocationInput) (u : WakalaUnits) (rate : Value)
      → ((r : WakalaAllocationResult) × (settle d input u rate ≡ ok r) × Settled input u rate r)
        ⊎ ((f : Fault) × (settle d input u rate ≡ err f) × (Incentive input u rate ≡ err f))
  unfolding settle
  settle_lem input u rate = elim (Bool-cases (ltb_ℤ u.realized (pos 0))) [
    | inl lost ↦
        let to_bank = attributed_to_bank input.loss_cause input.bank_fault_established in
        inl (
          loss_result input.mandate_id u to_bank,
          rw lost refl,
          loss_result-Settled input u rate to_bank refl lost,
        )
    | inr kept ↦ rw kept (settle_profit input u rate (Incentive input u rate) refl kept)
  ]

  settle-Settled :
      (input : WakalaAllocationInput) (u : WakalaUnits) (rate : Value) (r : WakalaAllocationResult)
      → settle d input u rate ≡ ok r
      → Settled input u rate r
  settle-Settled input u rate r h = elim (settle_lem input u rate) [
    | inl (s, e, settled) ↦ subst (Settled input u rate) (ok_injective (sym e ∙ h)) settled
    | inr (f, e, _) ↦ absurd (cc (e, h))
  ]

  -- The texts of the input and the units that they spell.
  pub record Reads (input : WakalaAllocationInput) (u : WakalaUnits) : Type 0 where
    pub scale_read : currency_scale input.currency_scale ≡ ok u.scale
    pub realized_read : signed_units input.realized_profit u.scale ≡ ok u.realized
    pub expected_read : unsigned_units input.indicative_expected_profit u.scale ≡ ok u.expected
    pub fee_read : unsigned_units input.contractual_fee u.scale ≡ ok u.contractual_fee
    pub waiver_read : waiver_units input.fee_waiver u.scale ≡ ok u.waiver
    pub waiver_bounded : ltb_ℤ u.contractual_fee u.waiver ≡ false
    pub waiver_documented : (ltb_ℤ (pos 0) u.waiver && is_undocumented input.fee_waiver) ≡ false

  -- An allocation that returns has read every amount, with a waiver that is at most the fee and, if
  -- it is more than 0, documented and approved; and it is settled: the two parts sum to the realized
  -- profit. A loss falls whole on the bank if its cause is the bank's own or, where no cause is known,
  -- a fault of the bank is established, and whole on the mandant otherwise. A profit pays the bank a
  -- fee, the lower one of the profit and the fee less the waiver, and under the incentive policy the
  -- rounded share of what is left above the expected profit; under the other one no incentive.
  pub allocate_wakala_profit-Settled :
      (input : WakalaAllocationInput) (r : WakalaAllocationResult)
      → allocate_wakala_profit d input ≡ ok r
      → (u : WakalaUnits) × (rate : Value) × (ratio d input.performance_incentive_rate ≡ ok rate)
        × Reads input u
        × Settled input u rate r
  unfolding allocate_wakala_profit
  allocate_wakala_profit-Settled input r h =
      let (_, _, h1) = >>=_returns (throw_if (is_blank input.mandate_id) mandate_required) _ h in
      let (scale, es, h2) = >>=_returns (currency_scale input.currency_scale) _ h1 in
      let (realized, er, h3) = >>=_returns (signed_units input.realized_profit scale) _ h2 in
      let (expected, ee, h4) =
        >>=_returns (unsigned_units input.indicative_expected_profit scale) _ h3 in
      let (fee, ef, h5) = >>=_returns (unsigned_units input.contractual_fee scale) _ h4 in
      let (rate, et, h6) = >>=_returns (ratio d input.performance_incentive_rate) _ h5 in
      let (waiver, ew, h7) = >>=_returns (waiver_units input.fee_waiver scale) _ h6 in
      let (_, bounded, h8) = >>=_returns (throw_if (ltb_ℤ fee waiver) waiver_exceeds) _ h7 in
      let (_, documented, h9) =
        >>=_returns
          (throw_if (ltb_ℤ (pos 0) waiver && is_undocumented input.fee_waiver) waiver_undocumented)
          _ h8 in
      let u : WakalaUnits = record {
        scale = scale;
        realized = realized;
        expected = expected;
        contractual_fee = fee;
        waiver = waiver;
      } in
      (
        u,
        rate,
        et,
        record {
          scale_read = es;
          realized_read = er;
          expected_read = ee;
          fee_read = ef;
          waiver_read = ew;
          waiver_bounded = not_thrown _ waiver_exceeds bounded;
          waiver_documented = not_thrown _ waiver_undocumented documented;
        },
        settle-Settled input u rate r h9,
      )
