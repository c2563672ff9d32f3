-- ===== src/Engine/Weighted/Days.antt =====
-- The days of `calculateWeightedParticipationBase`.
use pms_backend.Base.{
  ℕ, suc, ◌+◌, ◌-◌, ◌≡◌, refl, sym, ap, ◌∙◌, subst, false, not, List, [], ◌∷◌, map, arith, length,
  length-map, All, ltb, ◌==◌,
}
use pms_backend.Fault.{
  ok, throw_if, >>=_returns, ok_injective, account_required, period_reversed, observation_count,
  observation_date,
}
use pms_backend.Text.{Text, is_blank}
use pms_backend.Money.Amounts.{not_thrown}
use pms_backend.Engine.Dates.{parse_date}
use pms_backend.Engine.{Decimals, checked_output_scale, non_negative}
use pms_backend.Engine.Weighted.{
  BalanceConvention, daily_balance, participation_units, weighted_result, average_daily_balance,
  minimum_daily_balance, ParticipationObservation, WeightedParticipationInput,
  DailyParticipationBase, WeightedParticipationResult, basis_for_observation, raw_bases,
  effective_bases, Totals, daily_from, calculate_weighted_participation_base,
}

-- One observation for each day from a first one on.
abbrev pub EveryDay : ℕ → List ParticipationObservation → Type 0
EveryDay day [] = Unit {0}
EveryDay day (o ∷ observations) =
    (parse_date o.business_date ≡ ok day) × EveryDay (suc day) observations

abbrev pub dates_of : List ParticipationObservation → List Text
dates_of observations = map (λ (o : ParticipationObservation). o.business_date) observations

abbrev pub daily_dates : List DailyParticipationBase → List Text
daily_dates daily = map (λ (e : DailyParticipationBase). e.business_date) daily

same_number : (a b : ℕ) → not (a == b) ≡ false → a ≡ b
same_number a b h = ground arith

last_day :
    (first last n : ℕ) → ltb last first ≡ false → n ≡ suc (last - first) → suc last ≡ first + n
last_day first last n h e = ground arith

module _ (d : Decimals) where
  open d use {Value, of_units, plus, times, divided_by, formatted}

  raw_bases-EveryDay :
      (convention : BalanceConvention) (day : ℕ) (observations : List ParticipationObservation)
      (bases : List Value)
      → raw_bases d convention day observations ≡ ok bases
      → EveryDay day observations × (length bases ≡ length observations)
  unfolding raw_bases
  raw_bases-EveryDay convention day [] bases h = (tt, ap length (sym (ok_injective h)))
  raw_bases-EveryDay convention day (o ∷ observations) bases h =
      let (date, ed, h1) = >>=_returns (parse_date o.business_date) _ h in
      let (_, same, h2) = >>=_returns (throw_if (not (date == day)) observation_date) _ h1 in
      let (basis, _, h3) = >>=_returns (basis_for_observation d o convention) _ h2 in
      let (rest, er, h4) = >>=_returns (raw_bases d convention (suc day) observations) _ h3 in
      let (days, len) = raw_bases-EveryDay convention (suc day) observations rest er in
      (
        (ed ∙ ap ok (same_number date day (not_thrown _ observation_date same)), days),
        ap length (sym (ok_injective h4)) ∙ ap suc len,
      )

  daily_from-dates :
      (weight fraction : Value) (scale : ℕ) (observations : List ParticipationObservation)
      (bases : List Value) (totals : Totals d)
      → length bases ≡ length observations
      → daily_dates (daily_from d weight fraction scale totals observations bases).0
        ≡ dates_of observations
  unfolding daily_from
  daily_from-dates weight fraction scale [] bases totals h = refl
  daily_from-dates weight fraction scale (o ∷ os) [] totals h = absurd (omega arith)
  daily_from-dates weight fraction scale (o ∷ os) (b ∷ bs) totals h =
      ap (λ ds. o.business_date ∷ ds) (daily_from-dates weight fraction scale os bs _ (omega arith))

  -- Where each basis is one and the same, it is printed for every day.
  daily_from-level :
      (weight fraction : Value) (scale : ℕ) (level : Value)
      (observations : List ParticipationObservation) (raw : List Value) (totals : Totals d)
      → All
          (λ (e : DailyParticipationBase). e.eligible_basis ≡ formatted level scale)
          (daily_from d weight fraction scale totals observations (map (λ _. level) raw)).0
  unfolding daily_from
  daily_from-level weight fraction scale level [] raw totals = tt
  daily_from-level weight fraction scale level (o ∷ os) [] totals = tt
  daily_from-level weight fraction scale level (o ∷ os) (b ∷ bs) totals =
      (refl, daily_from-level weight fraction scale level os bs _)

  length-effective_bases :
      (convention : BalanceConvention) (average minimum : Value) (raw : List Value)
      → length (effective_bases d convention average minimum raw) ≡ length raw
  unfolding effective_bases
  length-effective_bases average_daily_balance average minimum raw = length-map (λ _. average) raw
  length-effective_bases minimum_daily_balance average minimum raw = length-map (λ _. minimum) raw
  length-effective_bases daily_balance average minimum raw = refl
  length-effective_bases participation_units average minimum raw = refl

  weighted_result-dates :
      (input : WeightedParticipationInput) (scale : ℕ) (weight : Value) (n : ℕ) (raw : List Value)
      → length raw ≡ length input.observations
      → daily_dates (weighted_result d input scale weight n raw).daily ≡ dates_of input.observations
  unfolding weighted_result
  weighted_result-dates input scale weight n raw len =
      daily_from-dates weight _ scale input.observations _ _
        (length-effective_bases input.balance_convention _ _ raw ∙ len)

  weighted_result-average :
      (input : WeightedParticipationInput) (scale : ℕ) (weight : Value) (n : ℕ) (raw : List Value)
      → let r = weighted_result d input scale weight n raw in
        input.balance_convention ≡ average_daily_balance
        → All (λ (e : DailyParticipationBase). e.eligible_basis ≡ r.average_eligible_basis) r.daily
  unfolding weighted_result effective_bases
  weighted_result-average input scale weight n raw e =
      rw e (daily_from-level weight _ scale _ input.observations raw _)

  weighted_result-minimum :
      (input : WeightedParticipationInput) (scale : ℕ) (weight : Value) (n : ℕ) (raw : List Value)
      → let r = weighted_result d input scale weight n raw in
        input.balance_convention ≡ minimum_daily_balance
        → All (λ (e : DailyParticipationBase). e.eligible_basis ≡ r.minimum_eligible_basis) r.daily
  unfolding weighted_result effective_bases
  weighted_result-minimum input scale weight n raw e =
      rw e (daily_from-level weight _ scale _ input.observations raw _)

  -- What a result tells of the days of its period.
  pub record Covers (input : WeightedParticipationInput) (r : WeightedParticipationResult)
      : Type 0 where
    pub first : ℕ
    pub last : ℕ
    pub first_read : parse_date input.period_start ≡ ok first
    pub last_read : parse_date input.period_end ≡ ok last
    pub whole : suc last ≡ first + length input.observations
    pub days : EveryDay first input.observations
    pub count : r.observation_count ≡ length input.observations
    pub dates : daily_dates r.daily ≡ dates_of input.observations
    pub average :
        input.balance_convention ≡ average_daily_balance
        → All (λ (e : DailyParticipationBase). e.eligible_basis ≡ r.average_eligible_basis) r.daily
    pub minimum :
        input.balance_convention ≡ minimum_daily_balance
        → All (λ (e : DailyParticipationBase). e.eligible_basis ≡ r.minimum_eligible_basis) r.daily

  -- A result that is returned covers its period: there is one observation for each day from the
  -- start to the end, in their order and no more, and one daily entry for each; on the average or
  -- the minimum convention every day has that same basis, the one that the result prints.
  pub calculate_weighted_participation_base-Covers :
      (input : WeightedParticipationInput) (r : WeightedParticipationResult)
      → calculate_weighted_participation_base d input ≡ ok r
      → Covers input r
  unfolding calculate_weighted_participation_base
  calculate_weighted_participation_base-Covers input r h =
      let (_, _, h1) = >>=_returns (throw_if (is_blank input.account_id) account_required) _ h in
      let (first, ef, h2) = >>=_returns (parse_date input.period_start) _ h1 in
      let (last, el, h3) = >>=_returns (parse_date input.period_end) _ h2 in
      let (_, ordered, h4) = >>=_returns (throw_if (ltb last first) period_reversed) _ h3 in
      let (_, counted, h5) =
        >>=_returns
          (throw_if (not (length input.observations == suc (last - first))) observation_count) _
          h4 in
      let (scale, _, h6) = >>=_returns (checked_output_scale input.output_scale) _ h5 in
      let (category, _, h7) = >>=_returns (non_negative d input.category_weight) _ h6 in
      let (maturity, _, h8) = >>=_returns (non_negative d input.maturity_weight) _ h7 in
      let (raw, eb, h9) =
        >>=_returns (raw_bases d input.balance_convention first input.observations) _ h8 in
      let number =
        same_number (length input.observations) (suc (last - first))
          (not_thrown _ observation_count counted) in
      let (days, len) =
        raw_bases-EveryDay input.balance_convention first input.observations raw eb in
      subst (Covers input) (ok_injective h9) (record {
        first = first;
        last = last;
        first_read = ef;
        last_read = el;
        whole = last_day first last _ (not_thrown _ period_reversed ordered) number;
        days = days;
        count = sym number;
        dates =
            weighted_result-dates input scale (times category maturity) (suc (last - first)) raw
              len;
        average =
            weighted_result-average input scale (times category maturity) (suc (last - first)) raw;
        minimum =
            weighted_result-minimum input scale (times category maturity) (suc (last - first)) raw;
      })
