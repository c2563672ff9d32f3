-- ===== src/Engine/Musharaka/Schedule.antt =====
-- The schedule of `buildMoutanaqissaSchedule`: its periods, and who holds the capital.
use pms_backend.Base.{
  ℕ, ◌+◌, ◌-◌, ◌^◌, ◌<◌, ◌≤◌, ◌↔◌, ◌≡◌, refl, sym, ◌∙◌, subst, Bool, true, false, not, ◌&&◌, List,
  [], ◌∷◌, arith,
}
use pms_backend.Base.Int.{ℤ, pos, ltb_ℤ, ◌+ℤ◌, ◌-ℤ◌, int_laws}
use pms_backend.Fault.{
  ok, throw_if, >>=_returns, ok_injective, purchase_exceeds, ownership_total, not_acquired,
}
use pms_backend.Number.{Number, int, non_integer}
use pms_backend.Loss.{is_zero}
use pms_backend.Money.Amounts.{not_thrown}
use pms_backend.Engine.{Decimals, checked_output_scale, positive}
use pms_backend.Engine.Exact.{ExactSums, Unsigned, unsigned_counts, positive_value}
use pms_backend.Engine.Musharaka.{
  MoutanaqissaPurchase, MoutanaqissaPeriod, MoutanaqissaScheduleInput, MoutanaqissaScheduleResult,
  Holding, next_period, purchase_step, purchase_steps, build_moutanaqissa_schedule,
}

-- Periods strictly after the one before, and none that the input does not have.
abbrev pub Follow : ℤ → List MoutanaqissaPurchase → List MoutanaqissaPeriod → Type 0
Follow previous [] [] = Unit {0}
Follow previous (purchase ∷ purchases) (period ∷ periods) =
    (purchase.period ≡ int period.period)
    × (ltb_ℤ previous period.period ≡ true)
    × Follow period.period purchases periods
Follow previous _ _ = ⊥

next_period_lem :
    (previous : ℤ) (n : Number) (p : ℤ)
    → next_period previous n ≡ ok p
    → (n ≡ int p) × (ltb_ℤ previous p ≡ true)
unfolding next_period
next_period_lem previous non_integer p h = cc
next_period_lem previous (int q) p h = ground arith

must : {m z : Bool} → (m && not z) ≡ false → m ≡ true → z ≡ true
must h k = ground arith

-- The units that the texts of the purchases spell, in all.
abbrev pub Bought : ℕ → List MoutanaqissaPurchase → ℕ → Type 0
Bought decimals [] total = total ≡ 0
Bought decimals (purchase ∷ purchases) total =
    (n : ℕ) × (rest : ℕ) × Unsigned decimals purchase.bank_capital_purchased n
    × Bought decimals purchases rest
    × (total ≡ n + rest)

not_more : (n b : ℕ) → ltb_ℤ (pos b) (pos n) ≡ false → n ≤ b
not_more n b h = ground arith

left_units : (b n : ℕ) → n ≤ b → pos b -ℤ pos n ≡ pos (b - n)
left_units b n h = omega int_laws

more_units : (p n : ℕ) → pos p +ℤ pos n ≡ pos (p + n)
more_units p n = omega int_laws

zero_left :
    (b total : ℕ) (z : Bool) → total ≤ b → z ≡ is_zero (pos (b - total)) → (z ≡ true) ↔ (total ≡ b)
zero_left b total z le e = ground arith

module _ (d : Decimals) {decimals precision : ℕ} (exact : ExactSums d decimals precision) where
  open d use {Value, of_units, plus, minus, divided_by, equals, greater_than, formatted}
  open exact use {Counts}

  -- The units that the two parties hold.
  abbrev pub Holds : ℕ → ℕ → Holding d → Type 0
  Holds b p holding = Counts holding.bank_capital (pos b) × Counts holding.partner_capital (pos p)

  -- After one purchase of `n` units.
  abbrev After :
      ℕ → ℕ → ℕ → Holding d → MoutanaqissaPurchase → MoutanaqissaPeriod × Holding d → Type 0
  After b p n holding purchase (period, next) =
      (n ≤ b)
      × Holds (b - n) (p + n) next
      × (purchase.period ≡ int period.period)
      × (ltb_ℤ holding.previous_period period.period ≡ true)
      × (next.previous_period ≡ period.period)

  moved :
      (b p n : ℕ) (bank partner bought : Value)
      → Counts bank (pos b)
      → Counts partner (pos p)
      → Counts bought (pos n)
      → b + p < 10 ^ precision
      → greater_than bought bank ≡ false
      → (n ≤ b)
        × Counts (minus bank bought) (pos (b - n))
        × Counts (plus partner bought) (pos (p + n))
  moved b p n bank partner bought cb cp cn small enough =
      let le : n ≤ b = not_more n b (sym (exact.greater_than_lem cn cb) ∙ enough) in
      (
        le,
        subst (λ z. Counts (minus bank bought) z) (left_units b n le)
            (exact.minus_counts cb cn (rw (left_units b n le) (omega arith))),
        subst (λ z. Counts (plus partner bought) z) (more_units p n)
            (exact.plus_counts cp cn (rw (more_units p n) (omega arith))),
      )

  purchase_step-After :
      (initial : Value) (scale b p n : ℕ) (holding : Holding d) (purchase : MoutanaqissaPurchase)
      (after : MoutanaqissaPeriod × Holding d)
      → b + p < 10 ^ precision
      → Unsigned decimals purchase.bank_capital_purchased n
      → Holds b p holding
      → purchase_step d initial scale holding purchase ≡ ok after
      → After b p n holding purchase after
  unfolding purchase_step
  purchase_step-After initial scale b p n holding purchase after small spelled (cb, cp) h =
      let (period, ep, h1) =
        >>=_returns (next_period holding.previous_period purchase.period) _ h in
      let (bought, eb, h2) = >>=_returns (positive d purchase.bank_capital_purchased) _ h1 in
      let (_, enough, h3) =
        >>=_returns (throw_if (greater_than bought holding.bank_capital) purchase_exceeds) _ h2 in
      let bank = minus holding.bank_capital bought in
      let partner = plus holding.partner_capital bought in
      let (_, whole, h4) =
        >>=_returns
          (throw_if
            (not (
              equals (plus (divided_by bank initial) (divided_by partner initial))
                (of_units (pos 1))))
            ownership_total)
          _ h3 in
      let cn =
        unsigned_counts exact purchase.bank_capital_purchased bought n
          (positive_value d purchase.bank_capital_purchased bought eb) spelled in
      let (le, left, more) =
        moved b p n holding.bank_capital holding.partner_capital bought cb cp cn small
          (not_thrown _ purchase_exceeds enough) in
      let (same, later) = next_period_lem holding.previous_period purchase.period period ep in
      subst (After b p n holding purchase) (ok_injective h4) (le, (left, more), same, later, refl)

  -- After all purchases.
  abbrev Final :
      ℕ
      → ℕ
      → ℕ
      → Holding d
      → List MoutanaqissaPurchase
      → List MoutanaqissaPeriod × Holding d
      → Type 0
  Final b p total holding purchases (periods, last) =
      (total ≤ b)
      × Holds (b - total) (p + total) last
      × Follow holding.previous_period purchases periods

  final_step :
      (b p n rest total : ℕ) (last : Holding d)
      → n ≤ b
      → rest ≤ b - n
      → total ≡ n + rest
      → Holds (b - n - rest) (p + n + rest) last
      → (total ≤ b) × Holds (b - total) (p + total) last
  final_step b p n rest total last le more e (cb, cp) =
      let left : b - n - rest ≡ b - total = omega arith in
      let gained : p + n + rest ≡ p + total = omega arith in
      (
        omega arith,
        (
          subst (λ (k : ℕ). Counts last.bank_capital (pos k)) left cb,
          subst (λ (k : ℕ). Counts last.partner_capital (pos k)) gained cp,
        ),
      )

  still_small : (b p n : ℕ) → n ≤ b → b + p < 10 ^ precision → (b - n) + (p + n) < 10 ^ precision
  still_small b p n le small = omega arith

  purchase_steps-Final :
      (initial : Value) (scale b p total : ℕ) (holding : Holding d)
      (purchases : List MoutanaqissaPurchase) (after : List MoutanaqissaPeriod × Holding d)
      → b + p < 10 ^ precision
      → Bought decimals purchases total
      → Holds b p holding
      → purchase_steps d initial scale holding purchases ≡ ok after
      → Final b p total holding purchases after
  unfolding purchase_steps
  purchase_steps-Final initial scale b p total holding [] after small none_bought (cb, cp) h =
      let kept : b ≡ b - total = omega arith in
      let same : p ≡ p + total = omega arith in
      subst (Final b p total holding []) (ok_injective h) (
        omega arith,
        (
          subst (λ (k : ℕ). Counts holding.bank_capital (pos k)) kept cb,
          subst (λ (k : ℕ). Counts holding.partner_capital (pos k)) same cp,
        ),
        tt,
      )
  purchase_steps-Final initial scale b p total holding (purchase ∷ purchases) after small
        (n, rest, spelled, bought, e) holds h =
      let ((period, next), es, h1) =
        >>=_returns (purchase_step d initial scale holding purchase) _ h in
      let ((periods, end), er, h2) =
        >>=_returns (purchase_steps d initial scale next purchases) _ h1 in
      let (le, held, same, later, previous) =
        purchase_step-After initial scale b p n holding purchase (period, next) small spelled holds
          es in
      let (more, final, follow) =
        purchase_steps-Final initial scale (b - n) (p + n) rest next purchases (periods, end)
          (still_small b p n le small) bought held er in
      let (within, done) = final_step b p n rest total end le more e final in
      subst (Final b p total holding (purchase ∷ purchases)) (ok_injective h2)
        (within, done, (same, later, subst (λ q. Follow q purchases periods) previous follow))

  -- What a schedule that returns tells.
  pub record Scheduled (input : MoutanaqissaScheduleInput) (b p total : ℕ)
      (r : MoutanaqissaScheduleResult) : Type 0 where
    pub scale : ℕ
    pub last : Holding d
    pub scale_read : checked_output_scale input.output_scale ≡ ok scale
    pub bounded : total ≤ b
    pub holds : Holds (b - total) (p + total) last
    pub periods : Follow (pos 0) input.purchases r.periods
    pub final_bank : r.final_bank_capital ≡ formatted last.bank_capital scale
    pub final_partner : r.final_partner_capital ≡ formatted last.partner_capital scale
    pub acquired : (r.fully_acquired ≡ true) ↔ (total ≡ b)
    pub matured : input.maturity_reached ≡ true → r.fully_acquired ≡ true

  -- A schedule that returns has one period for each purchase, and the periods increase strictly from
  -- 1 on. Where the texts have no more decimals than a unit and the two capitals together no more
  -- digits than the precision, no digit is lost: the bank ends with its capital less all purchases,
  -- which are no more than it, the partner with its own and all purchases, and all is acquired exactly
  -- if the purchases are the whole capital of the bank, as they must be at maturity.
  pub build_moutanaqissa_schedule-Scheduled :
      (input : MoutanaqissaScheduleInput) (r : MoutanaqissaScheduleResult) (b p total : ℕ)
      → Unsigned decimals input.bank_capital b
      → Unsigned decimals input.partner_capital p
      → Bought decimals input.purchases total
      → b + p < 10 ^ precision
      → build_moutanaqissa_schedule d input ≡ ok r
      → Scheduled input b p total r
  unfolding build_moutanaqissa_schedule
  build_moutanaqissa_schedule-Scheduled input r b p total sb sp bought small h =
      let (scale, es, h1) = >>=_returns (checked_output_scale input.output_scale) _ h in
      let (bank, eb, h2) = >>=_returns (positive d input.bank_capital) _ h1 in
      let (partner, ep, h3) = >>=_returns (positive d input.partner_capital) _ h2 in
      let start : Holding d = record {
        bank_capital = bank;
        partner_capital = partner;
        previous_period = pos 0;
      } in
      let ((periods, last), steps, h4) =
        >>=_returns (purchase_steps d (plus bank partner) scale start input.purchases) _ h3 in
      let (_, whole, h5) =
        >>=_returns
          (throw_if (input.maturity_reached && not (d.is_zero last.bank_capital)) not_acquired) _
          h4 in
      let begins : Holds b p start = (
        unsigned_counts exact input.bank_capital bank b
            (positive_value d input.bank_capital bank eb) sb,
        unsigned_counts exact input.partner_capital partner p
            (positive_value d input.partner_capital partner ep) sp,
      ) in
      let (within, holds, follow) =
        purchase_steps-Final (plus bank partner) scale b p total start input.purchases
          (periods, last) small bought begins steps in
      subst (Scheduled input b p total) (ok_injective h5) (record {
        scale = scale;
        last = last;
        scale_read = es;
        bounded = within;
        holds = holds;
        periods = follow;
        final_bank = refl;
        final_partner = refl;
        acquired = zero_left b total _ within (exact.is_zero_lem holds.0);
        matured = must (not_thrown _ not_acquired whole);
      })
