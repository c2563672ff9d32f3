-- ===== src/Engine/Distributable/Waterfall.antt =====
-- The waterfall of `calculateDistributablePoolProfit` conserves the gross result.
use pms_backend.Base.{
  ℕ, ◌+◌, ◌*◌, ◌^◌, ◌<◌, ◌≤◌, ◌≡◌, ◌⊎◌, inl, inr, refl, ap, ◌∙◌, subst, true, arith, Bool-cases,
}
use pms_backend.Base.Int.{ℤ, pos, magnitude, ◌+ℤ◌, ◌-ℤ◌, ◌≤ℤ◌, int_laws}
use pms_backend.Fault.{
  Fault, ok, err, throw_if, >>=_returns, ok_injective, Result-cases, gross_negative,
  purification_exceeds, allocations_exceed, engine_negative,
}
use pms_backend.Text.{Text}
use pms_backend.Loss.{is_zero}
use pms_backend.Money.Amounts.{not_thrown}
use pms_backend.Engine.{Decimals, signed}
use pms_backend.Engine.Exact.{ExactSums, Signed, signed_counts, signed_value}
use pms_backend.Engine.Distributable.{
  DistributablePoolProfitInput, DistributablePoolProfitResult, Amounts, gross_of, net_of,
  investor_of, conserved_of, partial_rate, distributed, waterfall, read_amounts,
  non_negative_amount, positive_amount,
}

-- The units that the texts of an input spell.
pub record Numbers : Type 0 where
  pub revenue : ℤ
  pub charges : ℤ
  pub losses : ℤ
  pub purification : ℤ
  pub adjustments : ℤ
  pub bank_economic : ℤ
  pub moudarib : ℤ
  pub per : ℤ
  pub irr : ℤ

abbrev pub gross_number : Numbers → ℤ
gross_number n = n.revenue +ℤ n.adjustments -ℤ n.charges -ℤ n.losses

abbrev pub net_number : Numbers → ℤ
net_number n = gross_number n -ℤ n.purification

abbrev pub investor_number : Numbers → ℤ
investor_number n = net_number n -ℤ (n.bank_economic +ℤ n.moudarib +ℤ n.per +ℤ n.irr)

-- The digits that a computation on the numbers needs at most.
abbrev pub extent : Numbers → ℕ
extent n =
    magnitude n.revenue
    + magnitude n.adjustments
    + magnitude n.charges
    + magnitude n.losses
    + magnitude n.purification
    + magnitude n.bank_economic
    + magnitude n.moudarib
    + magnitude n.per
    + magnitude n.irr

pub record Spelled (decimals : ℕ) (input : DistributablePoolProfitInput) (n : Numbers)
    : Type 0 where
  pub revenue : Signed decimals input.revenue n.revenue
  pub charges : Signed decimals input.approved_charges n.charges
  pub losses : Signed decimals input.losses n.losses
  pub purification : Signed decimals input.non_compliant_income n.purification
  pub adjustments : Signed decimals input.adjustments n.adjustments
  pub bank_economic : Signed decimals input.bank_economic_share n.bank_economic
  pub moudarib : Signed decimals input.moudarib_remuneration n.moudarib
  pub per : Signed decimals input.per_allocation n.per
  pub irr : Signed decimals input.irr_allocation n.irr

-- No part of the result is below 0.
pub record PartsBounded (n : Numbers) : Type 0 where
  pub bank_economic : pos 0 ≤ℤ n.bank_economic
  pub moudarib : pos 0 ≤ℤ n.moudarib
  pub per : pos 0 ≤ℤ n.per
  pub irr : pos 0 ≤ℤ n.irr
  pub purification : pos 0 ≤ℤ n.purification
  pub charges : pos 0 ≤ℤ n.charges
  pub losses : pos 0 ≤ℤ n.losses

magnitude-plus : (a b : ℤ) → magnitude (a +ℤ b) ≤ magnitude a + magnitude b
unfolding ◌+ℤ◌
magnitude-plus a b = ground arith

magnitude-minus : (a b : ℤ) → magnitude (a -ℤ b) ≤ magnitude a + magnitude b
unfolding ◌-ℤ◌
magnitude-minus a b = ground arith

nothing_left :
    (g p b m e i : ℤ) → g -ℤ (b +ℤ m +ℤ (g -ℤ p -ℤ (b +ℤ m +ℤ e +ℤ i)) +ℤ e +ℤ i +ℤ p) ≡ pos 0
nothing_left g p b m e i = omega int_laws

parts : (g p b m e i : ℤ) → b +ℤ m +ℤ (g -ℤ p -ℤ (b +ℤ m +ℤ e +ℤ i)) +ℤ e +ℤ i +ℤ p ≡ g
parts g p b m e i = omega int_laws

module _ (d : Decimals) {decimals precision : ℕ} (exact : ExactSums d decimals precision) where
  open d use {Value, plus, minus, is_negative, formatted}
  open exact use {Counts}

  -- A value that counts a number of at most a magnitude.
  abbrev Within : Value → ℤ → ℕ → Type 0
  Within v n k = Counts v n × (magnitude n ≤ k)

  plus-Within :
      (v w : Value) (m n : ℤ) (j k : ℕ)
      → Within v m j
      → Within w n k
      → j + k < 10 ^ precision
      → Within (plus v w) (m +ℤ n) (j + k)
  plus-Within v w m n j k (cv, lv) (cw, lw) small =
      let le = magnitude-plus m n in
      (exact.plus_counts cv cw (omega (arith, le, lv, lw, small)), omega (arith, le, lv, lw))

  minus-Within :
      (v w : Value) (m n : ℤ) (j k : ℕ)
      → Within v m j
      → Within w n k
      → j + k < 10 ^ precision
      → Within (minus v w) (m -ℤ n) (j + k)
  minus-Within v w m n j k (cv, lv) (cw, lw) small =
      let le = magnitude-minus m n in
      (exact.minus_counts cv cw (omega (arith, le, lv, lw, small)), omega (arith, le, lv, lw))

  -- The amounts count the numbers.
  pub record Counted (a : Amounts d) (n : Numbers) : Type 0 where
    pub revenue : Counts a.revenue n.revenue
    pub charges : Counts a.charges n.charges
    pub losses : Counts a.losses n.losses
    pub purification : Counts a.purification n.purification
    pub adjustments : Counts a.adjustments n.adjustments
    pub bank_economic : Counts a.bank_economic n.bank_economic
    pub moudarib : Counts a.moudarib n.moudarib
    pub per : Counts a.per n.per
    pub irr : Counts a.irr n.irr

  module _ (a : Amounts d) (n : Numbers) (c : Counted a n)
      (small : 3 * extent n < 10 ^ precision) where
    gross_of-Within :
        Within
          (gross_of d a)
          (gross_number n)
          (magnitude n.revenue + magnitude n.adjustments + magnitude n.charges + magnitude n.losses)
    unfolding gross_of
    gross_of-Within =
        minus-Within _ _ _ _ _ _
          (minus-Within _ _ _ _ _ _
            (plus-Within _ _ _ _ _ _ (c.revenue, omega arith) (c.adjustments, omega arith)
              (omega (arith, small)))
            (c.charges, omega arith) (omega (arith, small)))
          (c.losses, omega arith) (omega (arith, small))

    net_of-Within : Within (net_of d a) (net_number n) (
        magnitude n.revenue
        + magnitude n.adjustments
        + magnitude n.charges
        + magnitude n.losses
        + magnitude n.purification)
    unfolding net_of
    net_of-Within =
        minus-Within _ _ _ _ _ _ gross_of-Within (c.purification, omega arith)
          (omega (arith, small))

    bank_total-Within :
        Within
          (plus a.bank_economic a.moudarib)
          (n.bank_economic +ℤ n.moudarib)
          (magnitude n.bank_economic + magnitude n.moudarib)
    bank_total-Within =
        plus-Within _ _ _ _ _ _ (c.bank_economic, omega arith) (c.moudarib, omega arith)
          (omega (arith, small))

    allocations-Within :
        Within
          (plus (plus (plus a.bank_economic a.moudarib) a.per) a.irr)
          (n.bank_economic +ℤ n.moudarib +ℤ n.per +ℤ n.irr)
          (magnitude n.bank_economic + magnitude n.moudarib + magnitude n.per + magnitude n.irr)
    allocations-Within =
        plus-Within _ _ _ _ _ _
          (plus-Within _ _ _ _ _ _ bank_total-Within (c.per, omega arith) (omega (arith, small)))
          (c.irr, omega arith) (omega (arith, small))

    investor_of-Within : Within (investor_of d a) (investor_number n) (extent n)
    unfolding investor_of
    investor_of-Within =
        let (counts, low) =
          minus-Within _ _ _ _ _ _ net_of-Within allocations-Within (omega (arith, small)) in
        (counts, omega (arith, low))

    conserved_of-Within :
        Within
          (conserved_of d a)
          (n.bank_economic +ℤ n.moudarib +ℤ investor_number n +ℤ n.per +ℤ n.irr +ℤ n.purification)
          (magnitude n.bank_economic
            + magnitude n.moudarib
            + extent n
            + magnitude n.per
            + magnitude n.irr
            + magnitude n.purification)
    unfolding conserved_of
    conserved_of-Within =
        plus-Within _ _ _ _ _ _
          (plus-Within _ _ _ _ _ _
            (plus-Within _ _ _ _ _ _
              (plus-Within _ _ _ _ _ _
                (plus-Within _ _ _ _ _ _ (c.bank_economic, omega arith) (c.moudarib, omega arith)
                  (omega (arith, small)))
                investor_of-Within (omega (arith, small)))
              (c.per, omega arith) (omega (arith, small)))
            (c.irr, omega arith) (omega (arith, small)))
          (c.purification, omega arith) (omega (arith, small))

    -- The check of the conservation never fails.
    difference_zero : d.is_zero (minus (gross_of d a) (conserved_of d a)) ≡ true
    difference_zero =
        let (counts, _) =
          minus-Within _ _ _ _ _ _ gross_of-Within conserved_of-Within (omega (arith, small)) in
        exact.is_zero_lem counts
        ∙ ap is_zero
            (nothing_left (gross_number n) n.purification n.bank_economic n.moudarib n.per n.irr)

  -- A text prints a value that counts a number.
  abbrev pub Prints : ℕ → Text → ℤ → Type 0
  Prints scale text m = (v : Value) × (text ≡ formatted v scale) × Counts v m

  -- What a waterfall that returns has shared out.
  pub record Shared (scale : ℕ) (n : Numbers) (r : DistributablePoolProfitResult) : Type 0 where
    pub gross : Prints scale r.gross_result (gross_number n)
    pub net : Prints scale r.net_distributable_profit (net_number n)
    pub investor : Prints scale r.investor_share (investor_number n)
    pub bank_total : Prints scale r.bank_total_share (n.bank_economic +ℤ n.moudarib)
    pub per : Prints scale r.per_allocation n.per
    pub irr : Prints scale r.irr_allocation n.irr
    pub purified : Prints scale r.purified_amount n.purification
    pub conserved :
        n.bank_economic +ℤ n.moudarib +ℤ investor_number n +ℤ n.per +ℤ n.irr +ℤ n.purification
        ≡ gross_number n
    pub parts_bounded : PartsBounded n
    pub gross_bounded : pos 0 ≤ℤ gross_number n
    pub net_bounded : pos 0 ≤ℤ net_number n
    pub investor_bounded : pos 0 ≤ℤ investor_number n

  -- Why a waterfall is refused.
  pub data Refused (input : DistributablePoolProfitInput) (a : Amounts d) (n : Numbers)
      : Fault → Type 0 where
    gross : gross_number n ≤ℤ pos 0 → Refused input a n gross_negative
    purification : net_number n ≤ℤ pos 0 → Refused input a n purification_exceeds
    allocations : investor_number n ≤ℤ pos 0 → Refused input a n allocations_exceed
    backing :
        (f : Fault)
        → partial_rate d (gross_of d a) input.partial_backing_base ≡ err f
        → Refused input a n f

  waterfall-Shared :
      (input : DistributablePoolProfitInput) (scale : ℕ) (a : Amounts d) (n : Numbers)
      → Counted a n
      → PartsBounded n
      → 3 * extent n < 10 ^ precision
      → ((r : DistributablePoolProfitResult) × (waterfall d input scale a ≡ ok r)
          × Shared scale n r)
        ⊎ ((f : Fault) × (waterfall d input scale a ≡ err f) × Refused input a n f)
  unfolding waterfall distributed
  waterfall-Shared input scale a n c bounded small =
      let (cg, _) = gross_of-Within a n c small in
      let (cn, _) = net_of-Within a n c small in
      let (ci, _) = investor_of-Within a n c small in
      let zero = difference_zero a n c small in
      elim (Bool-cases (is_negative (gross_of d a))) [
        | inl negative ↦
            inr (gross_negative, rw negative refl, gross (exact.negative_lem cg negative))
        | inr g ↦ elim (Bool-cases (is_negative (net_of d a))) [
          | inl negative ↦ inr (
            purification_exceeds,
            rw (g, negative) refl,
            purification (exact.negative_lem cn negative),
          )
          | inr m ↦ elim (Bool-cases (is_negative (investor_of d a))) [
            | inl negative ↦ inr (
              allocations_exceed,
              rw (g, m, negative) refl,
              allocations (exact.negative_lem ci negative),
            )
            | inr i ↦
                elim (Result-cases (partial_rate d (gross_of d a) input.partial_backing_base)) [
                  | inr (f, e) ↦ inr (f, rw (g, m, i, zero, e) refl, backing f e)
                  | inl (rate, e) ↦ inl (
                    distributed d input.pool_id scale a rate,
                    rw (g, m, i, zero, e) refl,
                    record {
                      gross = (gross_of d a, refl, cg);
                      net = (net_of d a, refl, cn);
                      investor = (investor_of d a, refl, ci);
                      bank_total = (
                        plus a.bank_economic a.moudarib,
                        refl,
                        (bank_total-Within a n c small).0,
                      );
                      per = (a.per, refl, c.per);
                      irr = (a.irr, refl, c.irr);
                      purified = (a.purification, refl, c.purification);
                      conserved =
                          parts (gross_number n) n.purification n.bank_economic n.moudarib n.per
                            n.irr;
                      parts_bounded = bounded;
                      gross_bounded = exact.not_negative_lem cg g;
                      net_bounded = exact.not_negative_lem cn m;
                      investor_bounded = exact.not_negative_lem ci i;
                    },
                  )
                ]
          ]
        ]
      ]

  non_negative_counts :
      (t : Text) (v : Value) (m : ℤ)
      → non_negative_amount d t ≡ ok v
      → Signed decimals t m
      → Counts v m × (pos 0 ≤ℤ m)
  unfolding non_negative_amount
  non_negative_counts t v m h spelled =
      let (p, ep, h1) = >>=_returns (signed d t) _ h in
      let (_, checked, h2) = >>=_returns (throw_if (is_negative p) engine_negative) _ h1 in
      let counts = signed_counts exact t p m (signed_value d t p ep) spelled in
      (
        subst (λ w. Counts w m) (ok_injective h2) counts,
        exact.not_negative_lem counts (not_thrown _ engine_negative checked),
      )

  read_amounts-Counted :
      (input : DistributablePoolProfitInput) (a : Amounts d) (n : Numbers)
      → Spelled decimals input n
      → read_amounts d input ≡ ok a
      → Counted a n × PartsBounded n
  unfolding read_amounts
  read_amounts-Counted input a n s h =
      let (revenue, er, h1) = >>=_returns (signed d input.revenue) _ h in
      let (charges, ec, h2) = >>=_returns (non_negative_amount d input.approved_charges) _ h1 in
      let (losses, el, h3) = >>=_returns (non_negative_amount d input.losses) _ h2 in
      let (purified, ep, h4) =
        >>=_returns (non_negative_amount d input.non_compliant_income) _ h3 in
      let (adjustments, ea, h5) = >>=_returns (signed d input.adjustments) _ h4 in
      let (bank, eb, h6) = >>=_returns (non_negative_amount d input.bank_economic_share) _ h5 in
      let (moudarib, em, h7) =
        >>=_returns (non_negative_amount d input.moudarib_remuneration) _ h6 in
      let (per, es, h8) = >>=_returns (non_negative_amount d input.per_allocation) _ h7 in
      let (irr, ei, h9) = >>=_returns (non_negative_amount d input.irr_allocation) _ h8 in
      let (base, _, h10) = >>=_returns (positive_amount d input.pool_participation_base) _ h9 in
      let (cc_, lc) = non_negative_counts input.approved_charges charges n.charges ec s.charges in
      let (cl, ll) = non_negative_counts input.losses losses n.losses el s.losses in
      let (cp, lp) =
        non_negative_counts input.non_compliant_income purified n.purification ep s.purification in
      let (cb, lb) =
        non_negative_counts input.bank_economic_share bank n.bank_economic eb s.bank_economic in
      let (cm, lm) =
        non_negative_counts input.moudarib_remuneration moudarib n.moudarib em s.moudarib in
      let (ce, le) = non_negative_counts input.per_allocation per n.per es s.per in
      let (ci, li) = non_negative_counts input.irr_allocation irr n.irr ei s.irr in
      subst (λ (x : Amounts d). Counted x n × PartsBounded n) (ok_injective h10)
        (
          record {
            revenue =
                signed_counts exact input.revenue revenue n.revenue
                  (signed_value d input.revenue revenue er) s.revenue;
            charges = cc_;
            losses = cl;
            purification = cp;
            adjustments =
                signed_counts exact input.adjustments adjustments n.adjustments
                  (signed_value d input.adjustments adjustments ea) s.adjustments;
            bank_economic = cb;
            moudarib = cm;
            per = ce;
            irr = ci;
          },
          record {
            bank_economic = lb;
            moudarib = lm;
            per = le;
            irr = li;
            purification = lp;
            charges = lc;
            losses = ll;
          },
        )

  -- Where the texts of an input have no more decimals than a unit, and the sum of its amounts three
  -- times over no more digits than the precision, a waterfall over the amounts that are read shares out
  -- the whole gross result between the bank, the investors, the two reserves and the purification, with
  -- no part below 0; or it is refused for a gross, net or investors' share that is not above 0 or a
  -- partial base that is not positive, and never for the conservation.
  pub waterfall_lem :
      (input : DistributablePoolProfitInput) (scale : ℕ) (a : Amounts d) (n : Numbers)
      → Spelled decimals input n
      → 3 * extent n < 10 ^ precision
      → read_amounts d input ≡ ok a
      → ((r : DistributablePoolProfitResult) × (waterfall d input scale a ≡ ok r)
          × Shared scale n r)
        ⊎ ((f : Fault) × (waterfall d input scale a ≡ err f) × Refused input a n f)
  waterfall_lem input scale a n spelled small read =
      let (counted, bounded) = read_amounts-Counted input a n spelled read in
      waterfall-Shared input scale a n counted bounded small
