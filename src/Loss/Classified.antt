-- ===== src/Loss/Classified.antt =====
-- `classifyLossAbsorption` as its callers see it: the amounts as texts.
use pms_backend.Base.{ℕ, ◌+◌, ◌≡◌, ap, sym, ◌∙◌, ◌<◌, ◌↔◌, arith, ◌==◌}
use pms_backend.Base.Int.{pos, ◌-ℤ◌, int_laws}
use pms_backend.Fault.{ok, throw_if, loss_scale, loss_not_positive, >>=_returns}
use pms_backend.Number.{integer_within}
use pms_backend.Decimal.Scan.{print_matched}
use pms_backend.Loss.{
  LossCause, Absorption, LossAbsorptionInput, LossAbsorptionResult, units, decimal, result, printed,
  absorb, classify_loss_absorption, default_scale,
}
use pms_backend.Loss.Cascade.{total, total-absorb}

-- A number of units is read back from its print.
pub units-decimal : (n scale : ℕ) → units (decimal n scale) scale ≡ ok n
unfolding units decimal
units-decimal n scale = let (i, f, matched, short, exact) = print_matched n scale in ground arith

difference_zero :
    (loss i p c b u : ℕ)
    → i + p + c + b + u ≡ loss
    → pos loss -ℤ pos i -ℤ pos p -ℤ pos c -ℤ pos b -ℤ pos u ≡ pos 0
difference_zero loss i p c b u h = omega int_laws

-- Where the parts sum to the loss, `result` does not throw.
result_lem :
    (cause : LossCause) (loss : ℕ) (a : Absorption) (scale : ℕ)
    → total a ≡ loss
    → result cause loss a scale ≡ ok (printed cause a scale)
unfolding result
result_lem cause loss a scale h = rw (
  difference_zero loss a.irr_units a.per_units a.capital_units a.bank_units a.unabsorbed h,
  result,
)

-- The texts that are read, and the amounts that they spell at the scale.
pub record Reads (input : LossAbsorptionInput) (s loss i p c : ℕ) : Type 0 where
  pub scale : integer_within 12 loss_scale (default_scale input.currency_scale) ≡ ok s
  pub loss_amount : units input.loss_amount s ≡ ok loss
  pub loss_positive : 0 < loss
  pub irr : units input.available_irr s ≡ ok i
  pub per : units input.available_per s ≡ ok p
  pub capital : units input.available_depositor_capital s ≡ ok c

abbrev pub Classified : LossAbsorptionInput → LossAbsorptionResult → Type 0
Classified input r =
    (s : ℕ) × (loss : ℕ) × (i : ℕ) × (p : ℕ) × (c : ℕ) × Reads input s loss i p c
    × (r ≡ printed input.cause (absorb input.cause input.irr_policy loss i p c) s)

forward :
    (input : LossAbsorptionInput) (r : LossAbsorptionResult)
    → classify_loss_absorption input ≡ ok r
    → Classified input r
unfolding classify_loss_absorption
forward input r h =
    let (s, es, h1) =
      >>=_returns (integer_within 12 loss_scale (default_scale input.currency_scale)) _ h in
    let (loss, el, h2) = >>=_returns (units input.loss_amount s) _ h1 in
    let (_, et, h3) = >>=_returns (throw_if (loss == 0) loss_not_positive) _ h2 in
    let (i, ei, h4) = >>=_returns (units input.available_irr s) _ h3 in
    let (p, ep, h5) = >>=_returns (units input.available_per s) _ h4 in
    let (c, ec, h6) = >>=_returns (units input.available_depositor_capital s) _ h5 in
    let a = absorb input.cause input.irr_policy loss i p c in
    (
      s,
      loss,
      i,
      p,
      c,
      record {
        scale = es;
        loss_amount = el;
        loss_positive = ground arith;
        irr = ei;
        per = ep;
        capital = ec;
      },
      cc (
        h6,
        result_lem input.cause loss a s (total-absorb input.cause input.irr_policy loss i p c),
      ),
    )

backward :
    (input : LossAbsorptionInput) (r : LossAbsorptionResult)
    → Classified input r
    → classify_loss_absorption input ≡ ok r
unfolding classify_loss_absorption
backward input r (s, loss, i, p, c, reads, same) = ground (
  arith,
  reads.scale,
  reads.loss_amount,
  reads.loss_positive,
  reads.irr,
  reads.per,
  reads.capital,
  same,
  result_lem input.cause loss (absorb input.cause input.irr_policy loss i p c) s
      (total-absorb input.cause input.irr_policy loss i p c),
)

-- A result exists exactly for inputs that are read as amounts, with a positive loss; it is then
-- the print of the cascade.
pub classify_loss_absorption_iff :
    (input : LossAbsorptionInput) (r : LossAbsorptionResult)
    → (classify_loss_absorption input ≡ ok r) ↔ Classified input r
classify_loss_absorption_iff input r = (forward input r, backward input r)

-- The five amounts of a result, read back at the scale of the input, sum to the loss.
pub classify_loss_absorption-conserves :
    (input : LossAbsorptionInput) (r : LossAbsorptionResult)
    → classify_loss_absorption input ≡ ok r
    → (s : ℕ) × (a : Absorption) × (units r.irr_absorption s ≡ ok a.irr_units)
      × (units r.per_absorption s ≡ ok a.per_units)
      × (units r.depositor_capital_absorption s ≡ ok a.capital_units)
      × (units r.bank_absorption s ≡ ok a.bank_units)
      × (units r.unabsorbed_loss s ≡ ok a.unabsorbed)
      × (units input.loss_amount s ≡ ok (total a))
unfolding printed
classify_loss_absorption-conserves input r h =
    let (s, loss, i, p, c, reads, same) = (classify_loss_absorption_iff input r).0 h in
    let a = absorb input.cause input.irr_policy loss i p c in
    rw same (
      s,
      a,
      units-decimal a.irr_units s,
      units-decimal a.per_units s,
      units-decimal a.capital_units s,
      units-decimal a.bank_units s,
      units-decimal a.unabsorbed s,
      reads.loss_amount ∙ ap ok (sym (total-absorb input.cause input.irr_policy loss i p c)),
    )
