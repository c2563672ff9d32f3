-- ===== src/Reserve/Governed.antt =====
-- What `authorizeReserveMovement` lets through.
use pms_backend.Base.{
  ◌≡◌, refl, sym, ap, ap₂, subst, ◌∙◌, Bool, true, false, not, ◌||◌, if◌then◌else◌, arith, Option,
  none, some,
}
use pms_backend.Base.Int.{ℤ, pos, ◌+ℤ◌, ltb_ℤ, int_laws}
use pms_backend.Fault.{
  ok, throw_if, >>=_returns, ok_injective, opening_shares, movement_shares, shares_negative,
  minimum_above_maximum, approval_missing, pool_required,
}
use pms_backend.Number.{Number, is_more, is_same, is_less}
use pms_backend.Text.{Text, codes, is_blank}
use pms_backend.Money.{Money, parse, add, compare, from_minor_units}
use pms_backend.Journal.Balance.{parse_zero}
use pms_backend.Reserve.{
  calculate_reserve_movement, GovernedReserveMovementInput, GovernedReserveMovement, closing_shares,
  absolute, needs_approval, approval_absent, authorize_reserve_movement,
}
use pms_backend.Reserve.Movement.{calculate_reserve_movement_sound}
use pms_backend.Money.Amounts.{
  compare_equal_units, compare_not_less, not_thrown, add_units, InUnits, parse-InUnits, add-InUnits,
  parse_printed, compare-is_more, compare-is_less,
}

or_false : (b c : Bool) → (b || c) ≡ false → (b ≡ false) × (c ≡ false)
or_false b c h = ground arith

four_sum : (a b c d : ℤ) → (a +ℤ b) +ℤ (c +ℤ d) ≡ (a +ℤ c) +ℤ (b +ℤ d)
four_sum a b c d = omega int_laws

-- What the two closing shares satisfy.
abbrev pub SharesFit : GovernedReserveMovementInput → Money → Money → Money → Money → Type 0
SharesFit input opening movement i b =
    InUnits input.base.currency input.base.scale i
    × InUnits input.base.currency input.base.scale b
    × (i.minor_units +ℤ b.minor_units ≡ opening.minor_units +ℤ movement.minor_units)
    × (ltb_ℤ i.minor_units (pos 0) ≡ false)
    × (ltb_ℤ b.minor_units (pos 0) ≡ false)

closing_shares_sound :
    (input : GovernedReserveMovementInput) (opening movement i b : Money)
    → closing_shares input opening movement ≡ ok (i, b)
    → SharesFit input opening movement i b
unfolding closing_shares
closing_shares_sound input opening movement i b h =
    let c = input.base.currency in
    let n = input.base.scale in
    let (io, pio, h1) = >>=_returns (parse input.investor_opening_balance c n) _ h in
    let (bo, pbo, h2) = >>=_returns (parse input.bank_opening_balance c n) _ h1 in
    let (im, pim, h3) = >>=_returns (parse input.investor_movement_amount c n) _ h2 in
    let (bm, pbm, h4) = >>=_returns (parse input.bank_movement_amount c n) _ h3 in
    let (os, aos, h5) = >>=_returns (add io bo) _ h4 in
    let (s1, c1, h6) = >>=_returns (compare os opening) _ h5 in
    let (_, t1, h7) = >>=_returns (throw_if (not (is_same s1)) opening_shares) _ h6 in
    let (ms, ams, h8) = >>=_returns (add im bm) _ h7 in
    let (s2, c2, h9) = >>=_returns (compare ms movement) _ h8 in
    let (_, t2, h10) = >>=_returns (throw_if (not (is_same s2)) movement_shares) _ h9 in
    let (ic, aic, h11) = >>=_returns (add io im) _ h10 in
    let (bc, abc, h12) = >>=_returns (add bo bm) _ h11 in
    let (z, pz, h13) = >>=_returns (parse (codes "0") c n) _ h12 in
    let (s3, c3, h14) = >>=_returns (compare ic z) _ h13 in
    let (s4, c4, h15) = >>=_returns (compare bc z) _ h14 in
    let (_, t3, h16) = >>=_returns (throw_if (is_less s3 || is_less s4) shares_negative) _ h15 in
    let done = ok_injective h16 in
    let (n3, n4) =
      or_false (is_less s3) (is_less s4)
        (not_thrown (is_less s3 || is_less s4) shares_negative t3) in
    let zero = parse_zero c n pz in
    let total =
      ap₂ ◌+ℤ◌ (add_units io im ic aic) (add_units bo bm bc abc)
      ∙ four_sum io.minor_units im.minor_units bo.minor_units bm.minor_units
      ∙ ap₂ ◌+ℤ◌
          (sym (add_units io bo os aos) ∙ compare_equal_units os opening s1 opening_shares c1 t1)
          (sym (add_units im bm ms ams)
            ∙ compare_equal_units ms movement s2 movement_shares c2 t2) in
    subst (λ (x : Money × Money). SharesFit input opening movement x.0 x.1) done
      (
        add-InUnits c n io im ic aic (parse-InUnits input.investor_opening_balance c n io pio),
        add-InUnits c n bo bm bc abc (parse-InUnits input.bank_opening_balance c n bo pbo),
        total,
        ap (ltb_ℤ ic.minor_units) (sym zero) ∙ compare_not_less ic z s3 c3 n3,
        ap (ltb_ℤ bc.minor_units) (sym zero) ∙ compare_not_less bc z s4 c4 n4,
      )

from_units :
    (u : ℤ) (c : Text) (n : Number) (m : Money) → from_minor_units u c n ≡ ok m → m.minor_units ≡ u
unfolding from_minor_units
from_units u c n m h = ground arith

-- The three limits, and when one of them is passed.
abbrev pub NeedsApproval : GovernedReserveMovementInput → ℤ → ℤ → Bool → Type 0
NeedsApproval input movement closing required =
    let c = input.base.currency in
    let n = input.base.scale in
    (minimum : Money) × (maximum : Money) × (threshold : Money) × (parse input.minimum_balance c n
      ≡ ok minimum)
    × (parse input.maximum_balance c n ≡ ok maximum)
    × (parse input.approval_threshold c n ≡ ok threshold)
    × (ltb_ℤ maximum.minor_units minimum.minor_units ≡ false)
    × (required ≡ (
        ltb_ℤ threshold.minor_units (absolute movement)
        || ltb_ℤ closing minimum.minor_units
        || ltb_ℤ maximum.minor_units closing))

needs_approval_sound :
    (input : GovernedReserveMovementInput) (movement closing : Money) (required : Bool)
    → needs_approval input movement closing ≡ ok required
    → NeedsApproval input movement.minor_units closing.minor_units required
unfolding needs_approval
needs_approval_sound input movement closing required h =
    let c = input.base.currency in
    let n = input.base.scale in
    let (minimum, p1, h1) = >>=_returns (parse input.minimum_balance c n) _ h in
    let (maximum, p2, h2) = >>=_returns (parse input.maximum_balance c n) _ h1 in
    let (threshold, p3, h3) = >>=_returns (parse input.approval_threshold c n) _ h2 in
    let (s, cs, h4) = >>=_returns (compare minimum maximum) _ h3 in
    let (_, ts, h5) = >>=_returns (throw_if (is_more s) minimum_above_maximum) _ h4 in
    let (a, fa, h6) = >>=_returns (from_minor_units (absolute movement.minor_units) c n) _ h5 in
    let (s1, c1, h7) = >>=_returns (compare a threshold) _ h6 in
    let (s2, c2, h8) = >>=_returns (compare closing minimum) _ h7 in
    let (s3, c3, h9) = >>=_returns (compare closing maximum) _ h8 in
    let done = ok_injective h9 in
    (
      minimum,
      maximum,
      threshold,
      p1,
      p2,
      p3,
      sym (compare-is_more minimum maximum s cs) ∙ not_thrown (is_more s) minimum_above_maximum ts,
      sym done
          ∙ ap₂ ◌||◌
              (ap₂ ◌||◌
                (compare-is_more a threshold s1 c1
                  ∙ ap (ltb_ℤ threshold.minor_units)
                      (from_units (absolute movement.minor_units) c n a fa))
                (compare-is_less closing minimum s2 c2))
              (compare-is_more closing maximum s3 c3),
    )

no_approval_gap :
    (required : Bool) (id : Option Text)
    → throw_if (if required then approval_absent id else false) approval_missing ≡ ok tt
    → required ≡ true
    → (a : Text) × (id ≡ some a) × (is_blank a ≡ false)
no_approval_gap false id h k = cc
no_approval_gap true none h k = cc
no_approval_gap true (some a) h k = (a, refl, not_thrown (is_blank a) approval_missing h)

-- The balances of an authorized movement, as amounts.
abbrev pub Authorized : GovernedReserveMovementInput → GovernedReserveMovement → Type 0
Authorized input r =
    let c = input.base.currency in
    let n = input.base.scale in
    (movement : Money) × (investor : Money) × (bank : Money) × (closing : Money) × (parse
        input.base.movement_amount c n
      ≡ ok movement)
    × (parse r.investor_closing_balance c n ≡ ok investor)
    × (parse r.bank_closing_balance c n ≡ ok bank)
    × (parse r.base.closing_balance c n ≡ ok closing)
    × (investor.minor_units +ℤ bank.minor_units ≡ closing.minor_units)
    × (ltb_ℤ investor.minor_units (pos 0) ≡ false)
    × (ltb_ℤ bank.minor_units (pos 0) ≡ false)
    × NeedsApproval input movement.minor_units closing.minor_units r.approval_required
    × (r.approval_required ≡ true → (id : Text) × (r.approval_id ≡ some id) × (is_blank id ≡ false))

-- An authorized movement splits the closing balance into the closing shares of the investors and of
-- the bank, neither of them negative, and it carries a non-blank approval wherever the movement is
-- above the threshold or the closing balance is outside the bounds.
pub authorize_reserve_movement_sound :
    (input : GovernedReserveMovementInput) (r : GovernedReserveMovement)
    → authorize_reserve_movement input ≡ ok r
    → Authorized input r
unfolding authorize_reserve_movement
authorize_reserve_movement_sound input r h =
    let c = input.base.currency in
    let n = input.base.scale in
    let (_, _, h1) = >>=_returns (throw_if (is_blank input.pool_id) pool_required) _ h in
    let (base, cb, h2) = >>=_returns (calculate_reserve_movement input.base) _ h1 in
    let (opening, po, h3) = >>=_returns (parse input.base.opening_balance c n) _ h2 in
    let (movement, pm, h4) = >>=_returns (parse input.base.movement_amount c n) _ h3 in
    let (shares, sh, h5) = >>=_returns (closing_shares input opening movement) _ h4 in
    let (closing, pc, h6) = >>=_returns (parse base.closing_balance c n) _ h5 in
    let (required, na, h7) = >>=_returns (needs_approval input movement closing) _ h6 in
    let (_, ap_ok, h8) =
      >>=_returns
        (throw_if (if required then approval_absent input.approval_id else false) approval_missing)
        _ h7 in
    let done = ok_injective h8 in
    let (o', m', c', po', pm', pc', sum, _, _, _) =
      calculate_reserve_movement_sound input.base base cb in
    let fits = closing_shares_sound input opening movement shares.0 shares.1 sh in
    let (ui, ub, total, ni, nb) = fits in
    let same_opening = ap (λ (x : Money). x.minor_units) (ok_injective (sym po ∙ po')) in
    let same_movement = ap (λ (x : Money). x.minor_units) (ok_injective (sym pm ∙ pm')) in
    let same_closing = ap (λ (x : Money). x.minor_units) (ok_injective (sym pc' ∙ pc)) in
    subst (Authorized input) done (
      movement,
      shares.0,
      shares.1,
      closing,
      pm,
      parse_printed c n shares.0 ui,
      parse_printed c n shares.1 ub,
      pc,
      total ∙ ap₂ ◌+ℤ◌ same_opening same_movement ∙ sym sum ∙ same_closing,
      ni,
      nb,
      needs_approval_sound input movement closing required na,
      no_approval_gap required input.approval_id ap_ok,
    )
