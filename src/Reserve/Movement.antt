-- ===== src/Reserve/Movement.antt =====
-- What `calculateReserveMovement` gives back.
use pms_backend.Base.{◌≡◌, sym, ap, ◌∙◌, false, arith}
use pms_backend.Base.Int.{ℤ, pos, ◌+ℤ◌, ltb_ℤ}
use pms_backend.Fault.{ok, throw_if, >>=_returns, ok_injective, reserve_negative}
use pms_backend.Number.{Sign, is_less}
use pms_backend.Text.{codes}
use pms_backend.Money.{Money, parse, add, compare}
use pms_backend.Journal.Balance.{parse_zero}
use pms_backend.Reserve.{
  ReserveMovementKind, fund, release, utilize, adjust, ReserveMovementInput, ReserveMovement,
  check_kind, calculate_reserve_movement,
}
use pms_backend.Money.Amounts.{
  compare_not_less, not_thrown, add_units, parse-InUnits, add-InUnits, parse_printed,
}

-- The sign that a kind of movement asks for.
abbrev pub SignFits : ReserveMovementKind → ℤ → Type 0
SignFits fund units = ltb_ℤ units (pos 0) ≡ false
SignFits release units = ltb_ℤ (pos 0) units ≡ false
SignFits utilize units = ltb_ℤ (pos 0) units ≡ false
SignFits adjust units = Unit {0}

sign_fits :
    (k : ReserveMovementKind) (m z : Money) (s : Sign)
    → compare m z ≡ ok s
    → z.minor_units ≡ pos 0
    → check_kind k s ≡ ok tt
    → SignFits k m.minor_units
unfolding compare check_kind
sign_fits fund m z s h e k = ground arith
sign_fits release m z s h e k = ground arith
sign_fits utilize m z s h e k = ground arith
sign_fits adjust m z s h e k = tt

-- A calculated movement closes at the opening balance plus the movement, printed so that it reads
-- back; the closing balance is not negative, and the movement has the sign that its kind asks for.
pub calculate_reserve_movement_sound :
    (input : ReserveMovementInput) (r : ReserveMovement)
    → calculate_reserve_movement input ≡ ok r
    → (opening : Money) × (movement : Money) × (closing : Money) × (parse input.opening_balance
          input.currency input.scale
        ≡ ok opening)
      × (parse input.movement_amount input.currency input.scale ≡ ok movement)
      × (parse r.closing_balance input.currency input.scale ≡ ok closing)
      × (closing.minor_units ≡ opening.minor_units +ℤ movement.minor_units)
      × (ltb_ℤ closing.minor_units (pos 0) ≡ false)
      × SignFits input.kind movement.minor_units
      × (r.input ≡ input)
unfolding calculate_reserve_movement
calculate_reserve_movement_sound input r h =
    let c = input.currency in
    let n = input.scale in
    let (opening, po, h1) = >>=_returns (parse input.opening_balance c n) _ h in
    let (movement, pm, h2) = >>=_returns (parse input.movement_amount c n) _ h1 in
    let (closing, ac, h3) = >>=_returns (add opening movement) _ h2 in
    let (zero, pz, h4) = >>=_returns (parse (codes "0") c n) _ h3 in
    let (s, cs, h5) = >>=_returns (compare closing zero) _ h4 in
    let (_, ns, h6) = >>=_returns (throw_if (is_less s) reserve_negative) _ h5 in
    let (t, mt, h7) = >>=_returns (compare movement zero) _ h6 in
    let (_, kt, h8) = >>=_returns (check_kind input.kind t) _ h7 in
    let done = ok_injective h8 in
    let z = parse_zero c n pz in
    let whole =
      add-InUnits c n opening movement closing ac
        (parse-InUnits input.opening_balance c n opening po) in
    (
      opening,
      movement,
      closing,
      po,
      pm,
      ap (λ (x : ReserveMovement). parse x.closing_balance c n) (sym done)
          ∙ parse_printed c n closing whole,
      add_units opening movement closing ac,
      ap (ltb_ℤ closing.minor_units) (sym z)
          ∙ compare_not_less closing zero s cs (not_thrown (is_less s) reserve_negative ns),
      sign_fits input.kind movement zero t mt z kt,
      ap (λ (x : ReserveMovement). x.input) (sym done),
    )
