-- ===== src/Risk/Stress.antt =====
-- The amounts of a stress scenario.
use pms_backend.Base.{
  ℕ, ◌≤◌, ◌≡◌, refl, sym, subst, Bool, true, false, not, ◌||◌, List, [], ◌∷◌, length, arith, ltb,
  ◌==◌,
}
use pms_backend.Base.Int.{ℤ, pos, magnitude, negate, ltb_ℤ, ◌+ℤ◌, ◌*ℤ◌}
use pms_backend.Fault.{
  ok, throw_if, >>=_returns, ok_injective, stress_negative, shock_count, stress_bucket,
  stressed_negative,
}
use pms_backend.Number.{Number, int, non_integer}
use pms_backend.Text.{Text, includes}
use pms_backend.Money.{Money, apply_sign, parse, from_minor_units, add}
use pms_backend.Money.Amounts.{
  InUnits, parse-InUnits, add-InUnits, parse_printed, add_units, not_thrown, made_InUnits,
}
use pms_backend.Risk.{
  round_half_up, StressShock, StressResult, is_bucket, shock_points, impact_units, stress_one,
  stress_all, execute_stress_scenario,
}
use pms_backend.Risk.Rounding.{IsNearest, round_half_up-IsNearest}

-- The impact is the exact one rounded to the nearest unit, halves away from zero, on its side of 0.
abbrev pub IsImpact : ℤ → ℤ → ℤ → Type 0
IsImpact base points impact =
    IsNearest (magnitude (base *ℤ points)) 10000 (magnitude impact)
    × (ltb_ℤ (base *ℤ points) (pos 0) ≡ true → ltb_ℤ (pos 0) impact ≡ false)
    × (ltb_ℤ (base *ℤ points) (pos 0) ≡ false → ltb_ℤ impact (pos 0) ≡ false)

signed_impact :
    (m q : ℕ) (negative : Bool)
    → IsNearest m 10000 q
    → IsNearest m 10000 (magnitude (apply_sign negative q))
      × (negative ≡ true → ltb_ℤ (pos 0) (apply_sign negative q) ≡ false)
      × (negative ≡ false → ltb_ℤ (apply_sign negative q) (pos 0) ≡ false)
unfolding apply_sign negate
signed_impact m q negative h = ground arith

impact_units_lem : (base points : ℤ) → IsImpact base points (impact_units base points)
unfolding impact_units
impact_units_lem base points =
    let numerator = base *ℤ points in
    signed_impact (magnitude numerator) (round_half_up (magnitude numerator) 10000)
      (ltb_ℤ numerator (pos 0)) (round_half_up-IsNearest (magnitude numerator) 10000 (omega arith))

-- One result answers one shock.
abbrev pub Answers : Money → Text → Number → StressShock → StressResult → Type 0
Answers base c n shock r =
    (impact : Money) × (stressed : Money) × (r.bucket ≡ shock.bucket)
    × (shock.basis_points ≡ int r.basis_points)
    × (magnitude r.basis_points ≤ 10000)
    × (parse r.impact_amount c n ≡ ok impact)
    × (parse r.stressed_amount c n ≡ ok stressed)
    × IsImpact base.minor_units r.basis_points impact.minor_units
    × (stressed.minor_units ≡ base.minor_units +ℤ impact.minor_units)
    × (ltb_ℤ stressed.minor_units (pos 0) ≡ false)

abbrev pub AnswersAll : Money → Text → Number → List StressShock → List StressResult → Type 0
AnswersAll base c n [] [] = Unit {0}
AnswersAll base c n [] (r ∷ rs) = ⊥
AnswersAll base c n (s ∷ ss) [] = ⊥
AnswersAll base c n (s ∷ ss) (r ∷ rs) = Answers base c n s r × AnswersAll base c n ss rs

pub points_read : (b : Number) (z : ℤ) → shock_points b ≡ ok z → (b ≡ int z) × (magnitude z ≤ 10000)
unfolding shock_points
points_read (int w) z h = ground arith
points_read non_integer z h = cc

stress_one-Answers :
    (base : Money) (c : Text) (n : Number) (shock : StressShock) (r : StressResult)
    → InUnits c n base
    → stress_one base c n shock ≡ ok r
    → Answers base c n shock r
unfolding stress_one
stress_one-Answers base c n shock r known h =
    let (points, sp, h1) = >>=_returns (shock_points shock.basis_points) _ h in
    let (impact, fi, h2) =
      >>=_returns (from_minor_units (impact_units base.minor_units points) c n) _ h1 in
    let (stressed, ad, h3) = >>=_returns (add base impact) _ h2 in
    let (_, ng, h4) =
      >>=_returns (throw_if (ltb_ℤ stressed.minor_units (pos 0)) stressed_negative) _ h3 in
    let (eb, small) = points_read shock.basis_points points sp in
    let (iu, units) =
      made_InUnits (impact_units base.minor_units points) c n impact base known fi in
    subst (Answers base c n shock) (ok_injective h4) (
      impact,
      stressed,
      refl,
      eb,
      small,
      parse_printed c n impact iu,
      parse_printed c n stressed (add-InUnits c n base impact stressed ad known),
      subst (IsImpact base.minor_units points) (sym units)
          (impact_units_lem base.minor_units points),
      add_units base impact stressed ad,
      not_thrown (ltb_ℤ stressed.minor_units (pos 0)) stressed_negative ng,
    )

stress_all-AnswersAll :
    (base : Money) (c : Text) (n : Number) (seen : List Text) (shocks : List StressShock)
    (rs : List StressResult)
    → InUnits c n base
    → stress_all base c n seen shocks ≡ ok rs
    → AnswersAll base c n shocks rs
unfolding stress_all
stress_all-AnswersAll base c n seen [] rs known h =
    subst (AnswersAll base c n []) (ok_injective h) tt
stress_all-AnswersAll base c n seen (s ∷ ss) rs known h =
    let (_, a, h1) =
      >>=_returns (throw_if (not (is_bucket s.bucket) || includes seen s.bucket) stress_bucket) _
        h in
    let (r, one, h2) = >>=_returns (stress_one base c n s) _ h1 in
    let (rest, all, h3) = >>=_returns (stress_all base c n (s.bucket ∷ seen) ss) _ h2 in
    subst (AnswersAll base c n (s ∷ ss)) (ok_injective h3) (
      stress_one-Answers base c n s r known one,
      stress_all-AnswersAll base c n (s.bucket ∷ seen) ss rest known all,
    )

-- A scenario answers each shock in order: the impact is the exact share of the base amount rounded to
-- the nearest unit on its side of zero, the stressed amount is the base amount plus the impact and not
-- negative, and both prints read back.
pub execute_stress_scenario_sound :
    (base_amount c : Text) (n : Number) (shocks : List StressShock) (rs : List StressResult)
    → execute_stress_scenario base_amount c n shocks ≡ ok rs
    → (base : Money) × (parse base_amount c n ≡ ok base)
      × (ltb_ℤ base.minor_units (pos 0) ≡ false)
      × AnswersAll base c n shocks rs
unfolding execute_stress_scenario
execute_stress_scenario_sound base_amount c n shocks rs h =
    let (base, pb, h1) = >>=_returns (parse base_amount c n) _ h in
    let (_, ng, h2) =
      >>=_returns (throw_if (ltb_ℤ base.minor_units (pos 0)) stress_negative) _ h1 in
    let (_, _, h3) =
      >>=_returns (throw_if (length shocks == 0 || ltb 100 (length shocks)) shock_count) _ h2 in
    (
      base,
      pb,
      not_thrown (ltb_ℤ base.minor_units (pos 0)) stress_negative ng,
      stress_all-AnswersAll base c n [] shocks rs (parse-InUnits base_amount c n base pb) h3,
    )
