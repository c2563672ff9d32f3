-- ===== src/Allocation/Quota.antt =====
-- Who gets the residual units: each entry one at most, by falling remainder, and none of those
-- whose part was exact.
use native.Mathlib.Decide.{dec_lt}
use native.Mathlib.Nat.{mod-eq_of_lt}
use pms_backend.Base.{
  ℕ, zero, suc, ◌+◌, ◌*◌, ◌%◌, ◌≤◌, ◌<◌, ◌≡◌, refl, ap, subst, List, [], ◌∷◌, arith, length, All,
  ◌==◌, if◌then◌else◌, ltb, take, drop,
}
use pms_backend.Allocation.{Share, Positioned, positions, pick, bump, distribute}
use pms_backend.Allocation.Loop.{length-bump}
use pms_backend.Allocation.Order.{count, keys, Falling, remainders}

-- The units and the remainder of the share at a position.
abbrev pub units_at : ℕ → List Share → ℕ
units_at i [] = 0
units_at zero (s ∷ ss) = s.units
units_at (suc i) (s ∷ ss) = units_at i ss

abbrev pub remainder_at : ℕ → List Share → ℕ
remainder_at i [] = 0
remainder_at zero (s ∷ ss) = s.remainder
remainder_at (suc i) (s ∷ ss) = remainder_at i ss

units_at-bump :
    (i p : ℕ) (ss : List Share)
    → i < length ss
    → units_at i (bump p ss) ≡ (if i == p then 1 else 0) + units_at i ss
unfolding bump
units_at-bump i p [] h = absurd (omega arith)
units_at-bump zero zero (s ∷ ss) h = ground arith
units_at-bump zero (suc p) (s ∷ ss) h = ground arith
units_at-bump (suc i) zero (s ∷ ss) h = ground arith
units_at-bump (suc i) (suc p) (s ∷ ss) h = ground (arith, units_at-bump i p ss (omega arith))

take-drop-pick :
    (r k : ℕ) (ps : List ℕ)
    → k < length ps
    → take (suc r) (drop k ps) ≡ pick ps k ∷ take r (drop (suc k) ps)
unfolding pick
take-drop-pick r k [] h = absurd (omega arith)
take-drop-pick r zero (p ∷ ps) h = refl
take-drop-pick r (suc k) (p ∷ ps) h = take-drop-pick r k ps (omega arith)

-- While the loop does not wrap around, a share gains what its position counts in the picks.
pub units_at-distribute :
    (r k i : ℕ) (ps : List ℕ) (ss : List Share)
    → k + r ≤ length ps
    → i < length ss
    → units_at i (distribute r k ps ss) ≡ units_at i ss + count i (take r (drop k ps))
unfolding distribute
units_at-distribute zero k i ps ss l h = omega arith
units_at-distribute (suc r) k i ps ss l h =
    let p = pick ps (k % length ps) in
    let here : k % length ps ≡ k = mod-eq_of_lt (omega arith) in
    omega (
      arith,
      units_at-distribute r (suc k) i ps (bump p ss) (omega arith)
          (omega (arith, length-bump p ss)),
      units_at-bump i p ss h,
      ap (count i) (take-drop-pick r k ps (omega arith)),
      ap (λ (q : ℕ). units_at i (bump (pick ps q) ss)) here,
      ap (λ (q : ℕ). (if i == pick ps q then 1 else 0) + 0) here,
    )

pub count-positions :
    (i k : ℕ) (ss : List Share)
    → count i (keys (positions k ss))
      ≡ (if ltb i k then 0 else if ltb i (k + length ss) then 1 else 0)
unfolding positions
count-positions i k [] = ground arith
count-positions i k (s ∷ ss) = ground (arith, count-positions i (suc k) ss)

module _ (R : ℕ → ℕ) where
  -- The positions carry the remainders that stand at them.
  abbrev pub Tagged : List Positioned → Type 0
  Tagged = All (λ p. p.1.remainder ≡ R p.0)

  Falling-bounds :
      (b r j : ℕ) (ps : List Positioned)
      → Falling b ps
      → Tagged ps
      → 0 < count j (drop r (keys ps))
      → R j ≤ b
  Falling-bounds b zero j [] f t h = absurd (omega arith)
  Falling-bounds b (suc r) j [] f t h = absurd (omega arith)
  Falling-bounds b zero j (p ∷ ps) (l, f) (e, t) h =
      ground (arith, Falling-bounds p.1.remainder zero j ps f t)
  Falling-bounds b (suc r) j (p ∷ ps) (l, f) (e, t) h =
      omega (arith, Falling-bounds p.1.remainder r j ps f t h)

  -- A position in front has no smaller remainder than one behind.
  pub Falling-front :
      (b r i j : ℕ) (ps : List Positioned)
      → Falling b ps
      → Tagged ps
      → 0 < count i (take r (keys ps))
      → 0 < count j (drop r (keys ps))
      → R j ≤ R i
  Falling-front b zero i j ps f t h k = absurd (omega arith)
  Falling-front b (suc r) i j [] f t h k = absurd (omega arith)
  Falling-front b (suc r) i j (p ∷ ps) (l, f) (e, t) h k =
      ground
        (arith, Falling-front p.1.remainder r i j ps f t, Falling-bounds p.1.remainder r j ps f t k)

remainders_of_zero : (ps : List Positioned) → Falling 0 ps → remainders ps ≡ 0
remainders_of_zero [] f = refl
remainders_of_zero (p ∷ ps) (l, f) =
    let z : p.1.remainder ≡ 0 = omega arith in
    omega (arith, z, remainders_of_zero ps (subst (λ b. Falling b ps) z f))

-- If the remainders, each below `w`, sum to `w * r`, the first `r` of them are positive.
pub Falling-positive :
    (R : ℕ → ℕ) (w b r i : ℕ) (ps : List Positioned)
    → Falling b ps
    → Tagged R ps
    → All (λ p. p.1.remainder < w) ps
    → w * r ≤ remainders ps
    → 0 < count i (take r (keys ps))
    → 0 < R i
Falling-positive R w b zero i ps f t a h k = absurd (omega arith)
Falling-positive R w b (suc r) i [] f t a h k = absurd (omega arith)
Falling-positive R w b (suc r) i (p ∷ ps) (l, f) (e, t) (q, a) h k = elim (dec_lt 0 p.1.remainder) [
  | no z ↦
      let zero_rem : p.1.remainder ≡ 0 = omega arith in
      absurd (omega (arith, zero_rem, remainders_of_zero ps (subst (λ b. Falling b ps) zero_rem f)))
  | yes z ↦ ground (arith, Falling-positive R w p.1.remainder r i ps f t a (omega arith))
]
