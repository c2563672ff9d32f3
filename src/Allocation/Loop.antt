-- ===== src/Allocation/Loop.antt =====
-- The loop that hands out the residual units.
use native.Mathlib.Nat.{mod-lt, div-add-mod}
use native.Mathlib.Decide.{dec_le}
use pms_backend.Base.{
  ℕ, zero, suc, ◌+◌, ◌-◌, ◌*◌, ◌%◌, ◌≤◌, ◌<◌, ◌≡◌, refl, ap, sym, subst, List, [], ◌∷◌, map, arith,
  length, length-map, All,
}
use pms_backend.Allocation.{Entry, Share, share_of, total_weight, sum_units, pick, bump, distribute}

-- One more unit in the sum, if the position exists.
sum_units-bump :
    (i : ℕ) (ss : List Share) → i < length ss → sum_units (bump i ss) ≡ sum_units ss + 1
unfolding bump
sum_units-bump i [] h = absurd (omega arith)
sum_units-bump zero (s ∷ ss) h = omega arith
sum_units-bump (suc i) (s ∷ ss) h = omega (arith, sum_units-bump i ss (omega arith))

pub length-bump : (i : ℕ) (ss : List Share) → length (bump i ss) ≡ length ss
unfolding bump
length-bump i [] = refl
length-bump zero (s ∷ ss) = refl
length-bump (suc i) (s ∷ ss) = ap suc (length-bump i ss)

pick-All : (P : ℕ → Type 0) (ps : List ℕ) (k : ℕ) → All P ps → k < length ps → P (pick ps k)
unfolding pick
pick-All P [] k h l = absurd (omega arith)
pick-All P (p ∷ ps) zero h l = h.0
pick-All P (p ∷ ps) (suc k) h l = pick-All P ps k h.1 (omega arith)

-- The loop adds exactly the residual to the sum, whatever the order of the priority.
pub sum_units-distribute :
    (r k : ℕ) (ps : List ℕ) (ss : List Share)
    → All (λ p. p < length ss) ps
    → 0 < length ps
    → sum_units (distribute r k ps ss) ≡ sum_units ss + r
unfolding distribute
sum_units-distribute zero k ps ss h l = omega arith
sum_units-distribute (suc r) k ps ss h l =
    let p = pick ps (k % length ps) in
    let below : p < length ss = pick-All (λ q. q < length ss) ps (k % length ps) h (mod-lt k l) in
    ground (
      arith,
      sum_units-bump p ss below,
      sum_units-distribute r (suc k) ps (bump p ss)
          (subst (λ n. All (λ q. q < n) ps) (sym (length-bump p ss)) h) l,
    )

abbrev pub sum_remainders : List Share → ℕ
sum_remainders [] = 0
sum_remainders (s ∷ ss) = s.remainder + sum_remainders ss

-- Quotients and remainders together are the exact parts.
pub shares_exact :
    (t w : ℕ) (es : List Entry)
    → let ss = map (share_of t w) es in w * sum_units ss + sum_remainders ss ≡ t * total_weight es
unfolding share_of
shares_exact t w [] = omega arith
shares_exact t w (e ∷ es) = grind (arith, shares_exact t w es, div-add-mod (t * e.weight) w)

pub remainders_below :
    (t w : ℕ) (es : List Entry) → 0 < w → All (λ s. s.remainder < w) (map (share_of t w) es)
unfolding share_of
remainders_below t w [] h = tt
remainders_below t w (e ∷ es) h = (mod-lt (t * e.weight) h, remainders_below t w es h)

sum_remainders-le :
    (w : ℕ) (ss : List Share) → All (λ s. s.remainder < w) ss → sum_remainders ss ≤ w * length ss
sum_remainders-le w [] h = omega arith
sum_remainders-le w (s ∷ ss) (h, k) = grind (arith, sum_remainders-le w ss k)

cancel_le : (w a b : ℕ) → w * a < w * b + w → a ≤ b
cancel_le w a b h = elim (dec_le a b) [
  | yes p ↦ p
  | no p ↦ let big : suc b ≤ a = omega arith in absurd (grind arith)
]

residual_arith :
    (t w q r n : ℕ)
    → w * q + r ≡ t * w
    → r ≤ w * n
    → 0 < w
    → (q ≤ t) × (r ≡ w * (t - q)) × (t - q ≤ n)
residual_arith t w q r n e b h =
    let low : q ≤ t = cancel_le w q t (omega arith) in
    let d : ℕ = t - q in
    let split : q + d ≡ t = omega arith in
    let exact : r ≡ w * d = omega (arith, ap (λ (x : ℕ). x * w) split) in
    (low, exact, cancel_le w d n (omega arith))

-- The residual: the quotients do not exceed the total, and the remainders sum to what they leave.
pub residual_exact :
    (t : ℕ) (es : List Entry)
    → 0 < total_weight es
    → let w = total_weight es in
      let ss = map (share_of t w) es in
      (sum_units ss ≤ t)
      × (sum_remainders ss ≡ w * (t - sum_units ss))
      × (t - sum_units ss ≤ length es)
residual_exact t es h =
    let w : ℕ = total_weight es in
    let ss = map (share_of t w) es in
    let small = sum_remainders-le w ss (remainders_below t w es h) in
    residual_arith t w (sum_units ss) (sum_remainders ss) (length es) (shares_exact t w es)
      (subst (λ n. sum_remainders ss ≤ w * n) (length-map (share_of t w) es) small) h
