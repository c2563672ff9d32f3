-- ===== src/Risk/Rounding.antt =====
-- Rounding a quotient to the nearest whole number.
use native.Mathlib.Nat.{mod-lt, div-add-mod}
use pms_backend.Base.{
  ℕ, ◌+◌, ◌*◌, ◌/◌, ◌%◌, ◌≤◌, ◌<◌, ◌≡◌, refl, Bool, true, false, arith, leb, if◌then◌else◌,
}
use pms_backend.Risk.{round_half_up}

-- `q` is the whole number nearest to `n / d`, the upper one of two.
abbrev pub IsNearest : ℕ → ℕ → ℕ → Type 0
IsNearest n d q = (q * d * 2 ≤ n * 2 + d) × (n * 2 < q * d * 2 + d)

rounds_down : (n d q r : ℕ) → q * d + r ≡ n → r * 2 < d → IsNearest n d q
rounds_down n d q r e h = grind arith

rounds_up : (n d q r : ℕ) → q * d + r ≡ n → r < d → d ≤ r * 2 → IsNearest n d (q + 1)
rounds_up n d q r e l h = grind arith

quotient : (n d : ℕ) → n / d * d + n % d ≡ n
quotient n d = grind (arith, div-add-mod n d)

branches :
    (n d : ℕ) (b : Bool)
    → 0 < d
    → leb d (n % d * 2) ≡ b
    → IsNearest n d (if b then n / d + 1 else n / d)
branches n d true h e = rounds_up n d (n / d) (n % d) (quotient n d) (mod-lt n h) (ground arith)
branches n d false h e = rounds_down n d (n / d) (n % d) (quotient n d) (ground arith)

pub round_half_up-IsNearest : (n d : ℕ) → 0 < d → IsNearest n d (round_half_up n d)
unfolding round_half_up
round_half_up-IsNearest n d h = branches n d (leb d (n % d * 2)) h refl
