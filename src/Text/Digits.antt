-- ===== src/Text/Digits.antt =====
-- Decimal digits: `BigInt(text)` on digits, `n.toString()`, and what a print has for its form.
use pms_backend.Base.{
  ℕ, zero, suc, ◌+◌, ◌-◌, ◌*◌, ◌/◌, ◌%◌, ◌≤◌, ◌<◌, ◌≡◌, refl, ◌≢◌, List, [], ◌∷◌, ◌++◌, arith, ltb,
  if◌then◌else◌, replicate, All, All-append,
}

abbrev pub IsDigit : ℕ → Type 0
IsDigit c = (b'0' ≤ c) × (c ≤ b'9')

-- The number that digits spell behind `n`.
unfoldable pub value_from : ℕ → List ℕ → ℕ
value_from n [] = n
value_from n (c ∷ s) = value_from (n * 10 + (c - b'0')) s

-- `BigInt(s)` of a text of digits; `BigInt('')` is 0.
unfoldable pub big_int : List ℕ → ℕ
unfolding value_from
big_int s = value_from 0 s

digits : ℕ → ℕ → List ℕ
digits zero n = []
digits (suc f) n =
    let rest = digits f (n / 10) in
    if ltb n 10 then (b'0' + n) ∷ [] else rest ++ (b'0' + n % 10) ∷ []

-- `n.toString()`: the fuel is more than the number of digits.
unfoldable pub to_string : ℕ → List ℕ
unfolding digits
to_string n = digits (suc n) n

pub value_from-append :
    (n : ℕ) (a b : List ℕ) → value_from n (a ++ b) ≡ value_from (value_from n a) b
unfolding value_from
value_from-append n [] b = refl
value_from-append n (c ∷ a) b = value_from-append (n * 10 + (c - b'0')) a b

value-digits : (f n : ℕ) → n < f → value_from 0 (digits f n) ≡ n
unfolding digits value_from
value-digits zero n h = absurd (omega arith)
value-digits (suc f) n h =
    ground (
      arith,
      value-digits f (n / 10),
      value_from-append 0 (digits f (n / 10)) ((b'0' + n % 10) ∷ []),
    )

-- A number is read back from its print.
pub big_int-to_string : (n : ℕ) → big_int (to_string n) ≡ n
unfolding big_int to_string
big_int-to_string n = value-digits (suc n) n (omega arith)

pub value_from-zeros : (k : ℕ) (s : List ℕ) → value_from 0 (replicate k b'0' ++ s) ≡ value_from 0 s
unfolding value_from
value_from-zeros zero s = refl
value_from-zeros (suc k) s = value_from-zeros k s

digits-IsDigit : (f n : ℕ) → All IsDigit (digits f n)
unfolding digits
digits-IsDigit zero n = tt
digits-IsDigit (suc f) n = ground (
  arith,
  digits-IsDigit f (n / 10),
  All-append IsDigit (digits f (n / 10)) ((b'0' + n % 10) ∷ []) (digits-IsDigit f (n / 10))
      (omega arith),
)

pub to_string-IsDigit : (n : ℕ) → All IsDigit (to_string n)
unfolding to_string
to_string-IsDigit n = digits-IsDigit (suc n) n

-- One digit, or no zero in front: the form that the source calls canonical.
abbrev pub IsCanonical : List ℕ → Type 0
IsCanonical [] = ⊥
IsCanonical (c ∷ []) = Unit
IsCanonical (c ∷ d ∷ s) = c ≢ b'0'

append-IsCanonical :
    (s : List ℕ) (c : ℕ) → value_from 0 s ≢ 0 → IsCanonical s → IsCanonical (s ++ c ∷ [])
unfolding value_from
append-IsCanonical [] c v h = absurd h
append-IsCanonical (d ∷ []) c v h = λ e. v (omega (arith, e))
append-IsCanonical (d ∷ e ∷ s) c v h = h

digits-IsCanonical : (f n : ℕ) → n < f → IsCanonical (digits f n)
unfolding digits
digits-IsCanonical zero n h = absurd (omega arith)
digits-IsCanonical (suc f) n h = ground (
  arith,
  value-digits f (n / 10),
  digits-IsCanonical f (n / 10),
  append-IsCanonical (digits f (n / 10)) (b'0' + n % 10),
)

pub to_string-IsCanonical : (n : ℕ) → IsCanonical (to_string n)
unfolding to_string
to_string-IsCanonical n = digits-IsCanonical (suc n) n (omega arith)
