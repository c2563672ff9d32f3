-- ===== src/Access/Amounts.antt =====
-- `compareUnsignedDecimals` compares the numbers that two decimal texts spell.
use native.Mathlib.Nat.{pow-suc, pow-zero}
use pms_backend.Base.{
  ℕ, zero, suc, ◌+◌, ◌-◌, ◌*◌, ◌^◌, ◌≤◌, ◌<◌, ◌≡◌, ◌⊎◌, refl, sym, subst, ◌∙◌, inl, inr, [], ◌∷◌,
  ◌++◌, arith, length, replicate, length-append, length-replicate, All-append, All-replicate, All,
}
use pms_backend.Number.{Sign, less, same, more}
use pms_backend.Text.{Text, pad_end, text_eq, text_lt}
use pms_backend.Text.Digits.{IsDigit, IsCanonical, value_from, value_from-append}
use pms_backend.Decimal.Spelling.{value_from-pow, pow-add}
use pms_backend.Access.{compare_texts}

-- The order of two numbers.
abbrev pub Ordered : ℕ → ℕ → Sign → Type 0
Ordered m n less = m < n
Ordered m n same = m ≡ n
Ordered m n more = n < m

lead_plus : (p e r u w : ℕ) → u < r → p * r + u < (p + suc e) * r + w
lead_plus p e r u w k = grind arith

-- A larger leading part wins, whatever follows below the place value.
pub lead_less : (p q r u w : ℕ) → p < q → u < r → p * r + u < q * r + w
lead_less p q r u w h k =
    let gap : q ≡ p + suc (q - suc p) = omega arith in rw (gap) (lead_plus p (q - suc p) r u w k)

value_bound_step : (d r u : ℕ) → d ≤ 9 → u < r → (0 * 10 + d) * r + u < r * 10
value_bound_step d r u h k =
    subst (λ z. (0 * 10 + d) * r + u < z) (omega arith)
      (lead_less (0 * 10 + d) 10 r u 0 (omega arith) k)

pub value_bound : (s : Text) → All IsDigit s → value_from 0 s < 10 ^ length s
unfolding value_from
value_bound [] d = rw (pow-zero) (omega arith)
value_bound (c ∷ s) d =
    rw (value_from-pow (0 * 10 + (c - b'0')) s, pow-suc)
      (value_bound_step (c - b'0') (10 ^ length s) (value_from 0 s) (omega arith)
        (value_bound s d.1))

pub ℕ-cases : (x y : ℕ) → (x < y) ⊎ ((x ≡ y) ⊎ (y < x))
ℕ-cases x y = ground arith

module _ (x y : ℕ) (a b : Text) where
  first_same : x ≡ y → compare_texts (x ∷ a) (y ∷ b) ≡ compare_texts a b
  unfolding compare_texts text_eq text_lt
  first_same h = ground arith

  first_less : x < y → compare_texts (x ∷ a) (y ∷ b) ≡ less
  unfolding compare_texts text_eq text_lt
  first_less h = ground arith

  first_more : y < x → compare_texts (x ∷ a) (y ∷ b) ≡ more
  unfolding compare_texts text_eq text_lt
  first_more h = ground arith

pub Ordered-plus : (s : Sign) (c m n : ℕ) → Ordered m n s → Ordered (c + m) (c + n) s
Ordered-plus less c m n h = omega arith
Ordered-plus same c m n h = omega arith
Ordered-plus more c m n h = omega arith

none_differ : Ordered 0 0 (compare_texts [] [])
unfolding compare_texts text_eq
none_differ = refl

-- Digit texts of one length are ordered as their numbers.
pub compare_texts_lem :
    (a b : Text)
    → length a ≡ length b
    → All IsDigit a
    → All IsDigit b
    → Ordered (value_from 0 a) (value_from 0 b) (compare_texts a b)
unfolding value_from
compare_texts_lem [] [] h da db = none_differ
compare_texts_lem [] (y ∷ b) h da db = absurd (omega arith)
compare_texts_lem (x ∷ a) [] h da db = absurd (omega arith)
compare_texts_lem (x ∷ a) (y ∷ b) h da db =
    let same_length : length a ≡ length b = omega arith in
    rw (value_from-pow (0 * 10 + (x - b'0')) a, value_from-pow (0 * 10 + (y - b'0')) b, same_length)
      (elim (ℕ-cases x y) [
        | inl l ↦ rw (first_less x y a b l) (
            lead_less (0 * 10 + (x - b'0')) (0 * 10 + (y - b'0')) (10 ^ length b) (value_from 0 a)
              (value_from 0 b) (omega arith) (rw (sym same_length) (value_bound a da.1)))
        | inr (inl e) ↦
            rw (first_same x y a b e, e)
              (Ordered-plus (compare_texts a b) ((0 * 10 + (y - b'0')) * 10 ^ length b)
                (value_from 0 a) (value_from 0 b) (compare_texts_lem a b same_length da.1 db.1))
        | inr (inr m) ↦ rw (first_more x y a b m) (
            lead_less (0 * 10 + (y - b'0')) (0 * 10 + (x - b'0')) (10 ^ length b) (value_from 0 b)
              (value_from 0 a) (omega arith) (value_bound b db.1))
      ])

pub pad_end-length : (f : Text) (n : ℕ) → length f ≤ n → length (pad_end f n b'0') ≡ n
unfolding pad_end
pad_end-length f n h =
    rw
      (
        length-append f (replicate (n - length f) b'0'),
        length-replicate {A = ℕ} (n - length f) b'0',
      )
      (omega arith)

pub pad_end-All : (f : Text) (n : ℕ) → All IsDigit f → All IsDigit (pad_end f n b'0')
unfolding pad_end
pad_end-All f n d =
    All-append IsDigit f (replicate (n - length f) b'0') d
      (All-replicate IsDigit (n - length f) b'0' (omega arith))

pub value_of :
    (i a : Text) → value_from 0 (i ++ a) ≡ value_from 0 i * 10 ^ length a + value_from 0 a
value_of i a = value_from-append 0 i a ∙ value_from-pow (value_from 0 i) a

lead_plus_le : (p e r u : ℕ) → r * p ≤ (p + e) * r + u
lead_plus_le p e r u = grind arith

lead_le : (p q r u : ℕ) → p ≤ q → r * p ≤ q * r + u
lead_le p q r u h = let gap : q ≡ p + (q - p) = omega arith in rw (gap) (lead_plus_le p (q - p) r u)

-- A canonical integer of more digits is the larger one.
canonical_bound :
    (c d : ℕ) (s : Text)
    → All IsDigit (c ∷ d ∷ s)
    → IsCanonical (c ∷ d ∷ s)
    → 10 ^ suc (length s) ≤ value_from 0 (c ∷ d ∷ s)
unfolding value_from
canonical_bound c d s digits canonical =
    rw (value_from-pow ((0 * 10 + (c - b'0')) * 10 + (d - b'0')) s, pow-suc)
      (lead_le 10 (((0 * 10 + (c - b'0')) * 10) + (d - b'0')) (10 ^ length s) (value_from 0 s)
        (omega arith))

le_times_suc : (x y : ℕ) → x ≤ x * suc y
le_times_suc x y = grind arith

pow_positive : (n : ℕ) → 1 ≤ 10 ^ n
pow_positive zero = rw (pow-zero) (omega arith)
pow_positive (suc n) = let before = pow_positive n in rw (pow-suc) (omega arith)

le_times : (x y : ℕ) → 1 ≤ y → x ≤ x * y
le_times x y h = let gap : y ≡ suc (y - 1) = omega arith in rw (gap) (le_times_suc x (y - 1))

pow_mono : (m n : ℕ) → m ≤ n → 10 ^ m ≤ 10 ^ n
pow_mono m n h =
    let gap : n ≡ m + (n - m) = omega arith in
    rw (gap, pow-add 10 m (n - m)) (le_times (10 ^ m) (10 ^ (n - m)) (pow_positive (n - m)))

pub shorter_less :
    (i j : Text)
    → length i < length j
    → All IsDigit i
    → All IsDigit j
    → IsCanonical i
    → IsCanonical j
    → value_from 0 i < value_from 0 j
shorter_less i [] h di dj ci cj = absurd cj
shorter_less [] (x ∷ j) h di dj ci cj = absurd ci
shorter_less (w ∷ i) (x ∷ []) h di dj ci cj = absurd (omega arith)
shorter_less (w ∷ i) (x ∷ y ∷ j) h di dj ci cj =
    let low = value_bound (w ∷ i) di in
    let high = canonical_bound x y j dj cj in
    let between = pow_mono (length (w ∷ i)) (suc (length j)) (omega arith) in omega arith
