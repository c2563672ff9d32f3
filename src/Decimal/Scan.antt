-- ===== src/Decimal/Scan.antt =====
-- What the scanners accept, and that a print is scanned back.
use pms_backend.Base.{
  ℕ, zero, suc, ◌-◌, ◌≤◌, ◌<◌, ◌≡◌, refl, subst, ap, ◌∙◌, true, none, some, none, [], ◌∷◌, ◌++◌,
  arith, length, take, replicate, All, All-append, All-take, All-drop, All-replicate, length-append,
  length-take, length-drop, length-replicate, take-append-drop, append-nil,
}
use native.Mathlib.Decide.{dec_lt}
use pms_backend.Text.{Text, pad_start, pad_end}
use pms_backend.Text.Digits.{
  IsDigit, IsCanonical, big_int, to_string, big_int-to_string, value_from-zeros, to_string-IsDigit,
  to_string-IsCanonical,
}
use pms_backend.Decimal.{
  span_digits, is_integer_part, match_unsigned, units_of, slice_front, slice_back, padded,
  place_point, print_unsigned,
}

span_digits-append :
    (a b : Text) → All IsDigit a → span_digits b ≡ ([], b) → span_digits (a ++ b) ≡ (a, b)
unfolding span_digits
span_digits-append [] b h e = e
span_digits-append (c ∷ a) b h e = ground (arith, span_digits-append a b h.1 e)

span_digits-All : (a : Text) → All IsDigit a → span_digits a ≡ (a, [])
unfolding span_digits
span_digits-All [] h = refl
span_digits-All (c ∷ a) h = ground (arith, span_digits-All a h.1)

integer_part_of_canonical : (s : Text) → IsCanonical s → is_integer_part s ≡ true
unfolding is_integer_part
integer_part_of_canonical [] h = absurd h
integer_part_of_canonical (c ∷ []) h = ground arith
integer_part_of_canonical (c ∷ d ∷ s) h = ground arith

-- A canonical integer part alone is matched with an empty fraction.
pub match_unsigned_integer :
    (i : Text) → All IsDigit i → IsCanonical i → match_unsigned i ≡ some (i, [])
unfolding match_unsigned
match_unsigned_integer i d c = ground (arith, span_digits-All i d, integer_part_of_canonical i c)

-- With a point and a fraction behind it, both are captured.
pub match_unsigned_fraction :
    (i : Text) (c : ℕ) (f : Text)
    → All IsDigit i
    → IsCanonical i
    → All IsDigit (c ∷ f)
    → match_unsigned (i ++ b'.' ∷ c ∷ f) ≡ some (i, c ∷ f)
unfolding match_unsigned
match_unsigned_fraction i c f d h df = ground (
  arith,
  span_digits-append i (b'.' ∷ c ∷ f) d (ground arith),
  integer_part_of_canonical i h,
  span_digits-All (c ∷ f) df,
)

IsCanonical-take : (n : ℕ) (s : Text) → IsCanonical s → 0 < n → IsCanonical (take n s)
IsCanonical-take zero s h p = absurd (omega arith)
IsCanonical-take (suc n) [] h p = h
IsCanonical-take (suc zero) (c ∷ s) h p = tt
IsCanonical-take (suc (suc n)) (c ∷ []) h p = tt
IsCanonical-take (suc (suc n)) (c ∷ d ∷ s) h p = h

length_one-IsCanonical : (s : Text) → length s ≡ 1 → IsCanonical s
length_one-IsCanonical [] h = absurd (omega arith)
length_one-IsCanonical (c ∷ []) h = tt
length_one-IsCanonical (c ∷ d ∷ s) h = absurd (omega arith)

pub length-to_string-pos : (n : ℕ) → 0 < length (to_string n)
length-to_string-pos n = go (to_string n) (to_string-IsCanonical n)
  where
    go : (s : Text) → IsCanonical s → 0 < length s
    go [] h = absurd h
    go (c ∷ s) h = omega arith

module _ (u k : ℕ) where
  padded-IsDigit : All IsDigit (padded u k)
  unfolding padded pad_start
  padded-IsDigit =
      All-append IsDigit (replicate (suc k - length (to_string u)) b'0') (to_string u)
        (All-replicate IsDigit _ b'0' (omega arith)) (to_string-IsDigit u)

  length-padded :
      (suc k ≤ length (padded u k)) × (length (to_string u) < suc k → length (padded u k) ≡ suc k)
  unfolding padded pad_start
  length-padded = omega (arith, length-append {0}, length-replicate {0})

  big_int-padded : big_int (padded u k) ≡ u
  unfolding padded pad_start big_int
  big_int-padded =
      value_from-zeros (suc k - length (to_string u)) (to_string u)
      ∙ unfold big_int in big_int-to_string u

  padded_long : suc k ≤ length (to_string u) → padded u k ≡ to_string u
  unfolding padded pad_start
  padded_long h = let e : suc k - length (to_string u) ≡ 0 = omega arith in rw e

  front-IsCanonical : IsCanonical (slice_front (padded u k) k)
  front-IsCanonical = elim (dec_lt (length (to_string u)) (suc k)) [
    | yes p ↦ length_one-IsCanonical _ (omega (arith, length-take {0}, length-padded.1 p))
    | no p ↦
        IsCanonical-take (length (padded u k) - k) (padded u k)
          (rw (padded_long (omega arith)) (to_string-IsCanonical u))
          (omega (arith, length-padded.0))
  ]

  length-back : length (slice_back (padded u k) k) ≡ k
  length-back = omega (arith, length-drop {0}, length-padded.0)

  split_units :
      (f : Text) → slice_back (padded u k) k ≡ f → units_of (slice_front (padded u k) k) f k ≡ u
  unfolding units_of pad_end
  split_units f e =
      let no_pad : k - length f ≡ 0 = omega (arith, ap length e, length-back) in
      rw (no_pad, append-nil, ← e)
        (ap big_int (take-append-drop (length (padded u k) - k) (padded u k)) ∙ big_int-padded)

padded_short : (u : ℕ) → padded u 0 ≡ to_string u
unfolding padded pad_start
padded_short u =
    let e : 1 - length (to_string u) ≡ 0 = omega (arith, length-to_string-pos u) in rw e

-- A print is matched, and its parts scale to the same units: a number of whole units at a scale is matched, and its parts scale to the same units.
pub print_matched :
    (u s : ℕ)
    → (i : Text) × (f : Text) × (match_unsigned (print_unsigned u s) ≡ some (i, f))
      × (length f ≤ s)
      × (units_of i f s ≡ u)
unfolding print_unsigned place_point units_of pad_end
print_matched u zero = (
  padded u zero,
  [],
  match_unsigned_integer (padded u zero) (padded-IsDigit u 0)
      (rw (padded_short u) (to_string-IsCanonical u)),
  omega arith,
  rw append-nil (big_int-padded u 0),
)
print_matched u (suc k) = go (slice_back (padded u (suc k)) (suc k)) refl
  where
    go :
        (back : Text)
        → slice_back (padded u (suc k)) (suc k) ≡ back
        → (i : Text) × (f : Text) × (match_unsigned
              (slice_front (padded u (suc k)) (suc k) ++ b'.' ∷ back)
            ≡ some (i, f))
          × (length f ≤ suc k)
          × (units_of i f (suc k) ≡ u)
    go [] e = absurd (omega (arith, ap length e, length-back u (suc k)))
    go (c ∷ f) e = (
      slice_front (padded u (suc k)) (suc k),
      c ∷ f,
      match_unsigned_fraction _ c f (All-take IsDigit _ _ (padded-IsDigit u (suc k)))
          (front-IsCanonical u (suc k))
          (subst (λ t. All IsDigit t) e (All-drop IsDigit _ _ (padded-IsDigit u (suc k)))),
      omega (arith, ap length e, length-back u (suc k)),
      split_units u (suc k) (c ∷ f) e,
    )

-- No match begins with a minus sign, and the empty text has none.
pub match_unsigned_minus : (s : Text) → match_unsigned (b'-' ∷ s) ≡ none
unfolding match_unsigned span_digits is_integer_part
match_unsigned_minus s = ground arith

pub match_unsigned_empty : match_unsigned [] ≡ none
unfolding match_unsigned
match_unsigned_empty = refl
