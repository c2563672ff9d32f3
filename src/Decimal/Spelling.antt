-- ===== src/Decimal/Spelling.antt =====
-- The scanners accept exactly the canonical decimal spellings, and a spelling scales to the
-- number that it denotes.
use native.Mathlib.Nat.{pow-suc, pow-zero}
use Prim.Native.Nat.add
use pms_backend.Base.{
  ℕ, zero, suc, ◌+◌, ◌-◌, ◌*◌, ◌^◌, ◌≤◌, ◌≡◌, refl, sym, subst, ap, ◌∙◌, true, Bool-cases,
  Option-cases, if◌then◌else◌, inl, inr, Option, none, some, [], ◌∷◌, ◌++◌, append-nil, arith,
  length, replicate, All,
}
use pms_backend.Text.{Text, pad_end}
use pms_backend.Text.Digits.{IsDigit, IsCanonical, value_from, big_int, value_from-append}
use pms_backend.Decimal.{span_digits, is_integer_part, fraction_of, match_unsigned, units_of}
use pms_backend.Decimal.Scan.{match_unsigned_integer, match_unsigned_fraction}

-- The text of an integer part and a fraction.
abbrev pub spell : Text → Text → Text
spell i [] = i
spell i (c ∷ f) = i ++ b'.' ∷ c ∷ f

pub record IsSpelling (s i f : Text) : Type 0 where
  pub text : s ≡ spell i f
  pub integer_digits : All IsDigit i
  pub canonical : IsCanonical i
  pub fraction_digits : All IsDigit f

span_digits_sound : (s : Text) → let (ds, rest) = span_digits s in (s ≡ ds ++ rest) × All IsDigit ds
unfolding span_digits
span_digits_sound [] = (refl, tt)
span_digits_sound (c ∷ s) = ground (arith, span_digits_sound s)

is_integer_part_sound : (s : Text) → is_integer_part s ≡ true → IsCanonical s
unfolding is_integer_part
is_integer_part_sound [] h = cc
is_integer_part_sound (c ∷ []) h = tt
is_integer_part_sound (c ∷ d ∷ s) h = ground arith

fraction_of_sound : (i r f : Text) → fraction_of r ≡ some f → (i ++ r ≡ spell i f) × All IsDigit f
unfolding fraction_of
fraction_of_sound i [] [] h = (append-nil i, tt)
fraction_of_sound i [] (d ∷ f) h = absurd (ground arith)
fraction_of_sound i (c ∷ r) [] h = absurd (ground (arith, span_digits_sound r))
fraction_of_sound i (c ∷ r) (d ∷ f) h =
    ground (arith, span_digits_sound r, append-nil (span_digits r).0)

matched_parts :
    (s ds rest i f : Text)
    → s ≡ ds ++ rest
    → All IsDigit ds
    → if◌then◌else◌ {A = Option (Text × Text)}
        (is_integer_part ds)
        (elim (fraction_of rest) [ none ↦ none | some g ↦ some (ds, g) ])
        none
      ≡ some (i, f)
    → IsSpelling s i f
matched_parts s ds rest i f e d h = elim (Bool-cases (is_integer_part ds)) [
  | inr bad ↦ absurd (ground arith)
  | inl good ↦ elim (Option-cases (fraction_of rest)) [
    | inl bad ↦ absurd (ground arith)
    | inr (g, found) ↦
        let same : ◌≡◌ {A = Option (Text × Text)} (some (ds, g)) (some (i, f)) = ground arith in
        let di : ds ≡ i = ground arith in
        let gf : g ≡ f = ground arith in
        let q = fraction_of_sound ds rest g found in
        subst (λ t. IsSpelling s t f) di
          (subst (λ t. IsSpelling s ds t) gf
            (record {
              text = e ∙ q.0;
              integer_digits = d;
              canonical = is_integer_part_sound ds good;
              fraction_digits = q.1;
            }))
  ]
]

-- What is matched is a spelling, and its parts are the captured ones.
pub match_unsigned_sound : (s i f : Text) → match_unsigned s ≡ some (i, f) → IsSpelling s i f
unfolding match_unsigned
match_unsigned_sound s i f h =
    let (ds, rest) = span_digits s in
    matched_parts s ds rest i f (span_digits_sound s).0 (span_digits_sound s).1 h

-- Every spelling is matched.
pub match_unsigned_complete : (s i f : Text) → IsSpelling s i f → match_unsigned s ≡ some (i, f)
match_unsigned_complete s i [] p =
    ap match_unsigned p.text ∙ match_unsigned_integer i p.integer_digits p.canonical
match_unsigned_complete s i (c ∷ f) p =
    ap match_unsigned p.text
    ∙ match_unsigned_fraction i c f p.integer_digits p.canonical p.fraction_digits

pub value_from-pow : (n : ℕ) (s : Text) → value_from n s ≡ n * 10 ^ length s + value_from 0 s
unfolding value_from
value_from-pow n [] = omega arith
value_from-pow n (c ∷ s) =
    rw (value_from-pow (n * 10 + (c - b'0')) s, value_from-pow (0 * 10 + (c - b'0')) s, pow-suc)
      (grind arith)

pub value_from_trailing : (n k : ℕ) → value_from n (replicate k b'0') ≡ n * 10 ^ k
unfolding value_from
value_from_trailing n zero = omega arith
value_from_trailing n (suc k) = rw (value_from_trailing (n * 10 + 0) k, pow-suc) (grind arith)

pub pow-add : (b m n : ℕ) → b ^ (m + n) ≡ b ^ m * b ^ n
pow-add b zero n = rw (add.zero, pow-zero) (omega arith)
pow-add b (suc m) n = rw (add.suc, pow-suc b (m + n), pow-suc b m, pow-add b m n) (grind arith)

regroup_scaled : (a b x y z : ℕ) → x * y ≡ z → (a * x + b) * y ≡ a * z + b * y
regroup_scaled a b x y z e = grind arith

-- Scaling a spelling multiplies it by a power of ten, exactly.
pub units_of_exact :
    (i f : Text) (s : ℕ)
    → length f ≤ s
    → units_of i f s ≡ big_int i * 10 ^ s + big_int f * 10 ^ (s - length f)
unfolding units_of pad_end big_int
units_of_exact i f s h =
    let k : ℕ = s - length f in
    let e : length f + k ≡ s = omega arith in
    rw
      (
        value_from-append 0 i (f ++ replicate k b'0'),
        value_from-append (value_from 0 i) f (replicate k b'0'),
        value_from_trailing,
        value_from-pow (value_from 0 i) f,
      )
      (regroup_scaled (value_from 0 i) (value_from 0 f) (10 ^ length f) (10 ^ k) (10 ^ s)
        (sym (pow-add 10 (length f) k) ∙ ap (λ (t : ℕ). 10 ^ t) e))
