-- ===== src/Access/Compare.antt =====
-- `compareUnsignedDecimals` on two matched texts.
use pms_backend.Base.{
  ℕ, ◌*◌, ◌^◌, ◌<◌, ◌≡◌, ◌⊎◌, refl, sym, subst, ap, ◌∙◌, false, Bool-cases, inl, inr, some, [], ◌∷◌,
  ◌++◌, arith, length, All, max,
}
use pms_backend.Number.{Sign, less, more}
use pms_backend.Text.{Text, pad_end, text_eq, text_eq_iff}
use pms_backend.Text.Digits.{IsDigit, IsCanonical, value_from, big_int}
use pms_backend.Decimal.{units_of, match_unsigned}
use pms_backend.Decimal.Spelling.{spell, match_unsigned_sound}
use pms_backend.Access.{
  until_point, after_point, compare_texts, compare_parts, compare_unsigned_decimals,
}
use pms_backend.Access.Amounts.{
  Ordered, value_bound, compare_texts_lem, lead_less, shorter_less, pad_end-length, pad_end-All,
  value_of, Ordered-plus, ℕ-cases,
}

until_point_digits : (i : Text) (f : Text) → All IsDigit i → until_point (spell i f) ≡ i
unfolding until_point
until_point_digits [] [] d = refl
until_point_digits [] (c ∷ f) d = ground arith
until_point_digits (x ∷ i) [] d = ground (arith, until_point_digits i [] d.1)
until_point_digits (x ∷ i) (c ∷ f) d = ground (arith, until_point_digits i (c ∷ f) d.1)

after_point_digits :
    (i : Text) (f : Text) → All IsDigit i → All IsDigit f → after_point (spell i f) ≡ f
unfolding after_point
after_point_digits [] [] d e = refl
after_point_digits [] (c ∷ f) d e = until_point_digits (c ∷ f) [] e
after_point_digits (x ∷ i) [] d e = ground (arith, after_point_digits i [] d.1 e)
after_point_digits (x ∷ i) (c ∷ f) d e = ground (arith, after_point_digits i (c ∷ f) d.1 e)

-- Where the integers differ, the fractions do not matter.
integer_less :
    (i j a b : Text)
    → All IsDigit a
    → length a ≡ length b
    → value_from 0 i < value_from 0 j
    → value_from 0 (i ++ a) < value_from 0 (j ++ b)
integer_less i j a b da h lower =
    rw (value_of i a, value_of j b, h)
      (lead_less (value_from 0 i) (value_from 0 j) (10 ^ length b) (value_from 0 a) (value_from 0 b)
        lower (rw (sym h) (value_bound a da)))

integer_same :
    (i a b : Text)
    → All IsDigit a
    → All IsDigit b
    → length a ≡ length b
    → Ordered (value_from 0 (i ++ a)) (value_from 0 (i ++ b)) (compare_texts a b)
integer_same i a b da db h =
    rw (value_of i a, value_of i b, h)
      (Ordered-plus (compare_texts a b) (value_from 0 i * 10 ^ length b) (value_from 0 a)
        (value_from 0 b) (compare_texts_lem a b h da db))

module _ (li lf ri rf : Text) where
  abbrev scale : ℕ
  scale = max (length lf) (length rf)

  abbrev fraction_sign : Sign
  fraction_sign = compare_texts (pad_end lf scale b'0') (pad_end rf scale b'0')

  -- The three ways through the source.
  parts_longer : length ri < length li → compare_parts li lf ri rf ≡ more
  unfolding compare_parts
  parts_longer h = ground arith

  parts_shorter : length li < length ri → compare_parts li lf ri rf ≡ less
  unfolding compare_parts
  parts_shorter h = ground arith

  parts_equal : li ≡ ri → compare_parts li lf ri rf ≡ fraction_sign
  unfolding compare_parts
  parts_equal h = let e = (text_eq_iff li ri).1 h in let l = ap length h in ground (arith)

  parts_differ :
      length li ≡ length ri
      → text_eq li ri ≡ false
      → compare_parts li lf ri rf ≡ compare_texts li ri
  unfolding compare_parts compare_texts
  parts_differ l h = ground arith

  differ_sign : text_eq li ri ≡ false → (compare_texts li ri ≡ less) ⊎ (compare_texts li ri ≡ more)
  unfolding compare_texts
  differ_sign h = ground arith

  -- The sign that the parts give is the order of the numbers at their common scale.
  module _ (dli : All IsDigit li) (dlf : All IsDigit lf) (dri : All IsDigit ri)
      (drf : All IsDigit rf) (cli : IsCanonical li) (cri : IsCanonical ri) where
    compare_parts_lem :
        Ordered (units_of li lf scale) (units_of ri rf scale) (compare_parts li lf ri rf)
    unfolding units_of big_int
    compare_parts_lem =
        let a = pad_end lf scale b'0' in
        let b = pad_end rf scale b'0' in
        let da = pad_end-All lf scale dlf in
        let db = pad_end-All rf scale drf in
        let la : length a ≡ scale = pad_end-length lf scale (omega arith) in
        let lb : length b ≡ scale = pad_end-length rf scale (omega arith) in
        let ab = la ∙ sym lb in
        elim (ℕ-cases (length li) (length ri)) [
          | inl l ↦
              rw (parts_shorter l)
                (integer_less li ri a b da ab (shorter_less li ri l dli dri cli cri))
          | inr (inr m) ↦
              rw (parts_longer m)
                (integer_less ri li b a db (sym ab) (shorter_less ri li m dri dli cri cli))
          | inr (inl l) ↦ elim (Bool-cases (text_eq li ri)) [
            | inl e ↦
                let same_integer = (text_eq_iff li ri).0 e in
                rw (parts_equal same_integer, same_integer) (integer_same ri a b da db ab)
            | inr e ↦
                let order = compare_texts_lem li ri l dli dri in
                rw (parts_differ l e) (elim (differ_sign e) [
                  | inl s ↦
                      let lower = subst (Ordered (value_from 0 li) (value_from 0 ri)) s order in
                      rw (s) (integer_less li ri a b da ab lower)
                  | inr s ↦
                      let lower = subst (Ordered (value_from 0 li) (value_from 0 ri)) s order in
                      rw (s) (integer_less ri li b a db (sym ab) lower)
                ])
          ]
        ]

-- On two texts that the source accepts as decimals, `compareUnsignedDecimals` gives the order of the
-- two numbers that they spell, written at the longer of the two scales.
pub compare_unsigned_decimals_lem :
    (left right li lf ri rf : Text)
    → match_unsigned left ≡ some (li, lf)
    → match_unsigned right ≡ some (ri, rf)
    → Ordered
        (units_of li lf (max (length lf) (length rf)))
        (units_of ri rf (max (length lf) (length rf)))
        (compare_unsigned_decimals left right)
unfolding compare_unsigned_decimals
compare_unsigned_decimals_lem left right li lf ri rf hl hr =
    let l = match_unsigned_sound left li lf hl in
    let r = match_unsigned_sound right ri rf hr in
    rw
      (
        l.text,
        r.text,
        until_point_digits li lf l.integer_digits,
        until_point_digits ri rf r.integer_digits,
        after_point_digits li lf l.integer_digits l.fraction_digits,
        after_point_digits ri rf r.integer_digits r.fraction_digits,
      )
      (compare_parts_lem li lf ri rf l.integer_digits l.fraction_digits r.integer_digits
        r.fraction_digits l.canonical r.canonical)
