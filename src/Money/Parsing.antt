-- ===== src/Money/Parsing.antt =====
-- `Money.parse` accepts exactly the canonical spellings at a valid currency and scale, and the
-- amount is the number that the text spells.
use pms_backend.Base.{
  ℕ, ◌+◌, ◌-◌, ◌*◌, ◌^◌, ◌≤◌, ◌≡◌, ◌↔◌, refl, sym, ap, subst, ◌∙◌, Bool, true, false, Option, none,
  some, [], ◌∷◌, arith, length,
}
use pms_backend.Base.Int.{ℤ, pos, negsuc, negate}
use pms_backend.Fault.{ok}
use pms_backend.Number.{Number, int, non_integer, num}
use pms_backend.Text.{Text, is_currency}
use pms_backend.Text.Digits.{big_int}
use pms_backend.Decimal.{match_unsigned, match_signed, units_of}
use pms_backend.Decimal.Spelling.{
  IsSpelling, match_unsigned_sound, match_unsigned_complete, units_of_exact,
}
use pms_backend.Money.{Money, parse, parse_matched, apply_sign}
use pms_backend.Money.RoundTrip.{IsValid, match_signed_positive, match_signed_negative}

-- The number of minor units that an integer part and a fraction spell at a scale.
abbrev pub spelled_units : Text → Text → ℕ → ℕ
spelled_units i f s = big_int i * 10 ^ s + big_int f * 10 ^ (s - length f)

-- `amount` spells `units` at the scale: with no sign, or with a minus sign in front.
pub data Denotes (amount : Text) (scale : ℕ) (units : ℤ) : Type 0 where
  plain :
      (i f : Text)
      → IsSpelling amount i f
      → length f ≤ scale
      → units ≡ pos (spelled_units i f scale)
      → Denotes amount scale units
  minus :
      (t i f : Text)
      → amount ≡ b'-' ∷ t
      → IsSpelling t i f
      → length f ≤ scale
      → units ≡ negate (pos (spelled_units i f scale))
      → Denotes amount scale units

pub match_signed_plain :
    (s i f : Text) → match_signed s ≡ some (false, i, f) → match_unsigned s ≡ some (i, f)
unfolding match_signed
match_signed_plain [] i f h = cc
match_signed_plain (c ∷ s) i f h = ground arith

pub match_signed_minus :
    (s i f : Text)
    → match_signed s ≡ some (true, i, f)
    → (t : Text) × (s ≡ b'-' ∷ t) × (match_unsigned t ≡ some (i, f))
unfolding match_signed
match_signed_minus [] i f h = cc
match_signed_minus (c ∷ s) i f h = (s, ground arith, ground arith)

pub match_signed_sound :
    (a : Text) (neg : Bool) (i f : Text) (s : ℕ)
    → match_signed a ≡ some (neg, i, f)
    → length f ≤ s
    → Denotes a s (apply_sign neg (units_of i f s))
unfolding apply_sign
match_signed_sound a false i f s h l =
    plain i f (match_unsigned_sound a i f (match_signed_plain a i f h)) l
      (ap pos (units_of_exact i f s l))
match_signed_sound a true i f s h l =
    let (t, e, m) = match_signed_minus a i f h in
    minus t i f e (match_unsigned_sound t i f m) l
      (ap (λ u. negate (pos u)) (units_of_exact i f s l))

parse_matched_complete :
    (a c : Text) (s : ℕ) (z : ℤ)
    → Denotes a s z
    → parse_matched (match_signed a) c s ≡ ok (record { currency = c; minor_units = z; scale = s })
unfolding parse_matched apply_sign
parse_matched_complete a c s z (plain i f p l e) =
    ground
      (arith, match_signed_positive a i f (match_unsigned_complete a i f p), units_of_exact i f s l)
parse_matched_complete a c s z (minus t i f q p l e) =
    ground
      (arith, match_signed_negative t i f (match_unsigned_complete t i f p), units_of_exact i f s l)

pub parse_matched_ok :
    (neg : Bool) (i f c : Text) (s : ℕ) (m : Money)
    → parse_matched (some (neg, i, f)) c s ≡ ok m
    → (length f ≤ s)
      × (m.currency ≡ c)
      × (m.scale ≡ s)
      × (m.minor_units ≡ apply_sign neg (units_of i f s))
unfolding parse_matched
parse_matched_ok neg i f c s m h = ground arith

parse_matched_sound :
    (a c : Text) (s : ℕ) (m : Money)
    → parse_matched (match_signed a) c s ≡ ok m
    → (m.currency ≡ c) × (m.scale ≡ s) × Denotes a s m.minor_units
parse_matched_sound a c s m h = go (match_signed a) refl h
  where
    go :
        (o : Option (Bool × Text × Text))
        → match_signed a ≡ o
        → parse_matched o c s ≡ ok m
        → (m.currency ≡ c) × (m.scale ≡ s) × Denotes a s m.minor_units
    go none e k = absurd (unfold parse_matched in cc)
    go (some (neg, i, f)) e k =
        let (l, ec, es, eu) = parse_matched_ok neg i f c s m k in
        (ec, es, subst (λ z. Denotes a s z) (sym eu) (match_signed_sound a neg i f s e l))

abbrev pub Accepts : Text → Text → Number → Money → Type 0
Accepts a c n m = IsValid m × (m.currency ≡ c) × (n ≡ num m.scale) × Denotes a m.scale m.minor_units

pub parse_ok_guards :
    (a c : Text) (n : Number) (m : Money)
    → parse a c n ≡ ok m
    → (s : ℕ) × (n ≡ num s)
      × (s ≤ 12)
      × (is_currency c ≡ true)
      × (parse_matched (match_signed a) c s ≡ ok m)
unfolding parse
parse_ok_guards a c (int (pos s)) m h = (s, refl, ground arith, ground arith, ground arith)
parse_ok_guards a c (int (negsuc k)) m h = absurd (ground arith)
parse_ok_guards a c non_integer m h = absurd (ground arith)

forward : (a c : Text) (n : Number) (m : Money) → parse a c n ≡ ok m → Accepts a c n m
forward a c n m h =
    let (s, en, small, cur, matched) = parse_ok_guards a c n m h in
    let (ec, es, den) = parse_matched_sound a c s m matched in
    (
      record { currency = ap is_currency ec ∙ cur; scale = rw es small },
      ec,
      en ∙ ap num (sym es),
      subst (λ t. Denotes a t m.minor_units) (sym es) den,
    )

backward : (a c : Text) (n : Number) (m : Money) → Accepts a c n m → parse a c n ≡ ok m
unfolding parse
backward a c n m (v, ec, en, d) =
    ground (arith, v.currency, v.scale, parse_matched_complete a m.currency m.scale m.minor_units d)

-- `Money.parse` succeeds exactly when the currency is three capital letters, the scale is an
-- integer from 0 to 12 and the text is canonical with no more decimals than the scale; the
-- amount has that currency and that scale, and counts exactly the units that the text spells.
pub parse_iff : (a c : Text) (n : Number) (m : Money) → (parse a c n ≡ ok m) ↔ Accepts a c n m
parse_iff a c n m = (forward a c n m, backward a c n m)
