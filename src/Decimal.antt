-- ===== src/Decimal.antt =====
-- The decimal texts of amounts, weights and rates: the regular expressions of the source with
-- their capture groups, and the scaling of a matched text to whole units.
pub mod Scan
pub mod Spelling
use pms_backend.Base.{
  ℕ, zero, suc, ◌-◌, ◌≡◌, refl, Bool, true, false, ◌&&◌, Option, none, some, List, [], ◌∷◌, ◌++◌,
  arith, leb, ltb, ◌==◌, if◌then◌else◌, length, take, drop,
}
use pms_backend.Base.Int.{ℤ, pos, negsuc, negate, magnitude, ltb_ℤ}
use pms_backend.Text.{Text, is_digit, is_empty, pad_start, pad_end}
use pms_backend.Text.Digits.{big_int, to_string}

-- The longest run of digits in front, and the rest.
unfoldable pub span_digits : Text → Text × Text
span_digits [] = ([], [])
span_digits (c ∷ s) =
    let (ds, rest) = span_digits s in if is_digit c then (c ∷ ds, rest) else ([], c ∷ s)

-- `0|[1-9][0-9]*`, over a run of digits.
unfoldable pub is_integer_part : Text → Bool
is_integer_part [] = false
is_integer_part (c ∷ s) = if c == b'0' then is_empty s else true

-- `(?:\.([0-9]+))?$`, with `match[3] ?? ''`.
unfoldable pub fraction_of : Text → Option Text
unfolding span_digits
fraction_of [] = some []
fraction_of (c ∷ s) =
    let (ds, rest) = span_digits s in
    if c == b'.' && (if is_empty ds then false else true) && is_empty rest then some ds else none

-- `/^(0|[1-9][0-9]*)(?:\.([0-9]+))?$/.exec(text)`, as the integer part and the fraction.
unfoldable pub match_unsigned : Text → Option (Text × Text)
unfolding span_digits is_integer_part fraction_of
match_unsigned s =
    let (ds, rest) = span_digits s in
    if is_integer_part ds
    then elim (fraction_of rest) [ none ↦ none | some f ↦ some (ds, f) ]
    else none

-- `/^(-?)(0|[1-9][0-9]*)(?:\.([0-9]+))?$/.exec(text)`; the first part is `match[1] === '-'`.
unfoldable pub match_signed : Text → Option (Bool × Text × Text)
unfolding match_unsigned
match_signed [] = none
match_signed (c ∷ s) =
    if c == b'-'
    then elim (match_unsigned s) [ none ↦ none | some (i, f) ↦ some (true, i, f) ]
    else elim (match_unsigned (c ∷ s)) [ none ↦ none | some (i, f) ↦ some (false, i, f) ]

-- `` BigInt(`${integer}${fraction.padEnd(scale, '0')}`) ``
unfoldable pub units_of : Text → Text → ℕ → ℕ
units_of integer fraction scale = big_int (integer ++ pad_end fraction scale b'0')

-- `digits.slice(0, -scale)` and `digits.slice(-scale)` for a positive scale.
abbrev pub slice_front : Text → ℕ → Text
slice_front s n = take (length s - n) s

abbrev pub slice_back : Text → ℕ → Text
slice_back s n = drop (length s - n) s

-- `` scale === 0 ? digits : `${digits.slice(0, -scale)}.${digits.slice(-scale)}` `` over
-- `units.toString().padStart(scale + 1, '0')`.
unfoldable pub place_point : Text → ℕ → Text
place_point s zero = s
place_point s (suc k) = slice_front s (suc k) ++ b'.' ∷ slice_back s (suc k)

unfoldable pub padded : ℕ → ℕ → Text
padded units scale = pad_start (to_string units) (suc scale) b'0'

unfoldable pub print_unsigned : ℕ → ℕ → Text
print_unsigned units scale = place_point (padded units scale) scale

-- What a run on concrete texts opens.
unfoldable pub running : Unit {0}
unfolding match_signed units_of big_int pad_end print_unsigned padded place_point pad_start
    to_string
running = tt
