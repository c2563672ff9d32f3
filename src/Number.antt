-- ===== src/Number.antt =====
-- JavaScript numbers where the source asks `Number.isInteger`.
use pms_backend.Base.{ℕ, Bool, true, false, leb, if◌then◌else◌}
use pms_backend.Base.Int.{ℤ, pos}
use pms_backend.Fault.{Fault, Result, ok, err}

-- An integer, or any other value.
pub data Number : Type 0 where
  int : ℤ → Number
  non_integer : Number

abbrev pub num : ℕ → Number
num n = int (pos n)

-- `if (!Number.isInteger(n) || n < 0 || n > limit) throw e`
unfoldable pub integer_within : ℕ → Fault → Number → Result ℕ
integer_within limit e (int (pos n)) = if leb n limit then ok n else err e
integer_within limit e _ = err e

-- The results -1, 0 and 1 of a comparison.
pub data Sign : Type 0 where
  less same more : Sign

-- `comparison > 0`
abbrev pub is_more : Sign → Bool
is_more more = true
is_more less = false
is_more same = false

-- `comparison === 0`
abbrev pub is_same : Sign → Bool
is_same same = true
is_same _ = false

-- `comparison < 0`
abbrev pub is_less : Sign → Bool
is_less less = true
is_less _ = false
