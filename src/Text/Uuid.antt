-- ===== src/Text/Uuid.antt =====
-- The regular expression for identifiers that the source repeats.
use pms_backend.Base.{
  ℕ, Bool, true, false, ◌&&◌, ◌||◌, List, [], ◌∷◌, ◌++◌, leb, ◌==◌, replicate, map, ◌+◌,
  if◌then◌else◌,
}
use pms_backend.Text.{Text, is_digit, is_upper}

-- `[0-9a-f]` under the flag `i`.
abbrev is_hex : ℕ → Bool
is_hex c = is_digit c || (leb b'a' c && leb c b'f') || (leb b'A' c && leb c b'F')

-- `[1-5]` and `[89ab]`, under the flag `i`.
abbrev is_version : ℕ → Bool
is_version c = leb b'1' c && leb c b'5'

abbrev is_variant : ℕ → Bool
is_variant c = c == b'8' || c == b'9' || c == b'a' || c == b'b' || c == b'A' || c == b'B'

abbrev is_dash : ℕ → Bool
is_dash c = c == b'-'

-- One class for each character, to the end of the text.
match_classes : List (ℕ → Bool) → Text → Bool
match_classes [] [] = true
match_classes (p ∷ ps) (c ∷ s) = p c && match_classes ps s
match_classes _ _ = false

-- `/^[0-9a-f]{8}-[0-9a-f]{4}-[1-5][0-9a-f]{3}-[89ab][0-9a-f]{3}-[0-9a-f]{12}$/i`
unfoldable pub is_uuid : Text → Bool
unfolding match_classes
is_uuid = match_classes (
    replicate 8 is_hex
    ++ is_dash
      ∷ (replicate 4 is_hex
          ++ is_dash
            ∷ is_version
            ∷ (replicate 3 is_hex
                ++ is_dash ∷ is_variant ∷ (replicate 3 is_hex ++ is_dash ∷ replicate 12 is_hex))))

abbrev to_lower : ℕ → ℕ
to_lower c = if is_upper c then c + 32 else c

-- `$1::uuid` on the text of a UUID: the value that PostgreSQL compares, as it prints it.
unfoldable pub as_uuid : Text → Text
as_uuid s = map to_lower s
