-- ===== src/Reconciliation/Exact.antt =====
-- `normalizeExactScale` drops zeros only: what `Money.parse` reads then is what the amount spelled.
use native.Mathlib.Nat.{pow-suc, pow-zero}
use pms_backend.Base.{
  ℕ, zero, suc, ◌+◌, ◌-◌, ◌*◌, ◌^◌, ◌≤◌, ◌<◌, ◌≡◌, refl, sym, subst, ap, ◌∙◌, Bool, true, false,
  not, Option, none, some, [], ◌∷◌, ◌++◌, arith, length, take, drop, replicate, some_of, ◌==◌,
  length-take, All-take, leb, Bool-cases, inl, inr, if◌then◌else◌,
}
use pms_backend.Base.Int.{ℤ, pos, negsuc, negate}
use pms_backend.Fault.{ok, ok_injective}
use pms_backend.Number.{num}
use pms_backend.Text.{Text, pad_end}
use pms_backend.Text.Digits.{IsDigit, value_from, big_int, value_from-append}
use pms_backend.Decimal.{match_signed, units_of}
use pms_backend.Decimal.Spelling.{
  IsSpelling, spell, match_unsigned_sound, match_unsigned_complete, value_from_trailing,
}
use pms_backend.Money.{Money, parse, parse_matched, apply_sign}
use pms_backend.Money.RoundTrip.{match_signed_positive, match_signed_negative}
use pms_backend.Money.Parsing.{
  Denotes, match_signed_plain, match_signed_minus, match_signed_sound, parse_matched_ok,
  parse_ok_guards, parse_iff,
}
use pms_backend.Reconciliation.{cut_text, normalize_matched, normalize_exact_scale}

-- Units of a scale, counted at a scale that is finer by `k` decimals.
abbrev pub at_finer_scale : ℤ → ℕ → ℤ
at_finer_scale (pos n) k = pos (n * 10 ^ k)
at_finer_scale (negsuc n) k = negate (pos (suc n * 10 ^ k))

-- The text spells the units of the scale exactly, if need be with more decimals.
abbrev pub Spells : Text → ℕ → ℤ → Type 0
Spells amount scale units = (k : ℕ) × Denotes amount (scale + k) (at_finer_scale units k)

finer_zero : (z : ℤ) → at_finer_scale z 0 ≡ z
unfolding negate
finer_zero (pos n) = ap pos (omega arith)
finer_zero (negsuc n) = ground arith

negate-suc : (n : ℕ) → negate (pos (suc n)) ≡ negsuc n
unfolding negate
negate-suc n = ground arith

finer-apply_sign :
    (neg : Bool) (u k : ℕ) → apply_sign neg (u * 10 ^ k) ≡ at_finer_scale (apply_sign neg u) k
unfolding apply_sign negate
finer-apply_sign false u k = refl
finer-apply_sign true zero k = let none_left : 0 * 10 ^ k ≡ 0 = omega arith in rw none_left refl
finer-apply_sign true (suc u) k = ap (λ (z : ℤ). at_finer_scale z k) (sym (negate-suc u))

zeros_parts :
    (c : ℕ) (f : Text)
    → some_of (λ c. not (c == b'0')) (c ∷ f) ≡ false
    → (c ≡ b'0') × (some_of (λ c. not (c == b'0')) f ≡ false)
zeros_parts c f h = ground arith

value_of_zeros :
    (n : ℕ) (f : Text)
    → some_of (λ c. not (c == b'0')) f ≡ false
    → value_from n f ≡ n * 10 ^ length f
unfolding value_from
value_of_zeros n [] h = omega arith
value_of_zeros n (c ∷ f) h =
    let (e, rest) = zeros_parts c f h in
    rw (e, value_of_zeros (n * 10 + 0) f rest, pow-suc) (grind arith)

value_of_cut :
    (n scale : ℕ) (f : Text)
    → scale ≤ length f
    → some_of (λ c. not (c == b'0')) (drop scale f) ≡ false
    → value_from n f ≡ value_from n (take scale f) * 10 ^ (length f - scale)
unfolding value_from
value_of_cut n zero f l h =
    let all : length f - 0 ≡ length f = omega arith in rw all (value_of_zeros n f h)
value_of_cut n (suc s) [] l h = absurd (omega arith)
value_of_cut n (suc s) (c ∷ f) l h =
    let left : suc (length f) - suc s ≡ length f - s = omega arith in
    rw left (value_of_cut (n * 10 + (c - b'0')) s f (omega arith) h)

length_cut : (n : ℕ) (f : Text) → n ≤ length f → length (take n f) ≡ n
length_cut n f l = omega (arith, length-take n f)

-- A fraction that fills the scale adds no zeros.
units_filled :
    (whole f : Text) (s : ℕ) → length f ≡ s → units_of whole f s ≡ value_from (value_from 0 whole) f
unfolding units_of pad_end big_int
units_filled whole f s e =
    let full : length f - length f ≡ 0 = omega arith in
    rw
      (
        sym e,
        value_from-append 0 whole (f ++ replicate (length f - length f) b'0'),
        value_from-append (value_from 0 whole) f (replicate (length f - length f) b'0'),
        value_from_trailing,
        full,
        pow-zero,
      )
      (omega arith)

units_of_cut :
    (whole f : Text) (s : ℕ)
    → s ≤ length f
    → some_of (λ c. not (c == b'0')) (drop s f) ≡ false
    → units_of whole f (length f) ≡ units_of whole (take s f) s * 10 ^ (length f - s)
units_of_cut whole f s l h =
    units_filled whole f (length f) refl
    ∙ value_of_cut (value_from 0 whole) s f l h
    ∙ ap (λ (n : ℕ). n * 10 ^ (length f - s))
        (sym (units_filled whole (take s f) s (length_cut s f l)))

spell-IsSpelling :
    (t whole f : Text) (s : ℕ)
    → IsSpelling t whole f
    → IsSpelling (spell whole (take s f)) whole (take s f)
spell-IsSpelling t whole f s p = record {
  text = refl;
  integer_digits = p.integer_digits;
  canonical = p.canonical;
  fraction_digits = All-take IsDigit s f p.fraction_digits;
}

pub num_injective : (a b : ℕ) → num a ≡ num b → a ≡ b
num_injective a b h = cc

match_cut :
    (a whole f : Text) (neg : Bool) (s : ℕ)
    → match_signed a ≡ some (neg, whole, f)
    → match_signed ((if neg then b'-' ∷ [] else []) ++ spell whole (take s f))
      ≡ some (neg, whole, take s f)
match_cut a whole f false s h =
    let p = match_unsigned_sound a whole f (match_signed_plain a whole f h) in
    match_signed_positive (spell whole (take s f)) whole (take s f) (
      match_unsigned_complete (spell whole (take s f)) whole (take s f)
        (spell-IsSpelling a whole f s p))
match_cut a whole f true s h =
    let (t, _, m) = match_signed_minus a whole f h in
    match_signed_negative (spell whole (take s f)) whole (take s f) (
      match_unsigned_complete (spell whole (take s f)) whole (take s f)
        (spell-IsSpelling t whole f s (match_unsigned_sound t whole f m)))

cut_text_lem :
    (neg : Bool) (whole f : Text) (s : ℕ)
    → s < length f
    → cut_text neg whole f s ≡ (if neg then b'-' ∷ [] else []) ++ spell whole (take s f)
cut_text_lem neg whole f zero l = refl
cut_text_lem neg whole [] (suc s) l = absurd (omega arith)
cut_text_lem false whole (c ∷ f) (suc s) l = refl
cut_text_lem true whole (c ∷ f) (suc s) l = refl

cut-Spells :
    (a whole f c : Text) (neg : Bool) (s : ℕ) (m : Money)
    → match_signed a ≡ some (neg, whole, f)
    → s < length f
    → some_of (λ x. not (x == b'0')) (drop s f) ≡ false
    → parse (cut_text neg whole f s) c (num s) ≡ ok m
    → Spells a s m.minor_units
cut-Spells a whole f c neg s m h l zeros parsed =
    let k : ℕ = length f - s in
    let full : s + k ≡ length f = omega arith in
    let short : s ≤ length f = omega arith in
    let (s1, es, _, _, matched) = parse_ok_guards _ c (num s) m parsed in
    let same : s ≡ s1 = num_injective s s1 es in
    let text = ap match_signed (cut_text_lem neg whole f s l) ∙ match_cut a whole f neg s h in
    let (_, _, _, units) = parse_matched_ok neg whole (take s f) c s m (
      rw text at (
        subst (λ (x : ℕ). parse_matched (match_signed (cut_text neg whole f s)) c x ≡ ok m)
          (sym same) matched)) in
    (
      k,
      subst (λ (x : ℕ). Denotes a x (at_finer_scale m.minor_units k)) (sym full)
          (subst (λ (z : ℤ). Denotes a (length f) z)
            (ap (apply_sign neg) (units_of_cut whole f s short zeros)
              ∙ finer-apply_sign neg (units_of whole (take s f) s) k
              ∙ ap (λ (z : ℤ). at_finer_scale z k) (sym units))
            (match_signed_sound a neg whole f (length f) h (omega arith))),
    )

kept-Spells : (a c : Text) (s : ℕ) (m : Money) → parse a c (num s) ≡ ok m → Spells a s m.minor_units
kept-Spells a c s m h =
    let (_, _, en, den) = (parse_iff a c (num s) m).0 h in
    let same : m.scale ≡ s = sym (num_injective s m.scale en) in
    let whole : s + 0 ≡ s = omega arith in
    (
      0,
      subst (λ (x : ℕ). Denotes a x (at_finer_scale m.minor_units 0)) (same ∙ sym whole)
          (subst (λ (z : ℤ). Denotes a m.scale z) (sym (finer_zero m.minor_units)) den),
    )

matched-Spells :
    (a t c : Text) (o : Option (Bool × Text × Text)) (s : ℕ) (m : Money)
    → match_signed a ≡ o
    → normalize_matched a o s ≡ ok t
    → parse t c (num s) ≡ ok m
    → Spells a s m.minor_units
unfolding normalize_matched
matched-Spells a t c none s m e h k =
    kept-Spells a c s m (subst (λ (x : Text). parse x c (num s) ≡ ok m) (sym (ok_injective h)) k)
matched-Spells a t c (some (neg, whole, f)) s m e h k = elim (Bool-cases (leb (length f) s)) [
  | inl fits ↦
      let it : a ≡ t = ok_injective (rw fits at h) in
      kept-Spells a c s m (subst (λ (x : Text). parse x c (num s) ≡ ok m) (sym it) k)
  | inr longer ↦ elim (Bool-cases (some_of (λ x. not (x == b'0')) (drop s f))) [
    | inl bad ↦ absurd (cc (rw (longer, bad) at h))
    | inr zeros ↦
        let it : cut_text neg whole f s ≡ t = ok_injective (rw (longer, zeros) at h) in
        cut-Spells a whole f c neg s m e (ground arith) zeros
          (subst (λ (x : Text). parse x c (num s) ≡ ok m) (sym it) k)
  ]
]

-- An amount that is normalized and then parsed counts the units that its own text spells.
pub normalize_exact_scale-Spells :
    (a t c : Text) (s : ℕ) (m : Money)
    → normalize_exact_scale a s ≡ ok t
    → parse t c (num s) ≡ ok m
    → Spells a s m.minor_units
normalize_exact_scale-Spells a t c s m h k = matched-Spells a t c (match_signed a) s m refl h k
