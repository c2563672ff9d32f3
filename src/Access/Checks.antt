-- ===== src/Access/Checks.antt =====
-- When each check of `evaluateAuthorization` gives no reason to deny.
use pms_backend.Base.{
  ◌≡◌, ◌≢◌, ◌↔◌, refl, sym, ap, subst, some_injective, Bool, true, false, ◌&&◌, not, if◌then◌else◌,
  Option, none, some, List, [], ◌∷◌, arith, length, ◌==◌,
}
use pms_backend.Base.Int.{ℤ, ltb_ℤ}
use pms_backend.Number.{is_more}
use pms_backend.Text.{Text, includes}
use pms_backend.Access.{
  amount_exceeds_limit, invalid_amount, AuthorizationDenialReason, is_unsigned_decimal,
  compare_unsigned_decimals, deny_if, out_of, is_before, is_after, reversed_period, period_reasons,
  amount_reasons,
}

-- An absent or empty id asks for nothing; another one must be listed.
abbrev pub InScope : List Text → Option Text → Type 0
InScope ids o = (id : Text) → o ≡ some id → id ≢ [] → includes ids id ≡ true

pub listed : (found : Bool) → not found ≡ false → found ≡ true
listed found h = ground arith

pub out_of_iff : (ids : List Text) (o : Option Text) → (out_of ids o ≡ false) ↔ InScope ids o
out_of_iff ids none = (λ h id e. cc, λ h. refl)
out_of_iff ids (some []) = (λ h id e n. absurd (n (sym (some_injective e))), λ h. refl)
out_of_iff ids (some (c ∷ s)) = (
  λ h id e n.
      subst (λ t. includes ids t ≡ true) (some_injective e) (listed (includes ids (c ∷ s)) h),
  λ h. ap not (h (c ∷ s) refl (λ e. cc)),
)

pub deny_iff :
    (test : Bool) (reason : AuthorizationDenialReason) → (deny_if test reason ≡ []) ↔ (test ≡ false)
deny_iff test reason = ground arith

pub length_zero_iff {ℓ} : {T : Type ℓ} (xs : List T) → (length xs == 0 ≡ true) ↔ (xs ≡ [])
length_zero_iff [] = ground arith
length_zero_iff (x ∷ xs) = ground arith

-- A delegation whose bounds are read is in force and high enough.
abbrev pub InForce : ℤ → Option ℤ → Option ℤ → ℤ → ℤ → Type 0
InForce evaluated from until level required =
    (reversed_period from until ≡ false)
    × (is_after from evaluated ≡ false)
    × (is_before until evaluated ≡ false)
    × (ltb_ℤ level required ≡ false)

pub period_iff :
    (evaluated : ℤ) (from until : Option ℤ) (level required : ℤ)
    → (period_reasons evaluated from until level required ≡ [])
      ↔ InForce evaluated from until level required
unfolding period_reasons
period_iff evaluated from until level required = ground (arith)

-- An amount within the limit of the subject.
abbrev pub WithinLimit : Text → Text → Type 0
WithinLimit amount maximum =
    (is_unsigned_decimal amount ≡ true)
    × (is_unsigned_decimal maximum ≡ true)
    × (is_more (compare_unsigned_decimals amount maximum) ≡ false)

amount_shape :
    (p q r : Bool)
    → ((if p && q then deny_if r amount_exceeds_limit else invalid_amount ∷ []) ≡ [])
      ↔ ((p ≡ true) × (q ≡ true) × (r ≡ false))
amount_shape p q r = ground arith

pub amount_iff :
    (amount : Option Text) (maximum : Text)
    → (amount_reasons amount maximum ≡ []) ↔ ((a : Text) → amount ≡ some a → WithinLimit a maximum)
unfolding amount_reasons
amount_iff none maximum = (λ h a e. cc, λ h. refl)
amount_iff (some a) maximum = (
  λ h a' e. subst (λ t. WithinLimit t maximum) (some_injective e) ((amount_shape _ _ _).0 h),
  λ h. (amount_shape _ _ _).1 (h a refl),
)
