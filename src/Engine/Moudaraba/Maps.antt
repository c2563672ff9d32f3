-- ===== src/Engine/Moudaraba/Maps.antt =====
-- The maps of units: their keys are distinct, and what a list of ids finds in one.
use pms_backend.Base.{
  ◌≡◌, refl, sym, ap, ◌∙◌, Bool, true, false, ◌||◌, List, [], ◌∷◌, map, arith, Bool-cases, inl, inr,
  All,
}
use pms_backend.Base.Int.{ℤ, pos, ◌+ℤ◌, int_laws}
use pms_backend.Fault.{ok, throw_if, >>=_returns, duplicate_id}
use pms_backend.Text.{Text, text_eq, text_eq_iff, text_eq_refl, includes, is_empty}
use pms_backend.Money.Amounts.{not_thrown}
use pms_backend.Engine.Moudaraba.{assert_unique}
use pms_backend.Engine.Moudaraba.Units.{UnitsMap, units_of_key, set_units, set_all, sum_values}

abbrev pub keys_of : UnitsMap → List Text
keys_of m = map (λ (e : Text × ℤ). e.0) m

abbrev pub Distinct : List Text → Type 0
Distinct [] = Unit {0}
Distinct (k ∷ ks) = (includes ks k ≡ false) × Distinct ks

-- Every one stands in the list of ids.
abbrev pub Known : List Text → List Text → Type 0
Known ids ks = All (λ k. includes ids k ≡ true) ks

pub text_eq_sym : (a b : Text) → text_eq a b ≡ text_eq b a
text_eq_sym a b = elim (Bool-cases (text_eq a b)) [
  | inl same ↦ let e : a ≡ b = (text_eq_iff a b).0 same in rw (same, e) (sym (text_eq_refl b))
  | inr other ↦ elim (Bool-cases (text_eq b a)) [
    | inl same ↦ let e : b ≡ a = (text_eq_iff b a).0 same in rw e refl
    | inr differ ↦ other ∙ sym differ
  ]
]

or_absorb : (a b : Bool) → (a || b) ≡ (a || (a || b))
or_absorb a b = ground arith

or_swap : (a b c : Bool) → (a || (b || c)) ≡ (b || (a || c))
or_swap a b c = ground arith

pub or_false : {a b : Bool} → a ≡ false → b ≡ false → (a || b) ≡ false
or_false h k = ground arith

pub or_parts : (a b : Bool) → (a || b) ≡ false → (a ≡ false) × (b ≡ false)
or_parts a b h = ground arith

or_true : (a : Bool) {b : Bool} → b ≡ true → (a || b) ≡ true
or_true a h = ground arith

pub or_right : {a b : Bool} → (a || b) ≡ true → a ≡ false → b ≡ true
or_right h k = ground arith

pub includes-set_units :
    (k x : Text) (v : ℤ) (m : UnitsMap)
    → includes (keys_of (set_units x v m)) k ≡ (text_eq x k || includes (keys_of m) k)
unfolding includes set_units
includes-set_units k x v [] = refl
includes-set_units k x v ((y, u) ∷ m) = elim (Bool-cases (text_eq y x)) [
  | inl same ↦
      let e : y ≡ x = (text_eq_iff y x).0 same in
      rw (same, e) (or_absorb (text_eq x k) (includes (keys_of m) k))
  | inr other ↦
      rw (other, includes-set_units k x v m)
        (or_swap (text_eq y k) (text_eq x k) (includes (keys_of m) k))
]

Distinct-set_units :
    (x : Text) (v : ℤ) (m : UnitsMap) → Distinct (keys_of m) → Distinct (keys_of (set_units x v m))
unfolding includes set_units
Distinct-set_units x v [] h = (refl, tt)
Distinct-set_units x v ((y, u) ∷ m) h = elim (Bool-cases (text_eq y x)) [
  | inl same ↦ rw same h
  | inr other ↦ rw other (
    includes-set_units y x v m ∙ or_false (text_eq_sym x y ∙ other) h.0,
    Distinct-set_units x v m h.1,
  )
]

Known-set_units :
    (ids : List Text) (x : Text) (v : ℤ) (m : UnitsMap)
    → includes ids x ≡ true
    → Known ids (keys_of m)
    → Known ids (keys_of (set_units x v m))
unfolding set_units
Known-set_units ids x v [] i h = (i, tt)
Known-set_units ids x v ((y, u) ∷ m) i h = elim (Bool-cases (text_eq y x)) [
  | inl same ↦ rw same h
  | inr other ↦ rw other (h.0, Known-set_units ids x v m i h.1)
]

pub set_all-Distinct : (es m : UnitsMap) → Distinct (keys_of m) → Distinct (keys_of (set_all es m))
unfolding set_all
set_all-Distinct [] m h = h
set_all-Distinct ((x, v) ∷ es) m h =
    set_all-Distinct es (set_units x v m) (Distinct-set_units x v m h)

pub set_all-Known :
    (ids : List Text) (es m : UnitsMap)
    → Known ids (keys_of es)
    → Known ids (keys_of m)
    → Known ids (keys_of (set_all es m))
unfolding set_all
set_all-Known ids [] m k h = h
set_all-Known ids ((x, v) ∷ es) m k h =
    set_all-Known ids es (set_units x v m) k.1 (Known-set_units ids x v m k.0 h)

-- What the ids find, one by one, summed.
unfoldable pub sum_found : UnitsMap → List Text → ℤ
sum_found m [] = pos 0
sum_found m (id ∷ ids) = units_of_key id m +ℤ sum_found m ids

-- What is not among the keys is not found.
not_found : (k : Text) (m : UnitsMap) → includes (keys_of m) k ≡ false → units_of_key k m ≡ pos 0
unfolding units_of_key includes
not_found k [] h = refl
not_found k ((y, u) ∷ m) h =
    let (other, rest) = or_parts (text_eq y k) (includes (keys_of m) k) h in
    rw other (not_found k m rest)

sum_found-other :
    (k : Text) (v : ℤ) (m : UnitsMap) (ids : List Text)
    → includes ids k ≡ false
    → sum_found ((k, v) ∷ m) ids ≡ sum_found m ids
unfolding sum_found units_of_key includes
sum_found-other k v m [] h = refl
sum_found-other k v m (id ∷ ids) h =
    let (other, rest) = or_parts (text_eq id k) (includes ids k) h in
    let differ : text_eq k id ≡ false = text_eq_sym k id ∙ other in
    rw differ (ap (λ z. units_of_key id m +ℤ z) (sum_found-other k v m ids rest))

zero_sum : pos 0 +ℤ pos 0 ≡ pos 0
zero_sum = omega int_laws

head_sum : (v s : ℤ) → v +ℤ s ≡ v +ℤ (pos 0 +ℤ s)
head_sum v s = omega int_laws

swap_sum : (g v s : ℤ) → g +ℤ (v +ℤ s) ≡ v +ℤ (g +ℤ s)
swap_sum g v s = omega int_laws

sum_found-head :
    (k : Text) (v : ℤ) (m : UnitsMap) (ids : List Text)
    → Distinct ids
    → includes ids k ≡ true
    → includes (keys_of m) k ≡ false
    → sum_found ((k, v) ∷ m) ids ≡ v +ℤ sum_found m ids
unfolding sum_found units_of_key includes
sum_found-head k v m [] d h f = absurd (cc h)
sum_found-head k v m (id ∷ ids) d h f = elim (Bool-cases (text_eq k id)) [
  | inl same ↦
      let e : k ≡ id = (text_eq_iff k id).0 same in
      let zero_found : units_of_key id m ≡ pos 0 = rw (← e) (not_found k m f) in
      let fresh : includes ids k ≡ false = rw e d.0 in
      rw (same, zero_found, sum_found-other k v m ids fresh) (head_sum v (sum_found m ids))
  | inr other ↦
      let known : includes ids k ≡ true = or_right h (text_eq_sym id k ∙ other) in
      rw (other, sum_found-head k v m ids d.1 known f)
        (swap_sum (units_of_key id m) v (sum_found m ids))
]

sum_found-nil : (ids : List Text) → sum_found [] ids ≡ pos 0
unfolding sum_found units_of_key
sum_found-nil [] = refl
sum_found-nil (id ∷ ids) = rw (sum_found-nil ids) zero_sum

-- Distinct ids that know all the keys find, one by one, everything in the map.
pub sum_found-sum_values :
    (m : UnitsMap) (ids : List Text)
    → Distinct ids
    → Distinct (keys_of m)
    → Known ids (keys_of m)
    → sum_found m ids ≡ sum_values m
unfolding sum_values
sum_found-sum_values [] ids d k h = sum_found-nil ids
sum_found-sum_values ((x, v) ∷ m) ids d k h =
    sum_found-head x v m ids d h.0 k.0 ∙ ap (λ z. v +ℤ z) (sum_found-sum_values m ids d k.1 h.1)

not_seen :
    (a x : Text) (seen : List Text)
    → includes seen a ≡ false
    → includes seen x ≡ true
    → text_eq a x ≡ false
not_seen a x seen new old = elim (Bool-cases (text_eq a x)) [
  | inl same ↦
      let e : a ≡ x = (text_eq_iff a x).0 same in absurd (cc (new, old, ap (includes seen) e))
  | inr other ↦ other
]

-- The values that pass `assertUnique` are distinct, and none was seen before.
assert_unique-fresh :
    (values seen : List Text)
    → assert_unique values seen ≡ ok tt
    → Distinct values × ((x : Text) → includes seen x ≡ true → includes values x ≡ false)
unfolding assert_unique includes
assert_unique-fresh [] seen h = (tt, λ x _. refl)
assert_unique-fresh (value ∷ values) seen h =
    let (_, new, h1) =
      >>=_returns (throw_if (is_empty value || includes seen value) duplicate_id) _ h in
    let (distinct, fresh) = assert_unique-fresh values (value ∷ seen) h1 in
    let (_, unseen) =
      or_parts (is_empty value) (includes seen value) (not_thrown _ duplicate_id new) in
    (
      (fresh value (rw (text_eq_refl value) refl), distinct),
      λ x s. or_false (not_seen value x seen unseen s) (fresh x (or_true (text_eq value x) s)),
    )

pub assert_unique-Distinct :
    (values : List Text) → assert_unique values [] ≡ ok tt → Distinct values
assert_unique-Distinct values h = (assert_unique-fresh values [] h).0

pub Known-cons : (x : Text) (ids ks : List Text) → Known ids ks → Known (x ∷ ids) ks
unfolding includes
Known-cons x ids [] h = tt
Known-cons x ids (k ∷ ks) h = (or_true (text_eq x k) h.0, Known-cons x ids ks h.1)

pub Known-refl : (ids : List Text) → Known ids ids
unfolding includes
Known-refl [] = tt
Known-refl (id ∷ ids) = (rw (text_eq_refl id) refl, Known-cons id ids ids (Known-refl ids))

pub Known-at : (a b : List Text) (x : Text) → Known a b → includes b x ≡ true → includes a x ≡ true
unfolding includes
Known-at a [] x h i = absurd (cc i)
Known-at a (y ∷ b) x h i = elim (Bool-cases (text_eq y x)) [
  | inl same ↦ let e : y ≡ x = (text_eq_iff y x).0 same in rw (← e) h.0
  | inr other ↦ Known-at a b x h.1 (or_right i other)
]

pub Known-trans : (a b ks : List Text) → Known a b → Known b ks → Known a ks
Known-trans a b [] h k = tt
Known-trans a b (x ∷ ks) h k = (Known-at a b x h k.0, Known-trans a b ks h k.1)
