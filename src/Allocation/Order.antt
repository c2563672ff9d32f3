-- ===== src/Allocation/Order.antt =====
-- The sort of the shares: a permutation of the positions, by falling remainder.

use pms_backend.Base.{
  ℕ, suc, ◌+◌, ◌≤◌, ◌≡◌, refl, true, false, List, [], ◌∷◌, map, arith, length, All, ◌==◌,
  if◌then◌else◌,
}
use pms_backend.Number.{Sign, is_more}
use pms_backend.Text.{Text}
use pms_backend.Allocation.{Share, Positioned, compare_shares, insert_sorted, sort_from}

-- How often a position stands in a list.
abbrev pub count : ℕ → List ℕ → ℕ
count i [] = 0
count i (p ∷ ps) = (if i == p then 1 else 0) + count i ps

abbrev pub keys : List Positioned → List ℕ
keys = map (λ p. p.0)

-- Falling remainders, from a bound on.
abbrev pub Falling : ℕ → List Positioned → Type 0
Falling b [] = Unit
Falling b (p ∷ ps) = (p.1.remainder ≤ b) × Falling p.1.remainder ps

abbrev pub remainders : List Positioned → ℕ
remainders [] = 0
remainders (p ∷ ps) = p.1.remainder + remainders ps

module _ (locale_compare : Text → Text → Sign) where
  count-insert_sorted :
      (i : ℕ) (x : Positioned) (ps : List Positioned)
      → count i (keys (insert_sorted locale_compare x ps))
        ≡ (if i == x.0 then 1 else 0) + count i (keys ps)
  unfolding insert_sorted
  count-insert_sorted i x [] = refl
  count-insert_sorted i x (y ∷ ys) = ground (arith, count-insert_sorted i x ys)

  pub count-sort_from :
      (i : ℕ) (sorted xs : List Positioned)
      → count i (keys (sort_from locale_compare sorted xs))
        ≡ count i (keys sorted) + count i (keys xs)
  unfolding sort_from
  count-sort_from i sorted [] = omega arith
  count-sort_from i sorted (x ∷ xs) = omega (
    arith,
    count-sort_from i (insert_sorted locale_compare x sorted) xs,
    count-insert_sorted i x sorted,
  )

  length-insert_sorted :
      (x : Positioned) (ps : List Positioned)
      → length (insert_sorted locale_compare x ps) ≡ suc (length ps)
  unfolding insert_sorted
  length-insert_sorted x [] = refl
  length-insert_sorted x (y ∷ ys) = ground (arith, length-insert_sorted x ys)

  pub length-sort_from :
      (sorted xs : List Positioned)
      → length (sort_from locale_compare sorted xs) ≡ length sorted + length xs
  unfolding sort_from
  length-sort_from sorted [] = omega arith
  length-sort_from sorted (x ∷ xs) = omega (
    arith,
    length-sort_from (insert_sorted locale_compare x sorted) xs,
    length-insert_sorted x sorted,
  )

  -- What the comparator puts after has no larger remainder; what it does not has no smaller one.
  is_more-compare_shares :
      (l r : Share)
      → (is_more (compare_shares locale_compare l r) ≡ true → l.remainder ≤ r.remainder)
        × (is_more (compare_shares locale_compare l r) ≡ false → r.remainder ≤ l.remainder)
  unfolding compare_shares
  is_more-compare_shares l r = ground arith

  Falling-insert_sorted :
      (b : ℕ) (x : Positioned) (ps : List Positioned)
      → Falling b ps
      → x.1.remainder ≤ b
      → Falling b (insert_sorted locale_compare x ps)
  unfolding insert_sorted
  Falling-insert_sorted b x [] h l = (l, tt)
  Falling-insert_sorted b x (y ∷ ys) (p, h) l =
      ground (arith, is_more-compare_shares y.1 x.1, Falling-insert_sorted y.1.remainder x ys h)

  pub Falling-sort_from :
      (b : ℕ) (sorted xs : List Positioned)
      → Falling b sorted
      → All (λ p. p.1.remainder ≤ b) xs
      → Falling b (sort_from locale_compare sorted xs)
  unfolding sort_from
  Falling-sort_from b sorted [] h l = h
  Falling-sort_from b sorted (x ∷ xs) h (l, ls) =
      Falling-sort_from b (insert_sorted locale_compare x sorted) xs
        (Falling-insert_sorted b x sorted h l) ls

  module _ (P : Positioned → Type 0) where
    All-insert_sorted :
        (x : Positioned) (ps : List Positioned)
        → P x
        → All P ps
        → All P (insert_sorted locale_compare x ps)
    unfolding insert_sorted
    All-insert_sorted x [] p h = (p, tt)
    All-insert_sorted x (y ∷ ys) p (q, h) = ground (arith, All-insert_sorted x ys p h)

    pub All-sort_from :
        (sorted xs : List Positioned)
        → All P sorted
        → All P xs
        → All P (sort_from locale_compare sorted xs)
    unfolding sort_from
    All-sort_from sorted [] h k = h
    All-sort_from sorted (x ∷ xs) h (p, k) =
        All-sort_from (insert_sorted locale_compare x sorted) xs (All-insert_sorted x sorted p h) k

  remainders-insert_sorted :
      (x : Positioned) (ps : List Positioned)
      → remainders (insert_sorted locale_compare x ps) ≡ x.1.remainder + remainders ps
  unfolding insert_sorted
  remainders-insert_sorted x [] = refl
  remainders-insert_sorted x (y ∷ ys) = ground (arith, remainders-insert_sorted x ys)

  pub remainders-sort_from :
      (sorted xs : List Positioned)
      → remainders (sort_from locale_compare sorted xs) ≡ remainders sorted + remainders xs
  unfolding sort_from
  remainders-sort_from sorted [] = omega arith
  remainders-sort_from sorted (x ∷ xs) = omega (
    arith,
    remainders-sort_from (insert_sorted locale_compare x sorted) xs,
    remainders-insert_sorted x sorted,
  )
