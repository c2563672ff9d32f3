-- ===== src/Allocation/Picks.antt =====
-- What `allocate_units` adds to the quotient of each entry: how often its position is picked.
use native.Mathlib.Decide.{dec_lt}
use pms_backend.Base.{
  ℕ, zero, suc, ◌+◌, ◌-◌, ◌*◌, ◌/◌, ◌%◌, ◌≤◌, ◌<◌, ◌≡◌, refl, ap, ◌∙◌, List, [], ◌∷◌, map, arith,
  length, length-map, All, take, drop, ◌==◌, if◌then◌else◌, ltb,
}
use pms_backend.Number.{Sign}
use pms_backend.Text.{Text}
use pms_backend.Allocation.{
  Entry, Share, Positioned, share_of, total_weight, sum_units, positions, sort_shares, sort_from,
  priority_of, allocate_units,
}
use pms_backend.Allocation.Loop.{sum_remainders, remainders_below, residual_exact}
use pms_backend.Allocation.Order.{
  count, Falling, count-sort_from, length-sort_from, Falling-sort_from, All-sort_from, remainders,
  remainders-sort_from,
}
use pms_backend.Allocation.Quota.{
  units_at, remainder_at, units_at-distribute, count-positions, Tagged, Falling-positive,
}

length-positions : (k : ℕ) (ss : List Share) → length (positions k ss) ≡ length ss
unfolding positions
length-positions k [] = refl
length-positions k (s ∷ ss) = ap suc (length-positions (suc k) ss)

positions-Tagged :
    (R : ℕ → ℕ) (k : ℕ) (ss : List Share)
    → ((i : ℕ) → remainder_at i ss ≡ R (k + i))
    → Tagged R (positions k ss)
unfolding positions
positions-Tagged R k [] h = tt
positions-Tagged R k (s ∷ ss) h =
    let e0 : k + 0 ≡ k = omega arith in
    (
      h 0 ∙ ap R e0,
      positions-Tagged R (suc k) ss
          (λ i. let e : k + suc i ≡ suc k + i = omega arith in h (suc i) ∙ ap R e),
    )

positions-below :
    (w k : ℕ) (ss : List Share)
    → All (λ s. s.remainder < w) ss
    → All (λ p. p.1.remainder < w) (positions k ss)
unfolding positions
positions-below w k [] h = tt
positions-below w k (s ∷ ss) (l, h) = (l, positions-below w (suc k) ss h)

All-weaken :
    (w : ℕ) (ps : List Positioned)
    → All (λ p. p.1.remainder < w) ps
    → All (λ p. p.1.remainder ≤ w) ps
All-weaken w [] h = tt
All-weaken w (p ∷ ps) (l, h) = (omega arith, All-weaken w ps h)

-- A list whose positions count at most once each below `n`, and never from `n` on.
below : {n : ℕ} (p : ℕ) (ps : List ℕ) → (n ≤ p → (if p == p then 1 else 0) + count p ps ≡ 0) → p < n
below {n} p ps h = elim (dec_lt p n) [ yes l ↦ l | no l ↦ absurd (ground (arith, h (omega arith))) ]

keys-below : (n : ℕ) (ps : List ℕ) → ((i : ℕ) → n ≤ i → count i ps ≡ 0) → All (λ p. p < n) ps
keys-below n [] h = tt
keys-below n (p ∷ ps) h = (below p ps (h p), keys-below n ps (λ i l. omega (arith, h i l)))

pub count-take-drop :
    (i r : ℕ) (ps : List ℕ) → count i (take r ps) + count i (drop r ps) ≡ count i ps
count-take-drop i zero ps = omega arith
count-take-drop i (suc r) [] = omega arith
count-take-drop i (suc r) (p ∷ ps) = omega (arith, count-take-drop i r ps)

-- The weight of the entry at a position.
abbrev pub weight_at : ℕ → List Entry → ℕ
weight_at i [] = 0
weight_at zero (e ∷ es) = e.weight
weight_at (suc i) (e ∷ es) = weight_at i es

pub share_at :
    (t w i : ℕ) (es : List Entry)
    → i < length es
    → (units_at i (map (share_of t w) es) ≡ t * weight_at i es / w)
      × (remainder_at i (map (share_of t w) es) ≡ t * weight_at i es % w)
unfolding share_of
share_at t w i [] l = absurd (omega arith)
share_at t w zero (e ∷ es) l = (refl, refl)
share_at t w (suc i) (e ∷ es) l = share_at t w i es (omega arith)

sum_remainders-positions :
    (k : ℕ) (ss : List Share) → remainders (positions k ss) ≡ sum_remainders ss
unfolding positions
sum_remainders-positions k [] = refl
sum_remainders-positions k (s ∷ ss) = omega (arith, sum_remainders-positions (suc k) ss)

module _ (locale_compare : Text → Text → Sign) (t : ℕ) (es : List Entry)
    (pos_w : 0 < total_weight es) where
  w : ℕ
  w = total_weight es

  unfoldable pub shares : List Share
  shares = map (share_of t (total_weight es)) es

  unfoldable pub sorted : List Positioned
  sorted = sort_shares locale_compare (positions 0 shares)

  pub length-shares : length shares ≡ length es
  unfolding shares
  length-shares = length-map (share_of t (total_weight es)) es

  pub count_priority :
      (i : ℕ) → count i (priority_of locale_compare shares) ≡ (if ltb i (length es) then 1 else 0)
  unfolding priority_of sort_shares
  count_priority i =
      rw (count-sort_from locale_compare i [] (positions 0 shares), count-positions i 0 shares)
        (rw length-shares (ground arith))

  pub priority_below : All (λ p. p < length shares) (priority_of locale_compare shares)
  priority_below =
      keys-below (length shares) _ λ i l. ground (arith, count_priority i, length-shares)

  pub length-priority : length (priority_of locale_compare shares) ≡ length shares
  unfolding priority_of sort_shares
  length-priority =
      length-map _ (sort_from locale_compare [] (positions 0 shares))
      ∙ omega (
        arith,
        length-sort_from locale_compare [] (positions 0 shares),
        length-positions 0 shares,
      )

  pub entries_exist : 0 < length es
  entries_exist = go es pos_w
    where
      go : (xs : List Entry) → 0 < total_weight xs → 0 < length xs
      go [] h = h
      go (x ∷ xs) h = omega arith

  -- The whole units before and after the residual.
  unfoldable pub residual : ℕ
  residual = t - sum_units shares

  unfoldable pub picked : ℕ → ℕ
  picked i = count i (take residual (priority_of locale_compare shares))

  pub units_at-allocate_units :
      (i : ℕ)
      → i < length es
      → units_at i (allocate_units locale_compare t es) ≡ units_at i shares + picked i
  unfolding allocate_units shares picked residual
  units_at-allocate_units i l =
      units_at-distribute (t - sum_units shares) 0 i (priority_of locale_compare shares) shares
        (omega (arith, length-priority, length-shares, (residual_exact t es pos_w).2))
        (omega (arith, length-shares))

  pub picked_split :
      (i : ℕ)
      → i < length es
      → picked i + count i (drop residual (priority_of locale_compare shares)) ≡ 1
  unfolding picked
  picked_split i l =
      count-take-drop i residual (priority_of locale_compare shares)
      ∙ ground (arith, count_priority i)

  pub sorted-Tagged : Tagged (λ i. remainder_at i shares) sorted
  unfolding sorted sort_shares
  sorted-Tagged =
      All-sort_from locale_compare (λ p. p.1.remainder ≡ remainder_at p.0 shares) []
        (positions 0 shares) tt
        (positions-Tagged (λ i. remainder_at i shares) 0 shares
          (λ i. let e : i ≡ 0 + i = omega arith in ap (λ k. remainder_at k shares) e))

  sorted_below : All (λ p. p.1.remainder < total_weight es) sorted
  unfolding sorted sort_shares shares
  sorted_below =
      All-sort_from locale_compare (λ p. p.1.remainder < total_weight es) [] (positions 0 shares) tt
        (positions-below (total_weight es) 0 shares (remainders_below t (total_weight es) es pos_w))

  pub sorted-Falling : Falling (total_weight es) sorted
  unfolding sorted sort_shares shares
  sorted-Falling = Falling-sort_from locale_compare (total_weight es) [] (positions 0 shares) tt (
      All-weaken (total_weight es) (positions 0 shares) (
        positions-below (total_weight es) 0 shares (remainders_below t (total_weight es) es pos_w)))

  remainders-sorted : remainders sorted ≡ total_weight es * residual
  unfolding sorted sort_shares shares residual
  remainders-sorted = omega (
    arith,
    remainders-sort_from locale_compare [] (positions 0 shares),
    sum_remainders-positions 0 shares,
    (residual_exact t es pos_w).1,
  )

  pub picked_positive : (i : ℕ) → 0 < picked i → 0 < remainder_at i shares
  unfolding picked priority_of sorted
  picked_positive i h =
      Falling-positive (λ k. remainder_at k shares) (total_weight es) (total_weight es) residual i
        sorted sorted-Falling sorted-Tagged sorted_below (omega (arith, remainders-sorted)) h
