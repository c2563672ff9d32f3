-- ===== src/Allocation/Fair.antt =====
-- The largest remainder method as a whole: what `allocateProportionally` hands out.
use native.Mathlib.Decide.{dec_lt}
use native.Mathlib.Nat.{div-add-mod', mod-lt}
use pms_backend.Base.{ℕ, ◌+◌, ◌-◌, ◌*◌, ◌/◌, ◌%◌, ◌≤◌, ◌<◌, ◌≡◌, List, map, arith, length}
use pms_backend.Number.{Sign}
use pms_backend.Text.{Text}
use pms_backend.Allocation.{
  Entry, Share, share_of, total_weight, sum_units, priority_of, allocate_units,
}
use pms_backend.Allocation.Loop.{residual_exact, sum_units-distribute}
use pms_backend.Allocation.Quota.{units_at, remainder_at, Falling-front}
use pms_backend.Allocation.Picks.{
  weight_at, share_at, shares, residual, picked, length-shares, length-priority, entries_exist,
  priority_below, units_at-allocate_units, picked_split, picked_positive, sorted, sorted-Falling,
  sorted-Tagged,
}

quota_arith :
    (x w u q r p : ℕ)
    → q * w + r ≡ x
    → r < w
    → p ≤ 1
    → (0 < p → 0 < r)
    → u ≡ q + p
    → (x < (u + 1) * w) × (u * w < x + w)
quota_arith x w u q r p e l s z h = elim (dec_lt 0 p) [
  | yes y ↦ let one : u ≡ q + 1 = omega arith in let rp : 0 < r = z y in rw one (omega arith)
  | no n ↦ let same_units : u ≡ q = omega arith in rw same_units (omega arith)
]

module _ (locale_compare : Text → Text → Sign) (t : ℕ) (es : List Entry)
    (pos_w : 0 < total_weight es) where
  abbrev ss : List Share
  ss = map (share_of t (total_weight es)) es

  -- Every unit of the total is handed out, and no more.
  pub sum_units-allocate_units : sum_units (allocate_units locale_compare t es) ≡ t
  unfolding allocate_units shares
  sum_units-allocate_units = omega (
    arith,
    sum_units-distribute (t - sum_units ss) 0 (priority_of locale_compare ss) ss
        (priority_below locale_compare t es pos_w)
        (omega (
          arith,
          length-priority locale_compare t es pos_w,
          length-shares locale_compare t es pos_w,
          entries_exist locale_compare t es pos_w,
        )),
    (residual_exact t es pos_w).0,
  )

  gain :
      (i : ℕ)
      → i < length es
      → units_at i (allocate_units locale_compare t es)
        ≡ t * weight_at i es / total_weight es + picked locale_compare t es pos_w i
  unfolding shares
  gain i l = omega (
    arith,
    units_at-allocate_units locale_compare t es pos_w i l,
    (share_at t (total_weight es) i es l).0,
  )

  -- The quota rule: an entry's whole units differ from its exact part of the total by less than
  -- one unit, on either side.
  pub allocate_units-quota :
      (i : ℕ)
      → i < length es
      → let u = units_at i (allocate_units locale_compare t es) in
        let w = total_weight es in
        (t * weight_at i es < (u + 1) * w) × (u * w < t * weight_at i es + w)
  unfolding shares
  allocate_units-quota i l =
      let w = total_weight es in
      let x = t * weight_at i es in
      quota_arith x w (units_at i (allocate_units locale_compare t es)) (x / w) (x % w)
        (picked locale_compare t es pos_w i) (div-add-mod' x w) (mod-lt x pos_w)
        (omega (arith, picked_split locale_compare t es pos_w i l))
        (λ h. rw (← (share_at t w i es l).1) (picked_positive locale_compare t es pos_w i h))
        (gain i l)

  -- The residual units go to the largest remainders: an entry that got one has no smaller
  -- remainder than an entry that got none.
  pub allocate_units-largest :
      (i j : ℕ)
      → i < length es
      → j < length es
      → let final = allocate_units locale_compare t es in
        let w = total_weight es in
        units_at i final ≡ t * weight_at i es / w + 1
        → units_at j final ≡ t * weight_at j es / w
        → t * weight_at j es % w ≤ t * weight_at i es % w
  unfolding shares priority_of sorted picked residual
  allocate_units-largest i j li lj got none_got =
      rw (← (share_at t (total_weight es) i es li).1, ← (share_at t (total_weight es) j es lj).1)
        (Falling-front (λ k. remainder_at k ss) (total_weight es)
          (residual locale_compare t es pos_w) i j (sorted locale_compare t es pos_w)
          (sorted-Falling locale_compare t es pos_w) (sorted-Tagged locale_compare t es pos_w)
          (omega (arith, gain i li, got))
          (omega (arith, gain j lj, none_got, picked_split locale_compare t es pos_w j lj)))
