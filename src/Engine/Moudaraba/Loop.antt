-- ===== src/Engine/Moudaraba/Loop.antt =====
-- The loop of `allocateUnits` hands out the residual, unit by unit.
use native.Mathlib.Nat.{mod-lt}
use pms_backend.Base.{
  ℕ, zero, suc, ◌+◌, ◌<◌, ◌%◌, ◌≡◌, refl, sym, ap, ◌∙◌, subst, false, not, List, [], ◌∷◌, map,
  arith, length, All, Bool-cases, inl, inr, ◌==◌,
}
use pms_backend.Base.Int.{ℤ, pos, pos_part, neg_part, ◌+ℤ◌, ◌-ℤ◌, ◌≤ℤ◌, int_laws}
use pms_backend.Fault.{ok, throw_if, >>=_returns, ok_injective, weights_required, zero_weights}
use pms_backend.Number.{Sign, is_more}
use pms_backend.Text.{Text}
use pms_backend.Money.Amounts.{not_thrown}
use pms_backend.Engine.{Decimals}
use pms_backend.Engine.Moudaraba.Units.{
  UnitsMap, Entry, Share, Positioned, sum_units, positions, pick, bump, distribute, insert_sorted,
  compare_shares, sort_from, distributed, shares_of, total_weight, entries_of, allocate_units,
}
use pms_backend.Engine.Moudaraba.Maps.{
  keys_of, Distinct, Known, set_all-Distinct, set_all-Known, Known-refl,
}

one_more : (a s : ℤ) → (a +ℤ pos 1) +ℤ s ≡ a +ℤ s +ℤ pos 1
one_more a s = omega int_laws

grouped : (a s : ℤ) → a +ℤ (s +ℤ pos 1) ≡ a +ℤ s +ℤ pos 1
grouped a s = omega int_laws

one_and : (s : ℤ) (r : ℕ) → s +ℤ pos 1 +ℤ pos r ≡ s +ℤ pos (suc r)
one_and s r = omega int_laws

none_more : (s : ℤ) → s ≡ s +ℤ pos 0
none_more s = omega int_laws

no_negative_part : (t s : ℤ) → s ≤ℤ t → neg_part (t -ℤ s) ≡ 0
unfolding ◌-ℤ◌
no_negative_part t s h = ground arith

residual_is : (t s : ℤ) → s ≤ℤ t → s +ℤ pos (pos_part (t -ℤ s)) ≡ t
residual_is t s h = omega (int_laws, no_negative_part t s h)

pub nonempty : (a b : ℕ) → a ≡ b → (b == 0) ≡ false → 0 < a
nonempty a b e h = ground arith

module _ (d : Decimals) where
  abbrev pub ids_of : List (Share d) → List Text
  ids_of shares = map (λ (s : Share d). s.id) shares

  sum_units-bump :
      (i : ℕ) (ss : List (Share d))
      → i < length ss
      → sum_units d (bump d i ss) ≡ sum_units d ss +ℤ pos 1
  unfolding bump sum_units
  sum_units-bump i [] h = absurd (omega arith)
  sum_units-bump zero (s ∷ ss) h = one_more s.units (sum_units d ss)
  sum_units-bump (suc i) (s ∷ ss) h =
      ap (λ z. s.units +ℤ z) (sum_units-bump i ss (omega arith)) ∙ grouped s.units (sum_units d ss)

  length-bump : (i : ℕ) (ss : List (Share d)) → length (bump d i ss) ≡ length ss
  unfolding bump
  length-bump i [] = refl
  length-bump zero (s ∷ ss) = refl
  length-bump (suc i) (s ∷ ss) = ap suc (length-bump i ss)

  ids_of-bump : (i : ℕ) (ss : List (Share d)) → ids_of (bump d i ss) ≡ ids_of ss
  unfolding bump
  ids_of-bump i [] = refl
  ids_of-bump zero (s ∷ ss) = refl
  ids_of-bump (suc i) (s ∷ ss) = ap (λ ids. s.id ∷ ids) (ids_of-bump i ss)

  abbrev Below : ℕ → List (Positioned d) → Type 0
  Below n ps = All (λ p. p.0 < n) ps

  pick-Below : (n k : ℕ) (ps : List (Positioned d)) → Below n ps → k < length ps → pick d ps k < n
  unfolding pick
  pick-Below n k [] h l = absurd (omega arith)
  pick-Below n zero (p ∷ ps) h l = h.0
  pick-Below n (suc k) (p ∷ ps) h l = pick-Below n k ps h.1 (omega arith)

  -- The loop adds the residual to the sum, and keeps the ids.
  distribute_lem :
      (r k : ℕ) (ps : List (Positioned d)) (ss : List (Share d))
      → Below (length ss) ps
      → 0 < length ps
      → (sum_units d (distribute d r k ps ss) ≡ sum_units d ss +ℤ pos r)
        × (ids_of (distribute d r k ps ss) ≡ ids_of ss)
  unfolding distribute
  distribute_lem zero k ps ss h l = (none_more (sum_units d ss), refl)
  distribute_lem (suc r) k ps ss h l =
      let p : ℕ = pick d ps (k % length ps) in
      let low : p < length ss = pick-Below (length ss) (k % length ps) ps h (mod-lt k l) in
      let (sum, ids) =
        distribute_lem r (suc k) ps (bump d p ss)
          (subst (λ n. Below n ps) (sym (length-bump p ss)) h) l in
      (
        sum ∙ ap (λ z. z +ℤ pos r) (sum_units-bump p ss low) ∙ one_and (sum_units d ss) r,
        ids ∙ ids_of-bump p ss,
      )

  positions-Below : (k : ℕ) (ss : List (Share d)) → Below (k + length ss) (positions d k ss)
  unfolding positions
  positions-Below k [] = tt
  positions-Below k (s ∷ ss) =
      let e : suc k + length ss ≡ k + suc (length ss) = omega arith in
      (omega arith, subst (λ n. Below n (positions d (suc k) ss)) e (positions-Below (suc k) ss))

  length-positions : (k : ℕ) (ss : List (Share d)) → length (positions d k ss) ≡ length ss
  unfolding positions
  length-positions k [] = refl
  length-positions k (s ∷ ss) = ap suc (length-positions (suc k) ss)

  module _ (locale_compare : Text → Text → Sign) where
    insert_sorted-Below :
        (n : ℕ) (x : Positioned d) (ps : List (Positioned d))
        → x.0 < n
        → Below n ps
        → Below n (insert_sorted d locale_compare x ps)
          × (length (insert_sorted d locale_compare x ps) ≡ suc (length ps))
    unfolding insert_sorted
    insert_sorted-Below n x [] h hs = ((h, tt), refl)
    insert_sorted-Below n x (y ∷ ys) h hs =
        let (below, len) = insert_sorted-Below n x ys h hs.1 in
        elim (Bool-cases (is_more (compare_shares d locale_compare y.1 x.1))) [
          | inl before ↦ rw before ((h, hs), refl)
          | inr after ↦ rw after ((hs.0, below), ap suc len)
        ]

    sort_from-Below :
        (n : ℕ) (sorted xs : List (Positioned d))
        → Below n sorted
        → Below n xs
        → Below n (sort_from d locale_compare sorted xs)
          × (length (sort_from d locale_compare sorted xs) ≡ length sorted + length xs)
    unfolding sort_from
    sort_from-Below n sorted [] h hs = (h, omega arith)
    sort_from-Below n sorted (x ∷ xs) h hs =
        let (below, len) = insert_sorted-Below n x sorted hs.0 h in
        let (all, more) =
          sort_from-Below n (insert_sorted d locale_compare x sorted) xs below hs.1 in
        (all, omega (arith, len, more))

    -- After the loop the ids are as before, and the units sum to the total if the floors did not
    -- sum to more.
    pub distributed_lem :
        (total : ℤ) (shares : List (Share d))
        → 0 < length shares
        → (ids_of (distributed d locale_compare total shares) ≡ ids_of shares)
          × (sum_units d shares ≤ℤ total
              → sum_units d (distributed d locale_compare total shares) ≡ total)
    unfolding distributed
    distributed_lem total shares l =
        let zero_plus : 0 + length shares ≡ length shares = omega arith in
        let (below, len) =
          sort_from-Below (length shares) [] (positions d 0 shares) tt
            (subst (λ n. Below n (positions d 0 shares)) zero_plus (positions-Below 0 shares)) in
        let (sum, ids) =
          distribute_lem (pos_part (total -ℤ sum_units d shares)) 0
            (sort_from d locale_compare [] (positions d 0 shares)) shares below
            (omega (arith, len, length-positions 0 shares)) in
        (ids, λ low. sum ∙ residual_is total (sum_units d shares) low)

    pub shares_of-ids :
        (total : ℤ) (w : d.Value) (entries : List (Entry d)) (shares : List (Share d))
        → shares_of d total w entries ≡ ok shares
        → ids_of shares ≡ map (λ (e : Entry d). e.id) entries
    unfolding shares_of
    shares_of-ids total w [] shares h = ap ids_of (sym (ok_injective h))
    shares_of-ids total w (entry ∷ entries) shares h =
        let exact = d.divided_by (d.times (d.of_units total) entry.weight) w in
        let (units, eu, h1) = >>=_returns (d.floor_units exact) _ h in
        let (rest, er, h2) = >>=_returns (shares_of d total w entries) _ h1 in
        ap ids_of (sym (ok_injective h2))
        ∙ ap (λ ids. entry.id ∷ ids) (shares_of-ids total w entries rest er)

    pub keys_of-entries_of :
        (shares : List (Share d)) → keys_of (entries_of d shares) ≡ ids_of shares
    keys_of-entries_of [] = refl
    keys_of-entries_of (s ∷ ss) = ap (λ ids. s.id ∷ ids) (keys_of-entries_of ss)

    pub length-ids :
        (shares : List (Share d)) (entries : List (Entry d))
        → ids_of shares ≡ map (λ (e : Entry d). e.id) entries
        → length shares ≡ length entries
    length-ids [] [] h = refl
    length-ids [] (e ∷ es) h = absurd (cc h)
    length-ids (s ∷ ss) [] h = absurd (cc h)
    length-ids (s ∷ ss) (e ∷ es) h = ap suc (length-ids ss es (cc h))

    -- The keys of a returned map are distinct, and ids of the entries.
    pub allocate_units_lem :
        (total : ℤ) (entries : List (Entry d)) (m : UnitsMap)
        → allocate_units d locale_compare total entries ≡ ok m
        → Distinct (keys_of m) × Known (map (λ (e : Entry d). e.id) entries) (keys_of m)
    unfolding allocate_units
    allocate_units_lem total entries m h =
        let weights = total_weight d (d.of_units (pos 0)) entries in
        let (_, some_entry, h1) =
          >>=_returns (throw_if (length entries == 0) weights_required) _ h in
        let (_, _, h2) = >>=_returns (throw_if (not (d.is_positive weights)) zero_weights) _ h1 in
        let (shares, es, h3) = >>=_returns (shares_of d total weights entries) _ h2 in
        let same = shares_of-ids total weights entries shares es in
        let present : 0 < length shares =
          nonempty (length shares) (length entries) (length-ids shares entries same)
            (not_thrown _ weights_required some_entry) in
        let all = entries_of d (distributed d locale_compare total shares) in
        let ids = map (λ (e : Entry d). e.id) entries in
        let keys : keys_of all ≡ ids =
          keys_of-entries_of (distributed d locale_compare total shares)
          ∙ (distributed_lem total shares present).0
          ∙ same in
        subst (λ n. Distinct (keys_of n) × Known ids (keys_of n)) (ok_injective h3)
          (
            set_all-Distinct all [] tt,
            set_all-Known ids all [] (subst (Known ids) (sym keys) (Known-refl ids)) tt,
          )
