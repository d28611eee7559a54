-- ===== src/GithubApp/RateLimit/Spending.antt =====
-- Within a window, what is granted leaves the safety floor of what was observed.
use dev_intel_platform.Base.{
  ◌≡◌, refl, sym, ap, subst, Bool, true, false, ◌&&◌, not, List, [], ◌∷◌, ◌⊎◌, inl, inr, All, arith,
  if◌then◌else◌,
}
use dev_intel_platform.Base.Int.{
  ℤ, pos, pos_part, neg_part, ltb_ℤ, eqb_ℤ, ◌-ℤ◌, ◌+ℤ◌, ◌≤ℤ◌, fits_int64, -ℤ_parts, +ℤ_parts,
  eq_of_parts,
}
use dev_intel_platform.GithubApp.RateLimit.{
  Resource, rest, graph_ql, Pool, Budget, get_pool, charge, safety_floor, left, elapsed, cleared,
  reserve_pool, reserve,
}
use dev_intel_platform.GithubApp.RateLimit.Charged.{
  IsObserved, Charged, granted, refused, charge-nonneg, reserve_pool-Charged,
}

-- Calls with their costs and the times at which they ask.
abbrev pub Calls : Type 0
Calls = List (ℤ × ℤ)

-- What was granted of the calls, and the pool afterwards.
abbrev spend_pool : Calls → Pool → ℤ × Pool
spend_pool [] p = (pos 0, p)
spend_pool ((cost, now) ∷ calls) p =
    let t = reserve_pool (charge cost) now (cleared p now) in
    let rest = spend_pool calls t.2 in (if t.1 then charge cost +ℤ rest.0 else rest.0, rest.1)

-- The points that a budget grants to the calls, one after another, and the budget afterwards.
abbrev pub spend : Resource → Calls → Budget → ℤ × Budget
spend r [] b = (pos 0, b)
spend r ((cost, now) ∷ calls) b =
    let t = reserve r cost now b in
    let rest = spend r calls t.2 in (if t.1 then charge cost +ℤ rest.0 else rest.0, rest.1)

-- The window of an observation is not over, and the cost is an `int`.
abbrev pub InWindow : ℤ → ℤ × ℤ → Type 0
InWindow reset_at call =
    (fits_int64 call.0 ≡ true) × ((not (eqb_ℤ reset_at (pos 0)) && ltb_ℤ reset_at call.1) ≡ false)

-- The pool after calls that were granted the total.
pub record Spent (p : Pool) (total : ℤ) (q : Pool) : Type 0 where
  pub sum : q.remaining +ℤ total ≡ p.remaining
  pub floor : (total ≡ pos 0) ⊎ (safety_floor ≤ℤ q.remaining)
  pub same_window : q.reset_at ≡ p.reset_at
  pub observed : IsObserved q

cleared-window : (p : Pool) (call : ℤ × ℤ) → InWindow p.reset_at call → cleared p call.1 ≡ p
unfolding cleared elapsed
cleared-window p call h = ground (arith, h.1)

Spent-none : (p : Pool) → IsObserved p → Spent p (pos 0) p
Spent-none p o = record {
  sum = omega (arith, +ℤ_parts p.remaining (pos 0), eq_of_parts (p.remaining +ℤ pos 0) p.remaining);
  floor = inl refl;
  same_window = refl;
  observed = o;
}

fits_below :
    (n c m : ℤ)
    → fits_int64 m ≡ true
    → n ≡ m -ℤ c
    → pos 0 ≤ℤ c
    → safety_floor ≤ℤ n
    → fits_int64 n ≡ true
unfolding ◌-ℤ◌
fits_below n c m f e hc h = ground arith

floor_after :
    (m n total : ℤ)
    → safety_floor ≤ℤ n
    → m +ℤ total ≡ n
    → (total ≡ pos 0) ⊎ (safety_floor ≤ℤ m)
    → safety_floor ≤ℤ m
unfolding ◌+ℤ◌
floor_after m n total h e (inl z) = ground (arith, z)
floor_after m n total h e (inr k) = k

-- What is left of an observed count is one.
observed-left :
    (p : Pool) (c n : ℤ)
    → IsObserved p
    → n ≡ p.remaining -ℤ c
    → pos 0 ≤ℤ c
    → safety_floor ≤ℤ n
    → IsObserved (record p { remaining = n })
observed-left p c n o e hc h = record {
  known = o.known;
  at_least = ground arith;
  fits = fits_below n c p.remaining o.fits e hc h;
}

regroup : (m n total c k : ℤ) → m +ℤ total ≡ n → n ≡ k -ℤ c → m +ℤ (c +ℤ total) ≡ k
regroup m n total c k e h = eq_of_parts _ _ (
    omega (
      arith,
      +ℤ_parts m total,
      +ℤ_parts c total,
      +ℤ_parts m (c +ℤ total),
      -ℤ_parts k c,
      ap pos_part e,
      ap neg_part e,
      ap pos_part h,
      ap neg_part h,
    ))

-- A granted call, and what the calls after it were granted.
Spent-granted :
    (p q : Pool) (c n total : ℤ)
    → IsObserved p
    → n ≡ p.remaining -ℤ c
    → pos 0 ≤ℤ c
    → safety_floor ≤ℤ n
    → Spent (record p { remaining = n }) total q
    → Spent p (c +ℤ total) q
Spent-granted p q c n total o e hc h s = record {
  sum = regroup q.remaining n total c p.remaining s.sum e;
  floor = inr (floor_after q.remaining n total h s.sum s.floor);
  same_window = s.same_window;
  observed = s.observed;
}

-- The pool after one call, granted or not, and what the calls after it were granted.
Spent-step :
    (p : Pool) (cost : ℤ) (b : Bool) (p' : Pool) (total : ℤ) (q : Pool)
    → IsObserved p
    → Charged p cost b p'
    → (IsObserved p' → p'.reset_at ≡ p.reset_at → Spent p' total q)
    → Spent p (if b then charge cost +ℤ total else total) q
Spent-step p cost _ _ total q o (granted e h) next =
    let c = charge-nonneg cost in
    Spent-granted p q (charge cost) (left p (charge cost)) total o e c h
      (next (observed-left p (charge cost) (left p (charge cost)) o e c h) refl)
Spent-step p cost _ _ total q o refused next = next o refl

spend_pool-Spent :
    (calls : Calls) (p : Pool)
    → IsObserved p
    → All (InWindow p.reset_at) calls
    → let s = spend_pool calls p in Spent p s.0 s.1
spend_pool-Spent [] p o h = Spent-none p o
spend_pool-Spent ((cost, now) ∷ calls) p o (h, hs) =
    subst
      (λ p'.
        let t = reserve_pool (charge cost) now p' in
        let s = spend_pool calls t.2 in Spent p (if t.1 then charge cost +ℤ s.0 else s.0) s.1)
      (sym (cleared-window p (cost, now) h))
      (let t = reserve_pool (charge cost) now p in
        Spent-step p cost t.1 t.2 _ _ o (reserve_pool-Charged p cost now o h.0)
          (λ o' e. spend_pool-Spent calls t.2 o' (subst (λ r. All (InWindow r) calls) (sym e) hs)))

-- The other resource.
abbrev pub other : Resource → Resource
other rest = graph_ql
other graph_ql = rest

-- The total with one more call.
abbrev with_call : Bool → ℤ → ℤ × Pool → ℤ × Pool
with_call t cost u = (if t then charge cost +ℤ u.0 else u.0, u.1)

spent-both :
    (t : Bool) (cost : ℤ) {x y : ℤ × Pool} {p q : Pool}
    → (x ≡ y) × (p ≡ q)
    → (with_call t cost x ≡ with_call t cost y) × (p ≡ q)
spent-both t cost h = (ap (with_call t cost) h.0, h.1)

-- A budget spends like the pool of the resource.
spend-spend_pool :
    (r : Resource) (calls : Calls) (b : Budget)
    → let s = spend r calls b in
      ((s.0, get_pool r s.1) ≡ spend_pool calls (get_pool r b))
      × (get_pool (other r) s.1 ≡ get_pool (other r) b)
unfolding reserve
spend-spend_pool rest [] b = (refl, refl)
spend-spend_pool graph_ql [] b = (refl, refl)
spend-spend_pool rest ((cost, now) ∷ calls) b =
    spent-both (reserve_pool (charge cost) now (cleared b.rest_pool now)).1 cost
      (spend-spend_pool rest calls (reserve rest cost now b).2)
spend-spend_pool graph_ql ((cost, now) ∷ calls) b =
    spent-both (reserve_pool (charge cost) now (cleared b.graph_ql_pool now)).1 cost
      (spend-spend_pool graph_ql calls (reserve graph_ql cost now b).2)

-- Calls for one resource, in the window of an observed count that is not negative, with costs of 64
-- bits: what they are granted and what the pool then holds are together what the pool held, and if
-- they are granted anything, the safety floor is left. The pool stays observed, with its window, and
-- the pool of the other resource is unchanged.
pub spend-Spent :
    (r : Resource) (calls : Calls) (b : Budget)
    → IsObserved (get_pool r b)
    → All (InWindow (get_pool r b).reset_at) calls
    → let s = spend r calls b in
      Spent (get_pool r b) s.0 (get_pool r s.1) × (get_pool (other r) s.1 ≡ get_pool (other r) b)
spend-Spent r calls b o h =
    let e = spend-spend_pool r calls b in
    (
      subst (λ s. Spent (get_pool r b) s.0 s.1) (sym e.0)
          (spend_pool-Spent calls (get_pool r b) o h),
      e.1,
    )
